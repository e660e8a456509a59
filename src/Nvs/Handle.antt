-- ===== src/Nvs/Handle.antt =====
-- `CHandle` and how `CReader` and `CWriter` come by one.
use ubiquitous_chainsaw.Base.{
  ℕ, List, Option, none, some, ◌==◌, not, if◌then◌else◌, Outcome, ok, stop, assertion, fatal,
  undefined,
}
use ubiquitous_chainsaw.Nvs.Flash.{
  NvsErrorCode, OpenMode, NvsFlash, uint32_max, success, fail, not_initilized, namespace_not_found,
  no_space_for_new_entry, invalid_name, partition_not_found, other, reading, reading_and_writing,
}

-- `throw_read_write_constructor_error`: `ok none` is a `std::runtime_error`.
unfoldable pub throw_read_write_constructor_error : NvsErrorCode → Outcome (Option ℕ)
throw_read_write_constructor_error not_initilized = stop assertion
throw_read_write_constructor_error partition_not_found = stop assertion
throw_read_write_constructor_error no_space_for_new_entry = stop assertion
throw_read_write_constructor_error fail = ok none
throw_read_write_constructor_error namespace_not_found = ok none
throw_read_write_constructor_error invalid_name = ok none
throw_read_write_constructor_error _ = stop fatal

-- What the constructor of `CHandle` makes of a code: 0x101 is `ESP_ERR_NO_MEM`.
unfoldable pub handle_of_code : NvsErrorCode → ℕ → Outcome (Option ℕ)
handle_of_code success h = ok (some h)
handle_of_code (other e) h =
    if e == 0x101 then stop assertion else throw_read_write_constructor_error (other e)
handle_of_code code h = throw_read_write_constructor_error code

module _ {S : Type 0} (nvs : NvsFlash S) where
  -- `~CHandle`, as it is written: a handle other than `UINT32_MAX` is left as it is.
  unfoldable pub destroy : ℕ → S → S
  destroy handle s = if not (handle == uint32_max) then s else nvs.close uint32_max s

  -- `make_handle`. Its temporary has been moved from when it is destroyed.
  unfoldable pub make_handle : OpenMode → List ℕ → S → Outcome (Option ℕ) × S
  make_handle mode name s =
      let (code, handle, opened) = nvs.open_namespace mode name s in
      elim (handle_of_code code handle) [
        | ok (some h) ↦ (ok (some h), destroy uint32_max opened)
        | ok none ↦ (ok none, opened)
        | stop e ↦ (stop e, opened)
      ]

  -- Both catch `std::runtime_error`, which `exception::fatal_error` is.
  unfoldable pub caught : Outcome (Option ℕ) → S → Outcome (Option ℕ × S)
  caught (ok h) s = ok (h, s)
  caught (stop fatal) s = ok (none, s)
  caught (stop assertion) s = stop assertion
  caught (stop undefined) s = stop undefined

  -- The reader that is returned has been moved out of a temporary.
  unfoldable pub make_reader : List ℕ → S → Outcome (Option ℕ × S)
  make_reader name s =
      let (handle, s') = make_handle reading name s in
      elim handle [
        | ok (some h) ↦ ok (some h, destroy uint32_max s')
        | ok none ↦ ok (none, s')
        | stop e ↦ caught (stop e) s'
      ]

  unfoldable pub make_writer : List ℕ → S → Outcome (Option ℕ × S)
  make_writer name s = let (handle, s') = make_handle reading_and_writing name s in caught handle s'
