-- ===== src/Nvs/Access.antt =====
-- What `CReader` and `CWriter` do with their handle.
use ubiquitous_chainsaw.Base.{ℕ, ◌-◌, List, length, ltb, if◌then◌else◌, Outcome, ok, ◌>>◌, assert}
use ubiquitous_chainsaw.Base.Int.{ℤ}
use ubiquitous_chainsaw.Nvs.Flash.{
  NvsErrorCode, NvsFlash, is_success, success, fail, invalid_handle, read_only, invalid_name,
  no_space_for_new_entry, failed_write_operation, data_to_large, unknown,
}

-- `std::expected<T, NvsErrorCode>`
pub data Expected {ℓ} (A : Type ℓ) : Type ℓ where
  value : A → Expected A
  error : NvsErrorCode → Expected A

-- The code that `log_write_error` leaves.
unfoldable pub log_write_error : NvsErrorCode → NvsErrorCode
log_write_error fail = fail
log_write_error invalid_handle = invalid_handle
log_write_error read_only = read_only
log_write_error invalid_name = invalid_name
log_write_error no_space_for_new_entry = no_space_for_new_entry
log_write_error failed_write_operation = failed_write_operation
log_write_error data_to_large = data_to_large
log_write_error _ = unknown

unfoldable pub commit_code : NvsErrorCode → NvsErrorCode
commit_code success = success
commit_code invalid_handle = invalid_handle
commit_code _ = unknown

module _ {S : Type 0} (nvs : NvsFlash S) where
  unfoldable pub check_key : List ℕ → Outcome (Unit {0})
  check_key key = assert (ltb (length key) (nvs.key_name_max_size - 1))

  unfoldable pub read_binary : ℕ → List ℕ → S → Outcome (Expected (List ℕ))
  read_binary handle key s = do
    check_key key
    let (code, size) = nvs.blob_size handle key s
    let (code', bytes) = nvs.get_blob handle key size s
    ok (
        if is_success code
        then if is_success code' then value bytes else error code'
        else error code)

  unfoldable pub read_int8 : ℕ → List ℕ → S → Outcome (Expected ℤ)
  read_int8 handle key s = do
    check_key key
    let (code, v) = nvs.get_i8 handle key s
    ok (if is_success code then value v else error code)

  unfoldable pub commit : ℕ → S → NvsErrorCode × S
  commit handle s = let (code, s') = nvs.commit handle s in (commit_code code, s')

  -- Both writes end alike.
  unfoldable pub written : ℕ → NvsErrorCode × S → NvsErrorCode × S
  written handle (success, s) = commit handle s
  written handle (code, s) = (log_write_error code, s)

  unfoldable pub write_binary : ℕ → List ℕ → List ℕ → S → Outcome (NvsErrorCode × S)
  write_binary handle key bytes s =
      check_key key >> ok (written handle (nvs.set_blob handle key bytes s))

  unfoldable pub write_int8 : ℕ → List ℕ → ℤ → S → Outcome (NvsErrorCode × S)
  write_int8 handle key v s = check_key key >> ok (written handle (nvs.set_i8 handle key v s))
