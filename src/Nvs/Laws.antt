-- ===== src/Nvs/Laws.antt =====
-- On a flash that works, a reader and a writer are made, and what is written is then stored.
use ubiquitous_chainsaw.Base.{
  ℕ, ◌≤◌, ◌≡◌, ◌≢◌, refl, ap, ◌∙◌, List, length, lt→ltb, Option, some, ok, arith,
}
use ubiquitous_chainsaw.Base.Int.{ℤ}
use ubiquitous_chainsaw.Nvs.Flash.{
  NvsErrorCode, NvsFlash, NvsWorks, OpenMode, Entry, int8, blob, success, reading,
  reading_and_writing, uint32_max, updated,
}
use ubiquitous_chainsaw.Nvs.Handle.{
  destroy, make_handle, handle_of_code, make_reader, make_writer, caught,
}
use ubiquitous_chainsaw.Nvs.Access.{
  value, check_key, read_int8, write_int8, write_binary, written, commit, commit_code,
}

destroy_none :
    {S : Type 0} (nvs : NvsFlash S) (s : S) → destroy nvs uint32_max s ≡ nvs.close uint32_max s
unfolding destroy
destroy_none nvs s = refl

-- The destructor closes no handle that was opened.
pub destroy_opened :
    {S : Type 0} (nvs : NvsFlash S) (h : ℕ) (s : S) → h ≢ uint32_max → destroy nvs h s ≡ s
unfolding destroy
destroy_opened nvs h s n = ground arith

module _ {S : Type 0} (nvs : NvsFlash S) (name : List ℕ) (entry : S → List ℕ → Option Entry)
    (IsOpen : OpenMode → ℕ → S → Type 0) (works : NvsWorks nvs name entry IsOpen) where
  abbrev opened : OpenMode → S → NvsErrorCode × ℕ × S
  opened mode s = nvs.open_namespace mode name s

  make_handle_works :
      (mode : OpenMode) (s : S)
      → make_handle nvs mode name s ≡ (ok (some (opened mode s).1), (opened mode s).2)
  unfolding make_handle handle_of_code
  make_handle_works mode s = rw (
    make_handle,
    works.open_code mode s,
    destroy_none nvs (opened mode s).2,
    works.close_none (opened mode s).2,
  )

  pub make_reader_works :
      (s : S) → make_reader nvs name s ≡ ok (some (opened reading s).1, (opened reading s).2)
  unfolding make_reader
  make_reader_works s = rw (
    make_handle_works reading s,
    make_reader,
    ap (λ r. r.1) (make_handle_works reading s),
    destroy_none nvs (opened reading s).2,
    works.close_none (opened reading s).2,
  )

  pub make_writer_works :
      (s : S)
      → make_writer nvs name s
        ≡ ok (some (opened reading_and_writing s).1, (opened reading_and_writing s).2)
  unfolding make_writer caught
  make_writer_works s = rw (make_handle_works reading_and_writing s)

  pub check_key_works : (k : List ℕ) → length k ≤ 14 → check_key nvs k ≡ ok tt
  unfolding check_key
  check_key_works k h = rw (works.key_size, lt→ltb (length k) 15 (omega arith))

  pub read_int8_works :
      (mode : OpenMode) (h : ℕ) (k : List ℕ) (v : ℤ) (s : S)
      → length k ≤ 14
      → IsOpen mode h s
      → entry s k ≡ some (int8 v)
      → read_int8 nvs h k s ≡ ok (value v)
  unfolding read_int8
  read_int8_works mode h k v s short is_open e =
      rw (check_key_works k short, works.get_i8_works mode h k v s is_open e)

  -- What a write leaves: `stored` is what its call of the flash left.
  written_works :
      (h : ℕ) (r : NvsErrorCode × S) (stored : List ℕ → Option Entry)
      → r.0 ≡ success
      → IsOpen reading_and_writing h r.1
      → ((k : List ℕ) → entry r.1 k ≡ stored k)
      → (written nvs h r ≡ (success, (nvs.commit h r.1).1))
        × ((k : List ℕ) → entry (nvs.commit h r.1).1 k ≡ stored k)
  unfolding written commit commit_code
  written_works h (success, s) stored e is_open stores =
      let (code, _, kept) = works.commit_works h s is_open in (rw (code), λ k. kept k ∙ stores k)
  written_works h (_, s) stored e is_open stores = absurd cc

  pub write_int8_works :
      (h : ℕ) (k : List ℕ) (v : ℤ) (s : S)
      → length k ≤ 14
      → IsOpen reading_and_writing h s
      → (s' : S) × (write_int8 nvs h k v s ≡ ok (success, s'))
        × ((k' : List ℕ) → entry s' k' ≡ updated (entry s) k (int8 v) k')
  unfolding write_int8
  write_int8_works h k v s short is_open =
      let (code, still, stores) = works.set_i8_works h k v s is_open in
      let (result, kept) =
        written_works h (nvs.set_i8 h k v s) (updated (entry s) k (int8 v)) code still stores in
      (_, rw (check_key_works k short) (ap ok result), kept)

  pub write_binary_works :
      (h : ℕ) (k bytes : List ℕ) (s : S)
      → length k ≤ 14
      → IsOpen reading_and_writing h s
      → (s' : S) × (write_binary nvs h k bytes s ≡ ok (success, s'))
        × ((k' : List ℕ) → entry s' k' ≡ updated (entry s) k (blob bytes) k')
  unfolding write_binary
  write_binary_works h k bytes s short is_open =
      let (code, still, stores) = works.set_blob_works h k bytes s is_open in
      let (result, kept) =
        written_works h (nvs.set_blob h k bytes s) (updated (entry s) k (blob bytes)) code still
          stores in
      (_, rw (check_key_works k short) (ap ok result), kept)
