-- ===== src/KeyTransfer/Stores.antt =====
-- What the token's storage holds after a key has come in, on a flash that works.
use ubiquitous_chainsaw.Base.{
  ℕ, ◌+◌, ◌%◌, ◌≤◌, ◌<◌, ◌≡◌, ◌∙◌, List, length, Option, some, ok, arith, false,
}
use ubiquitous_chainsaw.Base.Int.{ℤ, pos, u8_of_int8, int8_of_u8}
use ubiquitous_chainsaw.Security.Hash.{same_bytes}
use ubiquitous_chainsaw.Nvs.Flash.{
  NvsFlash, NvsWorks, OpenMode, Entry, int8, blob, reading, reading_and_writing, updated,
}
use ubiquitous_chainsaw.Nvs.Laws.{
  make_reader_works, make_writer_works, read_int8_works, write_int8_works, write_binary_works,
  destroy_opened,
}
use ubiquitous_chainsaw.KeyTransfer.Token.{
  encryption_namespace, key_num_stored_enc_keys, nvs_key, get_stored_key_count,
  update_stored_key_count, store_key_in_nvs, complete_key, expect, expect_value, fresh,
}

module _ {S : Type 0} (nvs : NvsFlash S) (entry : S → List ℕ → Option Entry)
    (IsOpen : OpenMode → ℕ → S → Type 0)
    (works : NvsWorks nvs encryption_namespace entry IsOpen) where
  abbrev reader_state : S → S
  reader_state s = (nvs.open_namespace reading encryption_namespace s).2

  get_stored_key_count_works :
      (s : S) (v : ℤ)
      → entry s key_num_stored_enc_keys ≡ some (int8 v)
      → get_stored_key_count nvs s ≡ ok (v, reader_state s)
  unfolding get_stored_key_count expect expect_value
  get_stored_key_count_works s v e =
      let (n, is_open) = works.open_handle reading s in
      rw (
        make_reader_works nvs encryption_namespace entry IsOpen works s,
        read_int8_works nvs encryption_namespace entry IsOpen works reading _
            key_num_stored_enc_keys v _ (omega arith) is_open (works.open_entry reading s _ ∙ e),
        destroy_opened nvs _ (reader_state s) n,
      )

  update_stored_key_count_works :
      (s : S) (n : ℕ)
      → n < 127
      → entry s key_num_stored_enc_keys ≡ some (int8 (pos n))
      → (s' : S) × (update_stored_key_count nvs s ≡ ok s')
        × ((k : List ℕ)
            → entry s' k ≡ updated (entry s) key_num_stored_enc_keys (int8 (pos (n + 1))) k)
  unfolding update_stored_key_count expect
  update_stored_key_count_works s n small e =
      let s1 = reader_state s in
      let (other, is_open) = works.open_handle reading_and_writing s1 in
      let (s', wrote, holds) =
        write_int8_works nvs encryption_namespace entry IsOpen works _ key_num_stored_enc_keys
          (pos (n + 1)) _ (omega arith) is_open in
      (
        s',
        rw (
          get_stored_key_count_works s (pos n) e,
          make_writer_works nvs encryption_namespace entry IsOpen works s1,
          count_up n small,
          wrote,
          destroy_opened nvs _ s' other,
        ),
        λ k. holds k ∙ rw (works.open_entry reading_and_writing s1 k, works.open_entry reading s k),
      )
    where
      count_up : (n : ℕ) → n < 127 → int8_of_u8 ((u8_of_int8 (pos n) + 1) % 256) ≡ pos (n + 1)
      count_up n h = ground arith

  store_key_in_nvs_works :
      (s : S) (type : ℕ) (name key : List ℕ)
      → nvs_key type ≡ ok name
      → length name ≤ 14
      → (s' : S) × (store_key_in_nvs nvs type key s ≡ ok s')
        × ((k : List ℕ) → entry s' k ≡ updated (entry s) name (blob key) k)
  unfolding store_key_in_nvs expect
  store_key_in_nvs_works s type name key named short =
      let (other, is_open) = works.open_handle reading_and_writing s in
      let (s', wrote, holds) =
        write_binary_works nvs encryption_namespace entry IsOpen works _ name key _ short is_open in
      (
        s',
        rw (
          make_writer_works nvs encryption_namespace entry IsOpen works s,
          named,
          wrote,
          destroy_opened nvs _ s' other,
        ),
        λ k. holds k ∙ (rw (works.open_entry reading_and_writing s k)),
      )

  -- The count and the key are stored, and the session starts again.
  pub complete_key_works :
      (s : S) (type n : ℕ) (name key : List ℕ)
      → nvs_key type ≡ ok name
      → length name ≤ 14
      → same_bytes key_num_stored_enc_keys name ≡ false
      → n < 127
      → entry s key_num_stored_enc_keys ≡ some (int8 (pos n))
      → (s' : S) × (complete_key nvs type key s ≡ ok (fresh, s'))
        × ((k : List ℕ)
            → entry s' k
              ≡ updated
                  (updated (entry s) name (blob key))
                  key_num_stored_enc_keys
                  (int8 (pos (n + 1)))
                  k)
  unfolding complete_key
  complete_key_works s type n name key named short differs small e =
      let (s1, stored, holds) = store_key_in_nvs_works s type name key named short in
      let (s', counted, holds') =
        update_stored_key_count_works s1 n small
          (holds key_num_stored_enc_keys ∙ (rw (differs) e)) in
      (s', rw (stored, counted), λ k. holds' k ∙ (rw (holds k)))
