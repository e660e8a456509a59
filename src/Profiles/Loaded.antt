-- ===== src/Profiles/Loaded.antt =====
-- On a flash that works, a profile loads the keys that are stored.
use ubiquitous_chainsaw.Base.{ℕ, Bool, ◌≤◌, ◌≡◌, ◌∙◌, List, length, Option, some, ok}
use ubiquitous_chainsaw.Security.Decode.{IsKey, make_key_lem}
use ubiquitous_chainsaw.Nvs.Flash.{NvsFlash, NvsWorks, OpenMode, Entry, blob, success, reading}
use ubiquitous_chainsaw.Nvs.Access.{value, read_binary}
use ubiquitous_chainsaw.Nvs.Laws.{make_reader_works, destroy_opened, check_key_works}
use ubiquitous_chainsaw.KeyTransfer.Token.{encryption_namespace}
use ubiquitous_chainsaw.Profiles.Profile.{load_key}

-- What the documentation of `nvs_get_blob` says: it gives the length of a blob that is stored, and
-- its bytes into a buffer of that length.
abbrev pub ReadsBlobs :
    {S : Type 0} → NvsFlash S → (S → List ℕ → Option Entry) → (OpenMode → ℕ → S → Type 0) → Type 0
ReadsBlobs {S} nvs entry IsOpen =
    (h : ℕ) (k bytes : List ℕ) (s : S)
    → IsOpen reading h s
    → entry s k ≡ some (blob bytes)
    → ((nvs.blob_size h k s).0 ≡ success)
      × (nvs.get_blob h k (nvs.blob_size h k s).1 s ≡ (success, bytes))

module _ {S : Type 0} (nvs : NvsFlash S) (entry : S → List ℕ → Option Entry)
    (IsOpen : OpenMode → ℕ → S → Type 0) (works : NvsWorks nvs encryption_namespace entry IsOpen)
    (reads : ReadsBlobs nvs entry IsOpen) where
  read_binary_works :
      (h : ℕ) (k bytes : List ℕ) (s : S)
      → length k ≤ 14
      → IsOpen reading h s
      → entry s k ≡ some (blob bytes)
      → read_binary nvs h k s ≡ ok (value bytes)
  unfolding read_binary
  read_binary_works h k bytes s short is_open e =
      let (sized, got) = reads h k bytes s is_open e in
      rw (check_key_works nvs encryption_namespace entry IsOpen works k short, sized, got)

  -- The flash after a key has been loaded, which stores what it did before.
  pub after_load : S → S
  after_load s = (nvs.open_namespace reading encryption_namespace s).2

  pub entry-after_load : (s : S) (k : List ℕ) → entry (after_load s) k ≡ entry s k
  unfolding after_load
  entry-after_load s k = works.open_entry reading s k

  pub load_key_works :
      (decodes : List ℕ → Bool) (k bytes : List ℕ) (s : S)
      → length k ≤ 14
      → entry s k ≡ some (blob bytes)
      → IsKey decodes bytes
      → load_key nvs decodes k s ≡ ok (bytes, after_load s)
  unfolding load_key after_load
  load_key_works decodes k bytes s short e is_key =
      let (opened, is_open) = works.open_handle reading s in
      rw (
        make_reader_works nvs encryption_namespace entry IsOpen works s,
        read_binary_works _ k bytes _ short is_open (works.open_entry reading s k ∙ e),
        make_key_lem decodes bytes is_key.some_bytes is_key.decoded,
        destroy_opened nvs _ (nvs.open_namespace reading encryption_namespace s).2 opened,
      )
