-- ===== src/Nvs/Sample.antt =====
-- A flash in memory, on which every call works.
use ubiquitous_chainsaw.Base.{ℕ, ◌≡◌, refl, List, [], ◌∷◌, if◌then◌else◌, Option, none, some, arith}
use ubiquitous_chainsaw.Base.Int.{ℤ, pos}
use ubiquitous_chainsaw.Security.Hash.{same_bytes}
use ubiquitous_chainsaw.Nvs.Flash.{
  NvsErrorCode, NvsFlash, NvsWorks, Entry, int8, blob, success, fail,
}

abbrev pub Store : Type 0
Store = List (List ℕ × Entry)

unfoldable pub find_entry : Store → List ℕ → Option Entry
find_entry [] k = none
find_entry ((name, entry) ∷ rest) k = if same_bytes k name then some entry else find_entry rest k

abbrev bytes_of : Option Entry → NvsErrorCode × List ℕ
bytes_of (some (blob bytes)) = (success, bytes)
bytes_of _ = (fail, [])

abbrev int8_of : Option Entry → NvsErrorCode × ℤ
int8_of (some (int8 v)) = (success, v)
int8_of _ = (fail, pos 0)

abbrev size_of : Option Entry → NvsErrorCode × ℕ
size_of (some (blob bytes)) = (success, 512)
size_of _ = (fail, 0)

abbrev pub flash : NvsFlash Store
flash = record {
  key_name_max_size = 16;
  open_namespace = λ mode name s. (success, 1, s);
  close = λ h s. s;
  blob_size = λ h k s. size_of (find_entry s k);
  get_blob = λ h k size s. bytes_of (find_entry s k);
  get_i8 = λ h k s. int8_of (find_entry s k);
  set_blob = λ h k bytes s. (success, (k, blob bytes) ∷ s);
  set_i8 = λ h k v s. (success, (k, int8 v) ∷ s);
  commit = λ h s. (success, s);
}

pub flash-NvsWorks : (name : List ℕ) → NvsWorks flash name find_entry (λ mode h s. h ≡ 1)
unfolding find_entry
flash-NvsWorks name = record {
  key_size = refl;
  open_code = λ mode s. refl;
  open_handle = λ mode s. (ground arith, refl);
  open_entry = λ mode s k. refl;
  close_none = λ s. refl;
  get_i8_works = λ mode h k v s is_open e. rw (e);
  set_i8_works = λ h k v s is_open. (refl, is_open, λ k'. refl);
  set_blob_works = λ h k bytes s is_open. (refl, is_open, λ k'. refl);
  commit_works = λ h s is_open. (refl, is_open, λ k. refl);
}
