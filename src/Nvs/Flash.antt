-- ===== src/Nvs/Flash.antt =====
-- The ESP-IDF's NVS library is not part of the repository: `NvsFlash` holds the calls made of it.
-- `NvsErrorCode` is that of CNonVolatileStorage.hpp.
use ubiquitous_chainsaw.Base.{ℕ, ◌≡◌, ◌≢◌, List, Bool, true, false, if◌then◌else◌, Option, some}
use ubiquitous_chainsaw.Base.Int.{ℤ}
use ubiquitous_chainsaw.Security.Hash.{same_bytes}

-- `other` is a code that the enumeration does not name.
pub data NvsErrorCode : Type 0 where
  success fail not_initilized namespace_not_found type_mismatch read_only : NvsErrorCode
  no_space_for_new_entry invalid_name invalid_handle failed_write_operation : NvsErrorCode
  key_name_to_long invalid_state invalid_data_lenght no_free_pages data_to_large : NvsErrorCode
  partition_not_found unrecognized_data_format xts_encrypt_write_fail : NvsErrorCode
  xts_decrypt_read_fail xts_config_fail xts_config_not_found encryption_not_supported : NvsErrorCode
  key_part_not_initilized corrupted_key wrong_encryption unknown : NvsErrorCode
  other : ℕ → NvsErrorCode

abbrev pub is_success : NvsErrorCode → Bool
is_success success = true
is_success _ = false

pub data OpenMode : Type 0 where
  reading reading_and_writing : OpenMode

-- What an entry holds.
pub data Entry : Type 0 where
  int8 : ℤ → Entry
  blob : List ℕ → Entry

-- Each call with the state of the flash before and after it; names are byte strings. `get_blob` has
-- the length of its buffer, `blob_size` is the call with no buffer.
pub record NvsFlash (S : Type 0) : Type 0 where
  pub key_name_max_size : ℕ
  pub open_namespace : OpenMode → List ℕ → S → NvsErrorCode × ℕ × S
  pub close : ℕ → S → S
  pub blob_size : ℕ → List ℕ → S → NvsErrorCode × ℕ
  pub get_blob : ℕ → List ℕ → ℕ → S → NvsErrorCode × List ℕ
  pub get_i8 : ℕ → List ℕ → S → NvsErrorCode × ℤ
  pub set_blob : ℕ → List ℕ → List ℕ → S → NvsErrorCode × S
  pub set_i8 : ℕ → List ℕ → ℤ → S → NvsErrorCode × S
  pub commit : ℕ → S → NvsErrorCode × S

-- `nvs_handle_t` is unsigned; `CHandle` keeps `UINT32_MAX` for no handle.
abbrev pub uint32_max : ℕ
uint32_max = 0xffffffff

abbrev pub updated : (List ℕ → Option Entry) → List ℕ → Entry → List ℕ → Option Entry
updated entries key entry k = if same_bytes k key then some entry else entries k

-- A flash on which every call works, as documented: `entry` is what is stored in one namespace, and
-- `IsOpen` the handles to that namespace.
pub record NvsWorks {S : Type 0} (nvs : NvsFlash S) (name : List ℕ)
    (entry : S → List ℕ → Option Entry) (IsOpen : OpenMode → ℕ → S → Type 0) : Type 0 where
  pub key_size : nvs.key_name_max_size ≡ 16
  pub open_code : (mode : OpenMode) (s : S) → (nvs.open_namespace mode name s).0 ≡ success
  pub open_handle :
      (mode : OpenMode) (s : S)
      → ((nvs.open_namespace mode name s).1 ≢ uint32_max)
        × IsOpen mode (nvs.open_namespace mode name s).1 (nvs.open_namespace mode name s).2
  pub open_entry :
      (mode : OpenMode) (s : S) (k : List ℕ)
      → entry (nvs.open_namespace mode name s).2 k ≡ entry s k
  pub close_none : (s : S) → nvs.close uint32_max s ≡ s
  pub get_i8_works :
      (mode : OpenMode) (h : ℕ) (k : List ℕ) (v : ℤ) (s : S)
      → IsOpen mode h s
      → entry s k ≡ some (int8 v)
      → nvs.get_i8 h k s ≡ (success, v)
  pub set_i8_works :
      (h : ℕ) (k : List ℕ) (v : ℤ) (s : S)
      → IsOpen reading_and_writing h s
      → ((nvs.set_i8 h k v s).0 ≡ success)
        × IsOpen reading_and_writing h (nvs.set_i8 h k v s).1
        × ((k' : List ℕ) → entry (nvs.set_i8 h k v s).1 k' ≡ updated (entry s) k (int8 v) k')
  pub set_blob_works :
      (h : ℕ) (k bytes : List ℕ) (s : S)
      → IsOpen reading_and_writing h s
      → ((nvs.set_blob h k bytes s).0 ≡ success)
        × IsOpen reading_and_writing h (nvs.set_blob h k bytes s).1
        × ((k' : List ℕ)
            → entry (nvs.set_blob h k bytes s).1 k' ≡ updated (entry s) k (blob bytes) k')
  pub commit_works :
      (h : ℕ) (s : S)
      → IsOpen reading_and_writing h s
      → ((nvs.commit h s).0 ≡ success)
        × IsOpen reading_and_writing h (nvs.commit h s).1
        × ((k : List ℕ) → entry (nvs.commit h s).1 k ≡ entry s k)
