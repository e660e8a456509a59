-- ===== src/KeyFiles/Files.antt =====
-- The files of keys, and `make_ecc_key` of shared/security/ecc_key.hpp. The file system and wolfCrypt
-- are not part of the repository: `KeyFiles` is what the key directory holds, and `decodes` is
-- whether wolfCrypt decodes some bytes as a key. A key is its DER bytes.
use ubiquitous_chainsaw.Base.{
  ℕ, Bool, true, false, not, ◌&&◌, ◌||◌, List, Option, none, some, if◌then◌else◌, Outcome, ok, stop,
  fatal, assert, ◌>>=◌, ◌>>◌,
}
use ubiquitous_chainsaw.Security.Decode.{make_key}

-- The names of the files, `CLIENT_PUBLIC_KEY_NAME` and so on.
pub data KeyName : Type 0 where
  client_public client_private server_public server_private : KeyName

abbrev pub same_name : KeyName → KeyName → Bool
same_name client_public client_public = true
same_name client_private client_private = true
same_name server_public server_public = true
same_name server_private server_private = true
same_name _ _ = false

-- Whether the key directory is found, whether a file in it can be opened for writing, the bytes of the
-- files that exist, whether Windows lets the access to a file be changed, whether it is restricted to
-- administrators, and whether the process has their rights.
pub record KeyFiles : Type 0 where
  pub located : Bool
  pub writable : KeyName → Bool
  pub file : KeyName → Option (List ℕ)
  pub restrictable : KeyName → Bool
  pub restricted : KeyName → Bool
  pub elevated : Bool

pub data ErrorMakeEccKey : Type 0 where
  file_io_exception could_not_open_key_file key_location_not_found : ErrorMakeEccKey

pub data Loaded : Type 0 where
  data_of : List ℕ → Loaded
  unexpected : ErrorMakeEccKey → Loaded

abbrev pub with_file : KeyName → Option (List ℕ) → KeyFiles → KeyFiles
with_file name bytes files = record files {
  file = λ other. if same_name other name then bytes else files.file other;
}

abbrev pub with_restriction : KeyName → Bool → KeyFiles → KeyFiles
with_restriction name to files = record files {
  restricted = λ other. if same_name other name then to else files.restricted other;
}

-- Whether Windows gives the process access to the file.
abbrev pub may_open : KeyName → KeyFiles → Bool
may_open name files = not (files.restricted name) || files.elevated

-- The function that `make_invokable_load_file` gives.
unfoldable pub load_file : KeyName → KeyFiles → Loaded
load_file name files =
    if files.located
    then (elim (files.file name) [
      | none ↦ unexpected could_not_open_key_file
      | some bytes ↦
          if may_open name files then data_of bytes else unexpected could_not_open_key_file
    ])
    else unexpected key_location_not_found

-- The function that `make_invokable_save_file` gives. What is written to a file that could not be
-- opened is lost, and that is not tested.
unfoldable pub save_file : KeyName → List ℕ → KeyFiles → Bool × KeyFiles
save_file name key files =
    if files.located
    then (
      true,
      if files.writable name && may_open name files then with_file name (some key) files else files,
    )
    else (false, files)

unfoldable pub make_ecc_key : (List ℕ → Bool) → Loaded → Outcome (Option (List ℕ))
make_ecc_key decodes (data_of der) = make_key decodes der >>= (λ key. ok (some key))
make_ecc_key decodes (unexpected could_not_open_key_file) = ok none
make_ecc_key decodes (unexpected key_location_not_found) = stop fatal
make_ecc_key decodes (unexpected file_io_exception) = stop fatal

unfoldable pub load_key : (List ℕ → Bool) → KeyName → KeyFiles → Outcome (Option (List ℕ))
load_key decodes name files = make_ecc_key decodes (load_file name files)

-- `key_t` of save_ecc_key.
pub data KeyKind : Type 0 where
  public_key private_key : KeyKind

abbrev exists : Option (List ℕ) → Bool
exists none = false
exists (some bytes) = true

-- `sys::restrict_file_permissions`: SetFileSecurityW fails on a file that does not exist, and WIN_CHECK
-- breaks then.
unfoldable pub restrict_file_permissions : KeyName → KeyFiles → Outcome KeyFiles
restrict_file_permissions name files =
    assert (exists (files.file name) && files.restrictable name)
    >> ok (with_restriction name true files)

-- What save_ecc_key does behind the writing. That the key directory is not found is only logged.
unfoldable pub restrict_private_key : KeyKind → KeyName → KeyFiles → Outcome KeyFiles
unfolding restrict_file_permissions
restrict_private_key public_key name files = ok files
restrict_private_key private_key name files =
    if files.located then restrict_file_permissions name files else ok files

unfoldable pub save_ecc_key : KeyKind → KeyName → List ℕ → KeyFiles → Outcome KeyFiles
unfolding restrict_private_key
save_ecc_key kind name key files =
    let (saved, files') = save_file name key files in
    if saved then restrict_private_key kind name files' else stop fatal

unfoldable pub keys_exists : KeyFiles → Bool
keys_exists files =
    if files.located
    then exists (files.file client_public)
      && (exists (files.file client_private) && exists (files.file server_public))
    else false

-- A file that is made anew is not restricted.
unfoldable pub erase_file : KeyName → KeyFiles → KeyFiles
erase_file name files =
    if exists (files.file name)
    then with_restriction name false (with_file name none files)
    else files

unfoldable pub erase_stored_ecc_keys : KeyFiles → KeyFiles
erase_stored_ecc_keys files =
    if files.located
    then erase_file server_private
        (erase_file server_public (erase_file client_private (erase_file client_public files)))
    else files
