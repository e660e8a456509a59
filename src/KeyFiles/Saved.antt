-- ===== src/KeyFiles/Saved.antt =====
-- How the calls of save_ecc_key, load_key and send_key end.
use ubiquitous_chainsaw.Base.{
  ℕ, ◌+◌, ◌<◌, ◌≤◌, ◌==◌, ◌≡◌, refl, Bool, true, false, List, [], ◌∷◌, length, Option, none, some,
  ok, stop, assertion, ◌&&◌, arith,
}
use ubiquitous_chainsaw.Security.Decode.{make_key, make_key_lem}
use ubiquitous_chainsaw.WhoAmI.Token.{assert_down_cast}
use ubiquitous_chainsaw.KeyTransfer.Client.{
  KeyType, to_underlying, messages, bytes_written, send_key,
}
use ubiquitous_chainsaw.KeyFiles.Files.{
  with_file, with_restriction, may_open, restrict_private_key, restrict_file_permissions,
  public_key, private_key, KeyFiles, KeyName, client_private, load_file, save_file, make_ecc_key,
  load_key, save_ecc_key,
}

-- A key that `send_key` can describe in one byte, and that wolfCrypt decodes.
pub record Key (decodes : List ℕ → Bool) (key : List ℕ) : Type 0 where
  pub some_bytes : 0 < length key
  pub one_byte : length key ≤ 255
  pub decoded : decodes key ≡ true

down_cast : (n : ℕ) → n ≤ 255 → assert_down_cast n ≡ ok n
unfolding assert_down_cast
down_cast n small = ground arith

pub sends :
    (port : Option (ℕ → List ℕ → ℕ)) (type : KeyType) (key : List ℕ)
    → length key ≤ 255
    → (sent : Bool) × (send_key port type key ≡ ok sent)
unfolding send_key messages
sends none type key small = (false, refl)
sends (some write) type key small = (
  bytes_written write 0 ((to_underlying type ∷ []) ∷ (length key ∷ []) ∷ key ∷ [])
      == length key + 2,
  rw (down_cast (length key) small),
)

makes : (decodes : List ℕ → Bool) (key : List ℕ) → Key decodes key → make_key decodes key ≡ ok key
makes decodes key known = make_key_lem decodes key known.some_bytes known.decoded

pub loads :
    (decodes : List ℕ → Bool) (name : KeyName) (key : List ℕ) (files : KeyFiles)
    → Key decodes key
    → files.located ≡ true
    → files.file name ≡ some key
    → may_open name files ≡ true
    → load_key decodes name files ≡ ok (some key)
unfolding load_key load_file make_ecc_key
loads decodes name key files known located stored opens =
    rw (located, stored, opens, makes decodes key known)

pub barred :
    (decodes : List ℕ → Bool) (name : KeyName) (key : List ℕ) (files : KeyFiles)
    → files.located ≡ true
    → files.file name ≡ some key
    → may_open name files ≡ false
    → load_key decodes name files ≡ ok none
unfolding load_key load_file make_ecc_key
barred decodes name key files located stored shut = rw (located, stored, shut)

pub saves :
    (name : KeyName) (key : List ℕ) (files : KeyFiles)
    → files.located ≡ true
    → files.writable name ≡ true
    → may_open name files ≡ true
    → save_ecc_key public_key name key files ≡ ok (with_file name (some key) files)
unfolding save_ecc_key save_file restrict_private_key
saves name key files located writable opens = rw (located, writable, opens)

pub loses :
    (name : KeyName) (key : List ℕ) (files : KeyFiles)
    → files.located ≡ true
    → files.writable name ≡ false
    → save_ecc_key public_key name key files ≡ ok files
unfolding save_ecc_key save_file restrict_private_key
loses name key files located locked = rw (located, locked)

pub saves_private :
    (key : List ℕ) (files : KeyFiles)
    → files.located ≡ true
    → files.writable client_private ≡ true
    → files.restrictable client_private ≡ true
    → may_open client_private files ≡ true
    → save_ecc_key private_key client_private key files
      ≡ ok (with_restriction client_private true (with_file client_private (some key) files))
unfolding save_ecc_key save_file restrict_private_key restrict_file_permissions
saves_private key files located writable restrictable opens =
    rw (located, writable, opens, restrictable)

-- What was there stays, and is restricted.
pub loses_private :
    (key old : List ℕ) (files : KeyFiles)
    → files.located ≡ true
    → (files.writable client_private && may_open client_private files) ≡ false
    → files.restrictable client_private ≡ true
    → files.file client_private ≡ some old
    → save_ecc_key private_key client_private key files
      ≡ ok (with_restriction client_private true files)
unfolding save_ecc_key save_file restrict_private_key restrict_file_permissions
loses_private key old files located locked restrictable there =
    rw (located, locked, there, restrictable)

pub breaks :
    (key : List ℕ) (files : KeyFiles)
    → files.located ≡ true
    → files.writable client_private ≡ false
    → files.file client_private ≡ none
    → save_ecc_key private_key client_private key files ≡ stop assertion
unfolding save_ecc_key save_file restrict_private_key restrict_file_permissions
breaks key files located locked missing = rw (located, locked, missing)
