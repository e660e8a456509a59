-- ===== src/KeyTransfer/Token.antt =====
-- server/main/usb_cdc.cpp: what the token does with the bytes that come in over USB.
use ubiquitous_chainsaw.Base.{
  ℕ, ◌+◌, ◌%◌, List, [], ◌∷◌, ◌++◌, length, ◌==◌, ◌||◌, leb, if◌then◌else◌, Option, none, some,
  Outcome, ok, stop, fatal, assertion, ◌>>=◌, ◌>>◌, assert,
}
use ubiquitous_chainsaw.Base.Int.{ℤ, u8_of_int8, int8_of_u8}
use ubiquitous_chainsaw.Nvs.Flash.{NvsFlash, is_success}
use ubiquitous_chainsaw.Nvs.Handle.{make_reader, make_writer, destroy}
use ubiquitous_chainsaw.Nvs.Access.{Expected, value, error, read_int8, write_int8, write_binary}

-- The names of server/main/server_common.hpp.
abbrev pub encryption_namespace : List ℕ
encryption_namespace =
    b'E' ∷ b'N' ∷ b'C' ∷ b'_' ∷ b'S' ∷ b'T' ∷ b'O' ∷ b'R' ∷ b'A' ∷ b'G' ∷ b'E' ∷ []

abbrev pub key_num_stored_enc_keys : List ℕ
key_num_stored_enc_keys =
    b'E' ∷ b'N' ∷ b'C' ∷ b'_' ∷ b'N' ∷ b'U' ∷ b'M' ∷ b'_' ∷ b'K' ∷ b'E' ∷ b'Y' ∷ b'S' ∷ []

abbrev pub key_server_private : List ℕ
key_server_private = b'E' ∷ b'N' ∷ b'C' ∷ b'_' ∷ b'P' ∷ b'R' ∷ b'I' ∷ b'V' ∷ []

abbrev pub key_server_public : List ℕ
key_server_public = b'E' ∷ b'N' ∷ b'C' ∷ b'_' ∷ b'P' ∷ b'U' ∷ b'B' ∷ []

abbrev pub key_client_public : List ℕ
key_client_public = b'E' ∷ b'N' ∷ b'C' ∷ b'_' ∷ b'C' ∷ b'L' ∷ b'I' ∷ b'E' ∷ b'N' ∷ b'T' ∷ []

-- `nvs_key`, of the byte that a `common::KeyType` was made from.
unfoldable pub nvs_key : ℕ → Outcome (List ℕ)
nvs_key type =
    if type == 0
    then ok key_client_public
    else if type == 1
    then ok key_server_public
    else if type == 2
    then ok key_server_private
    else stop fatal

-- The value behind `ASSERT(handle)`.
unfoldable pub expect {ℓ} : {A : Type ℓ} → Option A → Outcome A
expect none = stop assertion
expect (some a) = ok a

unfoldable pub expect_value {ℓ} : {A : Type ℓ} → Expected A → Outcome A
expect_value (value a) = ok a
expect_value (error code) = stop assertion

module _ {S : Type 0} (nvs : NvsFlash S) where
  unfoldable pub get_stored_key_count : S → Outcome (ℤ × S)
  get_stored_key_count s = do
    (reader, s1) ← make_reader nvs encryption_namespace s
    handle ← expect reader
    result ← read_int8 nvs handle key_num_stored_enc_keys s1
    count ← expect_value result
    ok (count, destroy nvs handle s1)

  -- The sum is one of `int`, and is converted to `int8_t`.
  unfoldable pub update_stored_key_count : S → Outcome S
  update_stored_key_count s = do
    (count, s1) ← get_stored_key_count s
    (writer, s2) ← make_writer nvs encryption_namespace s1
    handle ← expect writer
    (code, s3) ←
        write_int8 nvs handle key_num_stored_enc_keys (int8_of_u8 ((u8_of_int8 count + 1) % 256)) s2
    assert (is_success code)
    ok (destroy nvs handle s3)

  unfoldable pub store_key_in_nvs : ℕ → List ℕ → S → Outcome S
  store_key_in_nvs type key s = do
    (writer, s1) ← make_writer nvs encryption_namespace s
    handle ← expect writer
    name ← nvs_key type
    (code, s2) ← write_binary nvs handle name key s1
    assert (is_success code)
    ok (destroy nvs handle s2)

-- The static variables of `tinyusb_cdc_rx_callback`.
pub record Session : Type 0 where
  pub key_type : ℕ
  pub key : List ℕ
  pub key_size : ℕ

abbrev pub undefined_type : ℕ
undefined_type = 3

abbrev pub fresh : Session
fresh = record { key_type = undefined_type; key = []; key_size = 0 }

unfoldable pub receive_header : List ℕ → Session → Outcome Session
receive_header [] self = stop assertion
receive_header (byte ∷ []) self = ok (
    if self.key_type == undefined_type
    then record self { key_type = byte }
    else record self { key_size = byte })
receive_header (byte ∷ _ ∷ _) self = stop assertion

module _ {S : Type 0} (nvs : NvsFlash S) where
  unfoldable pub complete_key : ℕ → List ℕ → S → Outcome (Session × S)
  complete_key type key s = do
    s1 ← store_key_in_nvs nvs type key s
    s2 ← update_stored_key_count nvs s1
    ok (fresh, s2)

  unfoldable pub receive_key : List ℕ → Session → S → Outcome (Session × S)
  receive_key read self s = do
    assert (leb (length read) self.key_size)
    let key = self.key ++ read
    let next : Session = record self { key = key }
    if length key == self.key_size then complete_key self.key_type key s else ok (next, s)

  -- `rx_callback` with the bytes that `tinyusb_cdcacm_read` gives; `none` is a failed read.
  unfoldable pub rx_callback : Option (List ℕ) → Session → S → Outcome (Session × S)
  rx_callback none self s = ok (self, s)
  rx_callback (some read) self s =
      if self.key_type == undefined_type || self.key_size == 0
      then (receive_header read self >>= λ self'. ok (self', s))
      else receive_key read self s

  -- The calls that one transfer makes.
  unfoldable pub rx_callbacks : List (List ℕ) → Session → S → Outcome (Session × S)
  rx_callbacks [] self s = ok (self, s)
  rx_callbacks (read ∷ reads) self s = do
    (self', s') ← rx_callback (some read) self s
    rx_callbacks reads self' s'
