-- ===== src/WhoAmI/Token.antt =====
-- server/main/ble/profiles/CWhoAmI.cpp
use ubiquitous_chainsaw.Base.{
  ℕ, ◌+◌, Option, none, some, List, [], ◌∷◌, length, replicate, leb, ltb, Outcome, ok, stop, fatal,
  assertion, ◌>>=◌, ◌>>◌, assert, u8, store, copy_to, subspan,
}
use ubiquitous_chainsaw.Security.{Algorithm, Crypto}
use ubiquitous_chainsaw.Security.Hash
use ubiquitous_chainsaw.Security.Keys
use ubiquitous_chainsaw.Security.Hash.{CHash}
use ubiquitous_chainsaw.Services.{
  header_whoami_authenticate, sizeof_authenticate_header, sha_version_id, sha_to_enum,
}
use ubiquitous_chainsaw.Address.{MacAddress, format_mac}
use ubiquitous_chainsaw.Nimble.{NimbleErrorCode, unexpected_callback_behavior}
open header_whoami_authenticate use {
  sha_version, hash_offset, hash_size, signature_offset, signature_size,
}

-- `common::assert_down_cast<uint8_t>`
unfoldable pub assert_down_cast : ℕ → Outcome ℕ
assert_down_cast large = assert (leb large 255) >> ok (u8 large)

-- `copy_from_buffer`, into the span of the packet at `offset` that has room for `size` bytes.
unfoldable pub copy_from_buffer : List ℕ → ℕ → ℕ → List ℕ → Outcome (List ℕ)
copy_from_buffer packet offset size src = do
  span ← subspan packet offset size
  assert (leb (length src) (length span))
  copy_to packet offset src

unfoldable pub fill_header : List ℕ → CHash → List ℕ → Outcome (List ℕ)
unfolding assert_down_cast sha_version_id sha_to_enum
fill_header packet hash signature = do
  assert (ltb sizeof_authenticate_header (length packet))
  p1 ← store packet sha_version (← sha_version_id (sha_to_enum hash.hash_type))
  p2 ← store p1 hash_offset (← assert_down_cast sizeof_authenticate_header)
  p3 ← store p2 hash_size (← assert_down_cast (length hash.bytes))
  p4 ←
      store p3 signature_offset
        (← assert_down_cast (sizeof_authenticate_header + length hash.bytes))
  store p4 signature_size (← assert_down_cast (length signature))

unfoldable pub copy_hash_and_signature : List ℕ → CHash → List ℕ → Outcome (List ℕ)
copy_hash_and_signature packet hash signature = do
  let hash_end = sizeof_authenticate_header + length hash.bytes
  assert (leb hash_end (length packet))
  p ← copy_from_buffer packet sizeof_authenticate_header (length hash.bytes) hash.bytes
  assert (leb (hash_end + length signature) (length p))
  copy_from_buffer p hash_end (length signature) signature

unfoldable pub make_packet : CHash → List ℕ → Outcome (List ℕ)
make_packet hash signature = do
  let size = sizeof_authenticate_header + length hash.bytes + length signature
  packet ← fill_header (replicate size 0) hash signature
  copy_hash_and_signature packet hash signature

-- The state of `CWhoAmI` that its callback uses.
pub record WhoAmI : Type 0 where
  pub private_key : List ℕ
  pub signed_mac_data : List ℕ

-- What the callback meets outside: the result of `ble_hs_id_copy_addr`, what the signature draws from
-- the random number generator, and the code of `os_mbuf_append`.
pub record Surroundings : Type 0 where
  pub mac : Option MacAddress
  pub draw : ℕ
  pub append : List ℕ → NimbleErrorCode

unfoldable pub sign_server_mac_address : Crypto → Surroundings → WhoAmI → Outcome WhoAmI
sign_server_mac_address c env self = elim env.mac [
  | none ↦ stop fatal
  | some address ↦ do
    let hash = Hash.of_buffer c Algorithm.sha2_256 (format_mac address)
    signature ← Keys.sign_hash c self.private_key env.draw hash.bytes
    packet ← make_packet hash signature
    assert (ltb 0 (length packet))
    ok (record self { signed_mac_data = packet })
]

-- `CharacteristicAccess`
pub data Access : Type 0 where
  read write : Access

unfoldable pub signed : Crypto → Surroundings → WhoAmI → List ℕ → Outcome WhoAmI
signed c env self [] = sign_server_mac_address c env self
signed c env self (_ ∷ _) = ok self

-- The callback of `make_callback_authenticate`: the code returned, what was appended to the answer,
-- and the new state. `none` is a profile that has been deleted.
unfoldable pub callback_authenticate :
    Crypto
    → Surroundings
    → Access
    → Option WhoAmI
    → Outcome (NimbleErrorCode × List ℕ × Option WhoAmI)
callback_authenticate c env access none = ok (unexpected_callback_behavior, [], none)
callback_authenticate c env read (some self) = do
  self' ← signed c env self self.signed_mac_data
  ok (env.append self'.signed_mac_data, self'.signed_mac_data, some self')
callback_authenticate c env write (some self) = stop assertion
