-- ===== src/WhoAmI/Client.antt =====
-- client/src/CServer.cpp: `verify_server_address` and its helpers.
use ubiquitous_chainsaw.Base.{
  ℕ, zero, suc, ◌+◌, Bool, false, not, Option, none, some, List, length, ltb, ◌==◌, if◌then◌else◌,
  Outcome, ok, stop, assertion, ◌>>=◌, load, subspan,
}
use ubiquitous_chainsaw.Security.{Crypto}
use ubiquitous_chainsaw.Security.Hash
use ubiquitous_chainsaw.Security.Hash.{CHash}
use ubiquitous_chainsaw.Security.Keys
use ubiquitous_chainsaw.Services.{
  header_whoami_authenticate, sizeof_authenticate_header, version_of_byte, to_underlying, count,
  size_of_hash_type, make_sha_hash, uuid_service_whoami, uuid_characteristic_whoami_authenticate,
}
use ubiquitous_chainsaw.Address.{hex_addr_to_str}
use ubiquitous_chainsaw.Gatt.{Device}
use ubiquitous_chainsaw.Gatt
open header_whoami_authenticate use {
  sha_version, hash_offset, hash_size, signature_offset, signature_size,
}

unfoldable pub buffer_size_mismatch : Crypto → List ℕ → Outcome Bool
unfolding size_of_hash_type version_of_byte
buffer_size_mismatch c buffer = do
  version ← load buffer sha_version
  hash_bytes ← size_of_hash_type c (version_of_byte version)
  signature_bytes ← load buffer signature_size
  ok (not (sizeof_authenticate_header + hash_bytes + signature_bytes == length buffer))

unfoldable pub valid_hash_type : List ℕ → Outcome Bool
unfolding to_underlying
valid_hash_type buffer = do
  version ← load buffer sha_version
  ok (ltb version (to_underlying count))

unfoldable pub verify_hash_and_signature : Crypto → List ℕ → List ℕ → CHash → List ℕ → Outcome Bool
verify_hash_and_signature c mac_address key hash signature =
    let mac_hash = Hash.of_buffer c hash.hash_type mac_address in
    if not (length hash.bytes == c.hash_size hash.hash_type)
    then ok false
    else if Hash.ne mac_hash hash
    then ok false
    else Keys.verify_hash c key signature hash.bytes

-- The hash and the signature that the loop takes out of a buffer that passes its first two tests.
unfoldable pub parse_packet : Crypto → List ℕ → Outcome (CHash × List ℕ)
parse_packet c buffer = do
  version ← load buffer sha_version
  offset ← load buffer hash_offset
  size ← load buffer hash_size
  hash ← make_sha_hash c (version_of_byte version) (← subspan buffer offset size)
  signature_at ← load buffer signature_offset
  signature_bytes ← load buffer signature_size
  signature ← subspan buffer signature_at signature_bytes
  ok (hash, signature)

-- `m_pServerKey` is `none` where no key file could be loaded.
unfoldable pub parse_and_verify : Crypto → Option (List ℕ) → ℕ → List ℕ → Outcome Bool
parse_and_verify c server_key address buffer = do
  (hash, signature) ← parse_packet c buffer
  elim server_key [
    | none ↦ stop assertion
    | some key ↦ verify_hash_and_signature c (hex_addr_to_str address) key hash signature
  ]

-- The part of the loop's body behind a successful read.
unfoldable pub check_buffer : Crypto → Option (List ℕ) → ℕ → List ℕ → Outcome Bool
check_buffer c server_key address buffer = do
  mismatch ← buffer_size_mismatch c buffer
  if mismatch then ok false else do
    valid ← valid_hash_type buffer
    if not valid then ok false else parse_and_verify c server_key address buffer

-- `read_value` of a characteristic at each attempt: the bytes, or `none` for a failed communication.
abbrev pub Reads : Type 0
Reads = ℕ → Option (List ℕ)

abbrev pub max_attempts : ℕ
max_attempts = 3

-- The loop: `left` is `MAX_ATTEMPTS - attempt`.
unfoldable pub read_attempts : Crypto → Option (List ℕ) → ℕ → Reads → ℕ → ℕ → Outcome Bool
read_attempts c server_key address reads attempt zero = ok false
read_attempts c server_key address reads attempt (suc left) = elim (reads attempt) [
  | some buffer ↦ check_buffer c server_key address buffer
  | none ↦ read_attempts c server_key address reads (attempt + 1) left
]

unfoldable pub find_characteristic_authenticate : Device Reads → Option Reads
find_characteristic_authenticate device = elim (Gatt.service device uuid_service_whoami) [
  | none ↦ none
  | some found ↦ Gatt.find uuid_characteristic_whoami_authenticate found
]

unfoldable pub verify_server_address : Crypto → Option (List ℕ) → Device Reads → ℕ → Outcome Bool
verify_server_address c server_key device address = elim (find_characteristic_authenticate device) [
  | none ↦ ok false
  | some reads ↦ read_attempts c server_key address reads 0 max_attempts
]
