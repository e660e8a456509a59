-- ===== src/WhereAmI/Token.antt =====
-- The token's side of a demand: server/main/ble/profiles/CWhereAmI.cpp.
use ubiquitous_chainsaw.Base.{
  ℕ, Bool, true, false, List, [], ◌∷◌, ltb, Option, none, some, if◌then◌else◌, not, Outcome, ok,
  stop, assertion, ◌>>=◌, ◌>>◌, load, view,
}
use ubiquitous_chainsaw.Base.Int.{ℤ}
use ubiquitous_chainsaw.Security.{Crypto}
use ubiquitous_chainsaw.Security.Hash.{CHash}
use ubiquitous_chainsaw.Security.Keys
use ubiquitous_chainsaw.Services.{
  header_whereami_demand_rssi, ShaVersion, count, version_of_byte, sha_version_id, make_sha_hash,
}
use ubiquitous_chainsaw.Nimble.{
  NimbleErrorCode, success, invalid_arguments, to_small_buffer, invalid_peer_command,
  unexpected_callback_behavior,
}
open header_whereami_demand_rssi use {
  random_data_offset, random_data_size, sha_version, hash_offset, hash_size, signature_offset,
  signature_size,
}

-- The state of `CWhereAmI` that its callbacks use.
pub record WhereAmI : Type 0 where
  pub private_key : List ℕ
  pub client_public_key : List ℕ
  pub random_data_block : List ℕ
  pub notify_handle : Option ℕ
  pub rssi : ℤ

-- `ble_gap_conn_rssi`
pub data RssiResult : Type 0 where
  measured : ℤ → RssiResult
  failed : NimbleErrorCode → RssiResult

-- What NimBLE gives: the handle of the notification characteristic, and the RSSI.
pub record Radio : Type 0 where
  pub attribute_handle : Option ℕ
  pub conn_rssi : RssiResult

-- The reads that the debug build makes to print the header.
unfoldable pub log_demand_rssi_header : List ℕ → Outcome (Unit {0})
log_demand_rssi_header packet = do
  a ← load packet random_data_offset
  b ← load packet random_data_size
  c ← load packet sha_version
  d ← load packet hash_offset
  e ← load packet hash_size
  f ← load packet signature_offset
  g ← load packet signature_size
  ok tt

unfoldable pub valid_context_buffer : Option (List ℕ) → NimbleErrorCode
valid_context_buffer none = invalid_arguments
valid_context_buffer (some []) = to_small_buffer
valid_context_buffer (some (b ∷ rest)) = success

unfoldable pub valid_sha_version_id : ShaVersion → Outcome Bool
valid_sha_version_id version = do
  id ← sha_version_id version
  limit ← sha_version_id count
  ok (ltb id limit)

unfoldable pub view_random_block : List ℕ → Outcome (List ℕ)
view_random_block packet = do
  offset ← load packet random_data_offset
  size ← load packet random_data_size
  view packet offset size

unfoldable pub view_signature : List ℕ → Outcome (List ℕ)
view_signature packet = do
  offset ← load packet signature_offset
  size ← load packet signature_size
  view packet offset size

unfoldable pub view_hash : List ℕ → Outcome (List ℕ)
view_hash packet = do
  offset ← load packet hash_offset
  size ← load packet hash_size
  view packet offset size

unfoldable pub extract_hash : Crypto → List ℕ → ShaVersion → Outcome CHash
extract_hash c packet version = do bytes ← view_hash packet; make_sha_hash c version bytes

unfoldable pub valid_signature : Crypto → WhereAmI → CHash → List ℕ → Outcome Bool
valid_signature c self hash signature =
    Keys.verify_hash c self.client_public_key signature hash.bytes

-- `m_NotifyHandle.emplace(handle_of(...))` where it is still empty.
unfoldable pub with_notify_handle : Radio → WhereAmI → Option ℕ → Outcome WhereAmI
with_notify_handle radio self (some handle) = ok self
with_notify_handle radio self none = elim radio.attribute_handle [
  | none ↦ stop assertion
  | some handle ↦ ok (record self { notify_handle = some handle })
]

-- The code returned, whether the client is notified, and the new state.
abbrev pub Answer : Type 0
Answer = NimbleErrorCode × Bool × WhereAmI

unfoldable pub measure : List ℕ → WhereAmI → RssiResult → Outcome Answer
measure packet self (measured value) = do
  block ← view_random_block packet
  ok (success, true, record self { rssi = value; random_data_block = block })
measure packet self (failed code) = ok (code, false, self)

unfoldable pub check_demand : Crypto → Radio → List ℕ → WhereAmI → Outcome Answer
check_demand c radio packet self = do
  version ← load packet sha_version
  hash ← extract_hash c packet (version_of_byte version)
  signature ← view_signature packet
  verified ← valid_signature c self hash signature
  if verified then measure packet self radio.conn_rssi else ok (invalid_peer_command, false, self)

unfoldable pub receive_demand : Crypto → Radio → List ℕ → WhereAmI → Outcome Answer
receive_demand c radio packet self = do
  self' ← with_notify_handle radio self self.notify_handle
  log_demand_rssi_header packet
  version ← load packet sha_version
  valid ← valid_sha_version_id (version_of_byte version)
  if not valid
      then ok (unexpected_callback_behavior, false, self')
      else check_demand c radio packet self'

-- The write case of the callback of `make_callback_demand_rssi`.
unfoldable pub callback_demand_rssi : Crypto → Radio → Option (List ℕ) → WhereAmI → Outcome Answer
callback_demand_rssi c radio none self = ok (valid_context_buffer none, false, self)
callback_demand_rssi c radio (some []) self = ok (valid_context_buffer (some []), false, self)
callback_demand_rssi c radio (some (b ∷ rest)) self = receive_demand c radio (b ∷ rest) self
