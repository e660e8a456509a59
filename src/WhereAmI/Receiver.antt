-- ===== src/WhereAmI/Receiver.antt =====
-- The client's side of a notification: `make_rssi_receiver` and `rssi` of CRssiDemander.cpp.
use ubiquitous_chainsaw.Base.{
  ℕ, ◌==◌, Bool, true, false, List, [], ◌∷◌, ◌++◌, Option, none, some, if◌then◌else◌, Outcome, ok,
  ◌>>=◌, ◌>>◌, assert, load, view,
}
use ubiquitous_chainsaw.Base.Int.{ℤ, int8_of_u8}
use ubiquitous_chainsaw.Security.{Crypto}
use ubiquitous_chainsaw.Security.Keys
use ubiquitous_chainsaw.Services.{
  header_whereami_rssi_notification, ShaVersion, version_of_byte, make_sha_hash,
}
use ubiquitous_chainsaw.Replay.Protector.{ReplayProtector, expected_random_data}
use ubiquitous_chainsaw.WhereAmI.Token.{valid_sha_version_id}
open header_whereami_rssi_notification use {
  random_data_offset, random_data_size, rssi_offset, rssi_size, sha_version, hash_offset, hash_size,
  signature_offset, signature_size,
}

-- The state of `CRssiDemander` that the receiver uses.
pub record RssiDemander : Type 0 where
  pub queue : List ℤ
  pub server_key : List ℕ
  pub protector : ReplayProtector

unfoldable pub view_random_data_block : List ℕ → Outcome (List ℕ)
view_random_data_block packet = do
  offset ← load packet random_data_offset
  size ← load packet random_data_size
  view packet offset size

unfoldable pub view_hash : List ℕ → Outcome (List ℕ)
view_hash packet = do
  offset ← load packet hash_offset
  size ← load packet hash_size
  view packet offset size

unfoldable pub view_signature : List ℕ → Outcome (List ℕ)
view_signature packet = do
  offset ← load packet signature_offset
  size ← load packet signature_size
  view packet offset size

unfoldable pub extract_sha_version : List ℕ → Outcome ShaVersion
extract_sha_version packet = do version ← load packet sha_version; ok (version_of_byte version)

unfoldable pub extract_rssi_value : List ℕ → Outcome ℤ
extract_rssi_value packet = do
  size ← load packet rssi_size
  assert (size == 1)
  offset ← load packet rssi_offset
  byte ← load packet offset
  ok (int8_of_u8 byte)

-- Behind `expected_random_data`: `self` has its new protector.
unfoldable pub check_notification :
    Crypto → List ℕ → ShaVersion → RssiDemander → Outcome RssiDemander
check_notification c packet version self = do
  bytes ← view_hash packet
  hash ← make_sha_hash c version bytes
  signature ← view_signature packet
  verified ← Keys.verify_hash c self.server_key signature hash.bytes
  received ← (if verified then (extract_rssi_value packet >>= λ value. ok (value ∷ [])) else ok [])
  ok (record self { queue = self.queue ++ received })

unfoldable pub receive_expected :
    Crypto → List ℕ → ShaVersion → RssiDemander → Bool × ReplayProtector → Outcome RssiDemander
receive_expected c packet version self (true, protector) =
    check_notification c packet version (record self { protector = protector })
receive_expected c packet version self (false, protector) =
    ok (record self { protector = protector })

unfoldable pub receive_valid :
    Crypto → ℕ → List ℕ → ShaVersion → RssiDemander → Outcome RssiDemander
receive_valid c now packet version self = do
  block ← view_random_data_block packet
  expected ← expected_random_data now block self.protector
  receive_expected c packet version self expected

-- The receiver, at the time `now`.
unfoldable pub receive : Crypto → ℕ → List ℕ → RssiDemander → Outcome RssiDemander
receive c now packet self = do
  version ← extract_sha_version packet
  valid ← valid_sha_version_id version
  if valid then receive_valid c now packet version self else ok self

-- `rssi`: what the queue holds, and the empty queue; `none` where it holds nothing.
unfoldable pub rssi : RssiDemander → Option (List ℤ) × RssiDemander
rssi self =
    (elim self.queue [ [] ↦ none | value ∷ rest ↦ some (value ∷ rest) ], record self { queue = [] })
