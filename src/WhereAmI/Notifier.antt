-- ===== src/WhereAmI/Notifier.antt =====
-- The token's notification: the read case of `make_callback_rssi_notification` of CWhereAmI.cpp.
use ubiquitous_chainsaw.Base.{
  ℕ, ◌+◌, ◌-◌, List, ◌++◌, length, replicate, take, Outcome, ok, ◌>>=◌, u8, load, store, view,
  subspan, copy_to,
}
use ubiquitous_chainsaw.Base.Int.{u8_of_int8}
use ubiquitous_chainsaw.Security.{Algorithm, Crypto}
use ubiquitous_chainsaw.Security.Hash
use ubiquitous_chainsaw.Security.Hash.{CHash}
use ubiquitous_chainsaw.Security.Keys
use ubiquitous_chainsaw.Services.{
  header_whereami_rssi_notification, sizeof_rssi_notification_header, sha_version_id, sha_to_enum,
}
use ubiquitous_chainsaw.Nimble.{NimbleErrorCode}
use ubiquitous_chainsaw.WhoAmI.Token.{assert_down_cast}
use ubiquitous_chainsaw.WhereAmI.Token.{WhereAmI}
open header_whereami_rssi_notification use {
  random_data_offset, random_data_size, rssi_offset, rssi_size, sha_version, hash_offset, hash_size,
  signature_offset, signature_size,
}

-- The `memcpy` into a block of the packet, whose size is that of the source.
unfoldable pub write_block : List ℕ → ℕ → List ℕ → List ℕ → Outcome (List ℕ)
write_block packet offset block src = copy_to packet offset (take (length block) src)

unfoldable pub write_random_data_block : WhereAmI → List ℕ → Outcome (List ℕ)
write_random_data_block self packet = do
  size ← assert_down_cast (length self.random_data_block)
  p1 ← store packet random_data_offset sizeof_rssi_notification_header
  p2 ← store p1 random_data_size size
  block ← view p2 sizeof_rssi_notification_header size
  write_block p2 sizeof_rssi_notification_header block self.random_data_block

unfoldable pub write_rssi_value : WhereAmI → List ℕ → Outcome (List ℕ)
write_rssi_value self packet = do
  at ← load packet random_data_offset
  size ← load packet random_data_size
  let offset = u8 (at + size)
  p1 ← store packet rssi_offset offset
  p2 ← store p1 rssi_size 1
  store p2 offset (u8_of_int8 self.rssi)

-- `make_hash`, the hash of the random data and the RSSI in the packet.
unfoldable pub make_hash : Crypto → List ℕ → Outcome CHash
make_hash c packet = do
  offset ← load packet random_data_offset
  random ← load packet random_data_size
  rssi ← load packet rssi_size
  bytes ← view packet offset (u8 (random + rssi))
  ok (Hash.of_buffer c Algorithm.sha2_256 bytes)

unfoldable pub write_hash : List ℕ → CHash → Outcome (List ℕ)
write_hash packet hash = do
  version ← sha_version_id (sha_to_enum hash.hash_type)
  p1 ← store packet sha_version version
  at ← load p1 rssi_offset
  rssi ← load p1 rssi_size
  let offset = u8 (at + rssi)
  let size = u8 (length hash.bytes)
  p2 ← store p1 hash_offset offset
  p3 ← store p2 hash_size size
  block ← subspan p3 offset size
  write_block p3 offset block hash.bytes

unfoldable pub write_signature : List ℕ → List ℕ → Outcome (List ℕ)
write_signature packet signature = do
  at ← load packet hash_offset
  hash ← load packet hash_size
  let offset = u8 (at + hash)
  let size = u8 (length signature)
  p1 ← store packet signature_offset offset
  p2 ← store p1 signature_size size
  block ← view p2 offset size
  write_block p2 offset block signature

unfoldable pub packet_size_rssi_notification : List ℕ → Outcome ℕ
packet_size_rssi_notification packet = do
  hash ← load packet hash_size
  random ← load packet random_data_size
  rssi ← load packet rssi_size
  signature ← load packet signature_size
  ok (hash + random + (rssi + signature) + sizeof_rssi_notification_header)

-- `std::vector::resize`
unfoldable pub resize : List ℕ → ℕ → List ℕ
resize packet size = take size packet ++ replicate (size - length packet) 0

-- `draw` is what the signature draws from the random number generator. The debug build prints the nine
-- header bytes of the packet at the end, which are there.
unfoldable pub make_notification : Crypto → ℕ → WhereAmI → Outcome (List ℕ)
make_notification c draw self = do
  p1 ← write_random_data_block self (replicate 256 0)
  p2 ← write_rssi_value self p1
  hash ← make_hash c p2
  signature ← Keys.sign_hash c self.private_key draw hash.bytes
  p3 ← write_hash p2 hash
  p4 ← write_signature p3 signature
  size ← packet_size_rssi_notification p4
  ok (resize p4 size)

-- The code returned, and what is appended to the answer.
unfoldable pub callback_rssi_notification :
    Crypto → ℕ → (List ℕ → NimbleErrorCode) → WhereAmI → Outcome (NimbleErrorCode × List ℕ)
callback_rssi_notification c draw append self = do
  packet ← make_notification c draw self
  ok (append packet, packet)
