-- ===== src/WhereAmI/Demand.antt =====
-- The packet by which the client demands the RSSI: `make_packet_demand_rssi` of CRssiDemander.cpp.
use ubiquitous_chainsaw.Base.{
  ℕ, ◌+◌, ◌==◌, List, length, replicate, ltb, Outcome, ◌>>=◌, ◌>>◌, assert, u8, load, store,
  subspan, copy_to,
}
use ubiquitous_chainsaw.Security.{Algorithm, Crypto}
use ubiquitous_chainsaw.Security.Hash
use ubiquitous_chainsaw.Security.Hash.{CHash}
use ubiquitous_chainsaw.Security.Keys
use ubiquitous_chainsaw.Services.{
  header_whereami_demand_rssi, sizeof_demand_rssi_header, sha_version_id_of,
}
use ubiquitous_chainsaw.WhoAmI.Token.{assert_down_cast}
open header_whereami_demand_rssi use {
  random_data_offset, random_data_size, sha_version, hash_offset, hash_size, signature_offset,
  signature_size,
}

-- `insert_data`, into the span of the packet at `offset` of `size` bytes.
unfoldable pub insert_data : List ℕ → ℕ → ℕ → List ℕ → Outcome (List ℕ)
insert_data packet offset size src = do
  span ← subspan packet offset size
  assert (length span == length src)
  copy_to packet offset src

unfoldable pub insert_random_data_block : List ℕ → List ℕ → Outcome (List ℕ)
insert_random_data_block packet block = do
  p1 ← store packet random_data_offset sizeof_demand_rssi_header
  p2 ← store p1 random_data_size (← assert_down_cast (length block))
  offset ← load p2 random_data_offset
  size ← load p2 random_data_size
  insert_data p2 offset size block

unfoldable pub insert_hash : List ℕ → CHash → Outcome (List ℕ)
insert_hash packet hash = do
  random ← load packet random_data_size
  p1 ← store packet hash_offset (u8 (sizeof_demand_rssi_header + random))
  p2 ← store p1 hash_size (← assert_down_cast (length hash.bytes))
  offset ← load p2 hash_offset
  size ← load p2 hash_size
  insert_data p2 offset size hash.bytes

unfoldable pub insert_signature : List ℕ → List ℕ → Outcome (List ℕ)
insert_signature packet signature = do
  random ← load packet random_data_size
  hash ← load packet hash_size
  p1 ← store packet signature_offset (u8 (sizeof_demand_rssi_header + random + hash))
  p2 ← store p1 signature_size (← assert_down_cast (length signature))
  offset ← load p2 signature_offset
  size ← load p2 signature_size
  insert_data p2 offset size signature

unfoldable pub fill_packet : List ℕ → CHash → List ℕ → Outcome (List ℕ)
fill_packet block hash signature = do
  let size = sizeof_demand_rssi_header + length block + length hash.bytes + length signature
  assert (ltb size 216)
  p ← store (replicate size 0) sha_version (sha_version_id_of hash.hash_type)
  p1 ← insert_random_data_block p block
  p2 ← insert_hash p1 hash
  insert_signature p2 signature

-- `block` is what `generate_random_block` gives, `draw` what the signature draws.
unfoldable pub make_packet_demand_rssi : Crypto → List ℕ → ℕ → List ℕ → Outcome (List ℕ)
make_packet_demand_rssi c private_key draw block = do
  let hash = Hash.of_buffer c Algorithm.sha2_256 block
  signature ← Keys.sign_hash c private_key draw hash.bytes
  fill_packet block hash signature
