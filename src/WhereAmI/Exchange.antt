-- ===== src/WhereAmI/Exchange.antt =====
-- The token takes the demand that the client makes.
use ubiquitous_chainsaw.Base.{
  ℕ, ◌+◌, ◌≤◌, ◌<◌, ◌≡◌, refl, ◌∙◌, true, Option, none, some, List, [], ◌++◌, length, length-append,
  append-nil, append_assoc, ok, arith, view-append,
}
use ubiquitous_chainsaw.Base.Int.{ℤ}
use ubiquitous_chainsaw.Security.{Algorithm, Crypto, CryptoLaws}
use ubiquitous_chainsaw.Security.Hash
use ubiquitous_chainsaw.Security.Hash.{CHash}
use ubiquitous_chainsaw.Security.Keys
use ubiquitous_chainsaw.Services.{sha_version_id_of, sha_version_id, sha_to_enum}
use ubiquitous_chainsaw.Services.Laws.{version_of_byte-sha_version_id_of, make_sha_hash-sha_to_enum}
use ubiquitous_chainsaw.Nimble.{success}
use ubiquitous_chainsaw.WhereAmI.Demand.{make_packet_demand_rssi}
use ubiquitous_chainsaw.WhereAmI.Token.{
  WhereAmI, Radio, measured, log_demand_rssi_header, valid_sha_version_id, view_random_block,
  view_signature, view_hash, extract_hash, valid_signature, with_notify_handle, measure,
  check_demand, receive_demand, callback_demand_rssi,
}
use ubiquitous_chainsaw.WhereAmI.Layout.{layout, fill_packet_lem}

pub valid_version : (a : Algorithm) → valid_sha_version_id (sha_to_enum a) ≡ ok true
unfolding valid_sha_version_id sha_version_id sha_to_enum
valid_version Algorithm.sha2_224 = refl
valid_version Algorithm.sha2_256 = refl
valid_version Algorithm.sha3_224 = refl
valid_version Algorithm.sha3_256 = refl
valid_version Algorithm.sha3_384 = refl
valid_version Algorithm.sha3_512 = refl

module _ (block signature : List ℕ) (hash : CHash) where
  abbrev pub packet : List ℕ
  packet =
      layout (sha_version_id_of hash.hash_type) (length block) (length hash.bytes)
        (length signature) (block ++ (hash.bytes ++ signature))

  abbrev cells : List ℕ
  cells =
      layout (sha_version_id_of hash.hash_type) (length block) (length hash.bytes)
        (length signature) []

  views_block : view_random_block packet ≡ ok block
  unfolding view_random_block
  views_block =
      view-append packet cells block (hash.bytes ++ signature) 7 (length block) refl refl refl

  views_hash : view_hash packet ≡ ok hash.bytes
  unfolding view_hash
  views_hash =
      view-append packet (cells ++ block) hash.bytes signature (7 + length block)
        (length hash.bytes) refl (omega arith) refl

  views_signature : view_signature packet ≡ ok signature
  unfolding view_signature
  views_signature =
      view-append packet (cells ++ (block ++ hash.bytes)) signature []
        (7 + length block + length hash.bytes) (length signature)
        (rw (append-nil signature, append_assoc block hash.bytes signature))
        (omega (arith, length-append block hash.bytes)) refl

  extracts_hash :
      (c : Crypto)
      → length hash.bytes ≡ c.hash_size hash.hash_type
      → extract_hash c packet (sha_to_enum hash.hash_type) ≡ ok hash
  unfolding extract_hash
  extracts_hash c size = rw (views_hash, make_sha_hash-sha_to_enum c hash.hash_type hash.bytes size)

  -- A packet with a signature that the token verifies is answered.
  accepts :
      (c : Crypto) (radio : Radio) (self : WhereAmI) (value : ℤ)
      → length hash.bytes ≡ c.hash_size hash.hash_type
      → 0 < length signature
      → c.verify_hash self.client_public_key signature hash.bytes ≡ true
      → radio.conn_rssi ≡ measured value
      → check_demand c radio packet self
        ≡ ok (success, true, record self { rssi = value; random_data_block = block })
  unfolding check_demand valid_signature measure
  accepts c radio self value size some_bytes verified heard = rw (
    version_of_byte-sha_version_id_of hash.hash_type,
    extracts_hash c size,
    views_signature,
    Keys.verify_hash_lem c self.client_public_key signature hash.bytes some_bytes,
    verified,
    heard,
    views_block,
  )

-- The checks before `check_demand` let a packet of the client pass.
receives :
    (c : Crypto) (radio : Radio) (block signature : List ℕ) (hash : CHash) (self self' : WhereAmI)
    → with_notify_handle radio self self.notify_handle ≡ ok self'
    → receive_demand c radio (packet block signature hash) self
      ≡ check_demand c radio (packet block signature hash) self'
unfolding receive_demand log_demand_rssi_header
receives c radio block signature hash self self' e =
    rw (e, version_of_byte-sha_version_id_of hash.hash_type, valid_version hash.hash_type)

-- The handle that `m_NotifyHandle` holds after a demand.
abbrev handle_after : ℕ → Option ℕ → Option ℕ
handle_after attribute none = some attribute
handle_after attribute (some handle) = some handle

module _ (c : Crypto) {IsPair : List ℕ → List ℕ → Type 0} (laws : CryptoLaws c IsPair)
    (public private : List ℕ) (pair : IsPair public private)
    (short : c.hash_size Algorithm.sha2_256 ≤ 32) where
  abbrev demand : ℕ → List ℕ → List ℕ
  demand draw block =
      let hash : CHash = record {
        hash_type = Algorithm.sha2_256;
        bytes = c.digest Algorithm.sha2_256 block;
      } in
      packet block (c.sign_hash private draw hash.bytes) hash

  -- Where wolfCrypt keeps its laws and a hash has at most 32 bytes: the client's demand for a block of up to 96 bytes is made, and a token that holds the matching
  -- public key keeps the block and the RSSI that the radio measures and notifies the client.
  pub demand_is_answered :
      (draw attribute : ℕ) (block key old_block : List ℕ) (found : Option ℕ) (old_rssi value : ℤ)
      → length block ≤ 96
      → let token : Option ℕ → List ℕ → ℤ → WhereAmI = λ handle data_block rssi. record {
        private_key = key;
        client_public_key = public;
        random_data_block = data_block;
        notify_handle = handle;
        rssi = rssi;
      } in
        let radio : Radio = record {
          attribute_handle = some attribute;
          conn_rssi = measured value;
        } in
        (make_packet_demand_rssi c private draw block ≡ ok (demand draw block))
        × (callback_demand_rssi c radio (some (demand draw block)) (token found old_block old_rssi)
            ≡ ok (success, true, token (handle_after attribute found) block value))
  unfolding make_packet_demand_rssi callback_demand_rssi with_notify_handle Hash.of_buffer
  demand_is_answered draw attribute block key old_block found old_rssi value small = (
    rw (
      Keys.sign_hash_lem c private draw bytes
          (omega (arith, size, laws.hash_size_pos Algorithm.sha2_256)),
      fill_packet_lem block signature hash (omega (arith, size, laws.sign_size private bytes draw)),
    ),
    answers found,
  )
    where
      bytes : List ℕ
      bytes = c.digest Algorithm.sha2_256 block

      size : length bytes ≡ c.hash_size Algorithm.sha2_256
      size = laws.digest_size Algorithm.sha2_256 block

      hash : CHash
      hash = record { hash_type = Algorithm.sha2_256; bytes = bytes }

      signature : List ℕ
      signature = c.sign_hash private draw bytes

      some_signature : 0 < length signature
      some_signature = laws.sign_nonempty private bytes draw

      verified : c.verify_hash public signature bytes ≡ true
      verified = laws.sign_verifies public private bytes draw pair

      radio : Radio
      radio = record { attribute_handle = some attribute; conn_rssi = measured value }

      token : Option ℕ → List ℕ → ℤ → WhereAmI
      token handle data_block rssi = record {
        private_key = key;
        client_public_key = public;
        random_data_block = data_block;
        notify_handle = handle;
        rssi = rssi;
      }

      answers :
          (handle : Option ℕ)
          → receive_demand c radio (packet block signature hash) (token handle old_block old_rssi)
            ≡ ok (success, true, token (handle_after attribute handle) block value)
      answers none =
          receives c radio block signature hash (token none old_block old_rssi)
            (token (some attribute) old_block old_rssi) refl
          ∙ accepts block signature hash c radio (token (some attribute) old_block old_rssi) value
              size some_signature verified refl
      answers (some handle) =
          receives c radio block signature hash (token (some handle) old_block old_rssi)
            (token (some handle) old_block old_rssi) refl
          ∙ accepts block signature hash c radio (token (some handle) old_block old_rssi) value size
              some_signature verified refl
