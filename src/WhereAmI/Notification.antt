-- ===== src/WhereAmI/Notification.antt =====
-- What the client does with a notification that carries a block it has sent.
use ubiquitous_chainsaw.Base.{
  ℕ, ◌+◌, ◌<◌, ◌≡◌, refl, true, List, [], ◌∷◌, ◌++◌, length, length-append, append-nil,
  append_assoc, ok, stop, undefined, ◌≢◌, ◌⊎◌, inl, inr, arith, load, view-append,
}
use ubiquitous_chainsaw.Base.Int.{int8_of_u8}
use ubiquitous_chainsaw.Security.{Crypto}
use ubiquitous_chainsaw.Security.Hash.{CHash}
use ubiquitous_chainsaw.Security.Keys
use ubiquitous_chainsaw.Services.{sha_version_id_of, sha_to_enum}
use ubiquitous_chainsaw.Services.Laws.{version_of_byte-sha_version_id_of, make_sha_hash-sha_to_enum}
use ubiquitous_chainsaw.Replay.Protector.{
  ReplayProtector, make_replay_protector, expected_random_data,
}
use ubiquitous_chainsaw.Replay.Closed.{Steps}
use ubiquitous_chainsaw.Replay.Once.{accepted_once, IsRefused}
use ubiquitous_chainsaw.WhereAmI.Receiver.{
  RssiDemander, view_random_data_block, view_hash, view_signature, extract_sha_version,
  extract_rssi_value, check_notification, receive_expected, receive_valid, receive,
}
use ubiquitous_chainsaw.WhereAmI.Exchange.{valid_version}

-- The nine header bytes of a notification with its four parts behind them.
abbrev pub notification : List ℕ → ℕ → CHash → List ℕ → List ℕ → List ℕ
notification block byte hash signature payload =
    9
    ∷ length block
    ∷ (9 + length block)
    ∷ 1
    ∷ sha_version_id_of hash.hash_type
    ∷ (10 + length block)
    ∷ length hash.bytes
    ∷ (10 + length block + length hash.bytes)
    ∷ length signature
    ∷ payload

pub load-append :
    (packet pre post : List ℕ) (x i : ℕ)
    → packet ≡ pre ++ (x ∷ post)
    → i ≡ length pre
    → load packet i ≡ ok x
load-append packet [] post x i parts at = rw (parts, at)
load-append packet (y ∷ pre) post x i parts at =
    rw (parts, at) (load-append (pre ++ (x ∷ post)) pre post x (length pre) refl refl)

module _ (block : List ℕ) (byte : ℕ) (hash : CHash) (signature : List ℕ) where
  abbrev pub packet : List ℕ
  packet = notification block byte hash signature (block ++ (byte ∷ (hash.bytes ++ signature)))

  abbrev cells : List ℕ
  cells = notification block byte hash signature []

  views_block : view_random_data_block packet ≡ ok block
  unfolding view_random_data_block
  views_block =
      view-append packet cells block (byte ∷ (hash.bytes ++ signature)) 9 (length block) refl refl
        refl

  views_hash : view_hash packet ≡ ok hash.bytes
  unfolding view_hash
  views_hash =
      view-append packet (cells ++ (block ++ (byte ∷ []))) hash.bytes signature (10 + length block)
        (length hash.bytes) (rw (append_assoc block (byte ∷ []) (hash.bytes ++ signature)))
        (omega (arith, length-append block (byte ∷ []))) refl

  views_signature : view_signature packet ≡ ok signature
  unfolding view_signature
  views_signature =
      view-append packet (cells ++ (block ++ (byte ∷ hash.bytes))) signature []
        (10 + length block + length hash.bytes) (length signature)
        (rw (append-nil signature, append_assoc block (byte ∷ hash.bytes) signature))
        (omega (arith, length-append block (byte ∷ hash.bytes))) refl

  extracts_rssi : extract_rssi_value packet ≡ ok (int8_of_u8 byte)
  unfolding extract_rssi_value
  extracts_rssi = rw (
      load-append packet (cells ++ block) (hash.bytes ++ signature) byte (9 + length block) refl
        (omega arith))

  module _ (c : Crypto) (self : RssiDemander)
      (size : length hash.bytes ≡ c.hash_size hash.hash_type) (some_bytes : 0 < length signature)
      (verified : c.verify_hash self.server_key signature hash.bytes ≡ true) where
    checks :
        (protector : ReplayProtector)
        → check_notification c packet
            (sha_to_enum hash.hash_type)
            (record self { protector = protector })
          ≡ ok (record {
            queue = self.queue ++ (int8_of_u8 byte ∷ []);
            server_key = self.server_key;
            protector = protector;
          })
    unfolding check_notification
    checks protector = rw (
      views_hash,
      make_sha_hash-sha_to_enum c hash.hash_type hash.bytes size,
      views_signature,
      Keys.verify_hash_lem c self.server_key signature hash.bytes some_bytes,
      verified,
      extracts_rssi,
    )

    -- A notification whose hash has its algorithm's size, whose block of random data is expected and
    -- whose signature fits the hash that it carries is accepted, whatever its RSSI byte says: the hash is not compared with the block and
    -- the RSSI that it should be of.
    pub any_rssi_is_accepted :
        (now : ℕ) (protector : ReplayProtector)
        → expected_random_data now block self.protector ≡ ok (true, protector)
        → receive c now packet self
          ≡ ok (record {
            queue = self.queue ++ (int8_of_u8 byte ∷ []);
            server_key = self.server_key;
            protector = protector;
          })
    unfolding receive extract_sha_version receive_valid receive_expected
    any_rssi_is_accepted now protector expected = rw (
      version_of_byte-sha_version_id_of hash.hash_type,
      valid_version hash.hash_type,
      views_block,
      expected,
      checks protector,
    )

  -- The call returns with the queue as it was, or is undefined.
  abbrev pub LeavesQueue : Crypto → ℕ → RssiDemander → Type 0
  LeavesQueue c later self =
      (receive c later packet self ≡ stop undefined)
      ⊎ ((self' : RssiDemander) × (receive c later packet self ≡ ok self')
          × (self'.queue ≡ self.queue))

  -- A block that is refused adds nothing to the queue.
  unexpected :
      (c : Crypto) (later : ℕ) (self : RssiDemander)
      → IsRefused later block self.protector
      → LeavesQueue c later self
  unfolding receive extract_sha_version receive_valid receive_expected
  unexpected c later self (inl e) = inl (
      rw (
        version_of_byte-sha_version_id_of hash.hash_type,
        valid_version hash.hash_type,
        views_block,
        e,
      ))
  unexpected c later self (inr (protector, e)) = inr (
    record self { protector = protector },
    rw (
      version_of_byte-sha_version_id_of hash.hash_type,
      valid_version hash.hash_type,
      views_block,
      e,
    ),
    refl,
  )

  -- A notification as above that comes in while its block is expected, by a protector reached from a new
  -- one, is accepted; received again, after any calls of the protector that returned and did not draw
  -- the block again and whatever else of the client has changed, it leaves the queue as it is, or the
  -- call is undefined.
  pub replay_adds_nothing :
      (c : Crypto) (self late : RssiDemander) (duration now later : ℕ) (protector : ReplayProtector)
      → length hash.bytes ≡ c.hash_size hash.hash_type
      → 0 < length signature
      → c.verify_hash self.server_key signature hash.bytes ≡ true
      → Steps (λ k. Unit {0}) (make_replay_protector duration) self.protector
      → expected_random_data now block self.protector ≡ ok (true, protector)
      → Steps (λ k. k ≢ block) protector late.protector
      → ((self' : RssiDemander) × (receive c now packet self ≡ ok self')
          × (self'.queue ≡ self.queue ++ (int8_of_u8 byte ∷ []))
          × (self'.protector ≡ protector))
        × LeavesQueue c later late
  replay_adds_nothing c self late duration now later protector size some_bytes verified steps
        expected after =
      (
        (
          record {
            queue = self.queue ++ (int8_of_u8 byte ∷ []);
            server_key = self.server_key;
            protector = protector;
          },
          any_rssi_is_accepted c self size some_bytes verified now protector expected,
          refl,
          refl,
        ),
        unexpected c later late (accepted_once duration now later block steps expected after),
      )
