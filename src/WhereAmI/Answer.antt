-- ===== src/WhereAmI/Answer.antt =====
-- The client takes the notification that the token makes.
use ubiquitous_chainsaw.Base.{
  ℕ, suc, ◌+◌, ◌-◌, ◌≤◌, ◌<◌, ◌≡◌, sym, ap, ◌∙◌, true, List, [], ◌∷◌, ◌++◌, length, replicate,
  length-append, length-replicate, replicate-add, append_assoc, ok, arith,
}
use ubiquitous_chainsaw.Base.Int.{IsInt8, u8_of_int8, int8_of_u8-u8_of_int8}
use ubiquitous_chainsaw.Security.{Algorithm, Crypto, CryptoLaws}
use ubiquitous_chainsaw.Security.Hash
use ubiquitous_chainsaw.Security.Hash.{CHash}
use ubiquitous_chainsaw.Security.Keys
use ubiquitous_chainsaw.Services.{sha_version_id_of}
use ubiquitous_chainsaw.Nimble.{NimbleErrorCode}
use ubiquitous_chainsaw.Replay.Protector.{ReplayProtector, expected_random_data}
use ubiquitous_chainsaw.WhereAmI.Token.{WhereAmI}
use ubiquitous_chainsaw.WhereAmI.Receiver.{RssiDemander, receive}
use ubiquitous_chainsaw.WhereAmI.Notifier.{
  packet_size_rssi_notification, resize, make_notification, callback_rssi_notification,
}
use ubiquitous_chainsaw.WhereAmI.Notification.{notification, packet, any_rssi_is_accepted}
use ubiquitous_chainsaw.WhereAmI.Written.{
  random_written, rssi_written, hashes, hash_written, signature_written, resize-append,
}

-- The buffer of 256 bytes, cut where the parts will stand.
zeros :
    (r h s : ℕ)
    → 10 + r + h + s ≤ 255
    → replicate {A = ℕ} 256 0
      ≡ 0
        ∷ 0
        ∷ 0
        ∷ 0
        ∷ 0
        ∷ 0
        ∷ 0
        ∷ 0
        ∷ 0
        ∷ (replicate r 0
            ++ (0 ∷ (replicate h 0 ++ (replicate s 0 ++ replicate (246 - r - h - s) 0))))
zeros r h s small =
    ap (λ k. replicate {A = ℕ} k 0) nine ∙ ap (λ t. 0 ∷ 0 ∷ 0 ∷ 0 ∷ 0 ∷ 0 ∷ 0 ∷ 0 ∷ 0 ∷ t) parts
  where
    left : ℕ
    left = 246 - r - h - s

    parts :
        replicate {A = ℕ} (r + suc (h + (s + left))) 0
        ≡ replicate r 0 ++ (0 ∷ (replicate h 0 ++ (replicate s 0 ++ replicate left 0)))
    parts =
        replicate-add r (suc (h + (s + left))) 0
        ∙ ap (λ t. replicate r 0 ++ (0 ∷ t))
            (replicate-add h (s + left) 0 ∙ ap (λ t. replicate h 0 ++ t) (replicate-add s left 0))

    nine : 256 ≡ suc (suc (suc (suc (suc (suc (suc (suc (suc (r + suc (h + (s + left)))))))))))
    nine = omega arith

module _ (c : Crypto) (draw : ℕ) (self : WhereAmI) where
  abbrev payload : List ℕ
  payload = self.random_data_block ++ (u8_of_int8 self.rssi ∷ [])

  abbrev pub hash : CHash
  hash = record { hash_type = Algorithm.sha2_256; bytes = c.digest Algorithm.sha2_256 payload }

  abbrev pub signature : List ℕ
  signature = c.sign_hash self.private_key draw hash.bytes

  abbrev pub sent : List ℕ
  sent = packet self.random_data_block (u8_of_int8 self.rssi) hash signature

  makes :
      0 < length hash.bytes
      → 10 + length self.random_data_block + length hash.bytes + length signature ≤ 255
      → make_notification c draw self ≡ ok sent
  unfolding make_notification packet_size_rssi_notification Hash.of_buffer
  makes some_bytes small =
      rw
        (
          zeros r h s small,
          random_written self (0 ∷ (replicate h 0 ++ (replicate s 0 ++ left))) (replicate r 0)
              (sym (length-replicate r 0)) (omega arith),
          rssi_written self (replicate h 0 ++ (replicate s 0 ++ left)) 0 (omega arith),
          sym (
              append_assoc self.random_data_block (u8_of_int8 self.rssi ∷ [])
                (replicate h 0 ++ (replicate s 0 ++ left))),
          hashes r payload payload_size c (replicate h 0 ++ (replicate s 0 ++ left)) (omega arith),
          Keys.sign_hash_lem c self.private_key draw hash.bytes some_bytes,
          hash_written r payload payload_size hash (replicate h 0) (replicate s 0 ++ left)
              (sym (length-replicate h 0)) (omega arith),
          sym (append_assoc payload hash.bytes (replicate s 0 ++ left)),
          signature_written r payload payload_size (sha_version_id_of Algorithm.sha2_256) hash.bytes
              signature (replicate s 0) left (sym (length-replicate s 0)) small,
        )
        (ap ok cut)
    where
      r : ℕ
      r = length self.random_data_block

      h : ℕ
      h = length hash.bytes

      s : ℕ
      s = length signature

      left : List ℕ
      left = replicate (246 - r - h - s) 0

      payload_size : length payload ≡ r + 1
      payload_size = length-append self.random_data_block (u8_of_int8 self.rssi ∷ [])

      front : List ℕ
      front =
          notification self.random_data_block (u8_of_int8 self.rssi) hash signature
            ((payload ++ hash.bytes) ++ signature)

      parts_size : length ((payload ++ hash.bytes) ++ signature) ≡ r + 1 + h + s
      parts_size = omega (
        arith,
        payload_size,
        length-append (payload ++ hash.bytes) signature,
        length-append payload hash.bytes,
      )

      total : h + r + (1 + s) + 9 ≡ length front
      total = omega (arith, parts_size)

      whole : front ≡ sent
      whole = rw (
        append_assoc payload hash.bytes signature,
        append_assoc self.random_data_block (u8_of_int8 self.rssi ∷ []) (hash.bytes ++ signature),
      )

      cut :
          resize
            (notification self.random_data_block
              (u8_of_int8 self.rssi)
              hash
              signature
              ((payload ++ hash.bytes) ++ (signature ++ left)))
            (h + r + (1 + s) + 9)
          ≡ sent
      cut =
          ap
            (λ t.
              resize (notification self.random_data_block (u8_of_int8 self.rssi) hash signature t)
                (h + r + (1 + s) + 9))
            (sym (append_assoc (payload ++ hash.bytes) signature left))
          ∙ ap (resize (front ++ left)) total
          ∙ resize-append front left
          ∙ whole

module _ (c : Crypto) {IsPair : List ℕ → List ℕ → Type 0} (laws : CryptoLaws c IsPair)
    (public private : List ℕ) (pair : IsPair public private)
    (short : c.hash_size Algorithm.sha2_256 ≤ 32) where
  -- Where wolfCrypt keeps its laws and a hash has at most 32 bytes: the token's notification of the RSSI that it measured for a block of up to 96 bytes is made, and a
  -- client that holds the token's public key and expects that block adds this RSSI to its queue.
  pub notification_is_accepted :
      (draw now : ℕ) (append : List ℕ → NimbleErrorCode) (self : WhereAmI) (client : RssiDemander)
      (protector : ReplayProtector)
      → self.private_key ≡ private
      → client.server_key ≡ public
      → length self.random_data_block ≤ 96
      → IsInt8 self.rssi
      → expected_random_data now self.random_data_block client.protector ≡ ok (true, protector)
      → (callback_rssi_notification c draw append self
          ≡ ok (append (sent c draw self), sent c draw self))
        × (receive c now (sent c draw self) client
            ≡ ok (record {
              queue = client.queue ++ (self.rssi ∷ []);
              server_key = client.server_key;
              protector = protector;
            }))
  unfolding callback_rssi_notification
  notification_is_accepted draw now append self client protector own key small value expected = (
    rw (makes c draw self some_bytes fits),
    any_rssi_is_accepted self.random_data_block (u8_of_int8 self.rssi) (hash c draw self)
          (signature c draw self) c client size some_signature verified now protector expected
        ∙ rw (int8_of_u8-u8_of_int8 self.rssi value),
  )
    where
      bytes : List ℕ
      bytes = (hash c draw self).bytes

      size : length bytes ≡ c.hash_size Algorithm.sha2_256
      size = laws.digest_size Algorithm.sha2_256 _

      some_bytes : 0 < length bytes
      some_bytes = omega (arith, size, laws.hash_size_pos Algorithm.sha2_256)

      some_signature : 0 < length (signature c draw self)
      some_signature = laws.sign_nonempty self.private_key bytes draw

      fits :
          10 + length self.random_data_block + length bytes + length (signature c draw self) ≤ 255
      fits = omega (arith, size, laws.sign_size self.private_key bytes draw)

      verified : c.verify_hash client.server_key (signature c draw self) bytes ≡ true
      verified = rw (key, own) (laws.sign_verifies public private bytes draw pair)
