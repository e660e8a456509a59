-- ===== src/WhereAmI/Written.antt =====
-- The bytes of the token's notification.
use ubiquitous_chainsaw.Base.{
  ℕ, ◌+◌, ◌-◌, ◌≤◌, ◌≡◌, refl, sym, List, [], ◌∷◌, ◌++◌, length, length-append, take-append,
  take-length, ok, arith, u8, store, view-append, subspan-append, copy_to-append, append-nil,
}
use ubiquitous_chainsaw.Base.Int.{u8_of_int8}
use ubiquitous_chainsaw.Security.{Algorithm, Crypto}
use ubiquitous_chainsaw.Security.Hash
use ubiquitous_chainsaw.Security.Hash.{CHash}
use ubiquitous_chainsaw.Services.{sha_version_id, sha_to_enum, sha_version_id_of}
use ubiquitous_chainsaw.WhereAmI.Token.{WhereAmI}
use ubiquitous_chainsaw.WhereAmI.Notifier.{
  write_block, write_random_data_block, write_rssi_value, make_hash, write_hash, write_signature,
  resize,
}
use ubiquitous_chainsaw.WhereAmI.Layout.{assert_down_cast_lem, u8_small}

write_block-append :
    (packet pre mid post : List ℕ) (offset : ℕ) (src : List ℕ)
    → packet ≡ pre ++ (mid ++ post)
    → offset ≡ length pre
    → length src ≡ length mid
    → write_block packet offset mid src ≡ ok (pre ++ (src ++ post))
unfolding write_block
write_block-append packet pre mid post offset src parts at of_size =
    rw (sym of_size, take-length src)
      (copy_to-append packet pre mid post offset src parts at of_size)

store-append :
    (pre post : List ℕ) (x y : ℕ) (i : ℕ)
    → i ≡ length pre
    → store (pre ++ (x ∷ post)) i y ≡ ok (pre ++ (y ∷ post))
store-append [] post x y i at = rw (at)
store-append (z ∷ pre) post x y i at = rw (at) (rw (store-append pre post x y (length pre) refl))

module _ (self : WhereAmI) (rest : List ℕ) where
  pub random_written :
      (room : List ℕ)
      → length self.random_data_block ≡ length room
      → length self.random_data_block ≤ 255
      → write_random_data_block self (0 ∷ 0 ∷ 0 ∷ 0 ∷ 0 ∷ 0 ∷ 0 ∷ 0 ∷ 0 ∷ (room ++ rest))
        ≡ ok (
            9
            ∷ length self.random_data_block
            ∷ 0
            ∷ 0
            ∷ 0
            ∷ 0
            ∷ 0
            ∷ 0
            ∷ 0
            ∷ (self.random_data_block ++ rest))
  unfolding write_random_data_block
  random_written room e small =
      rw
        (
          assert_down_cast_lem (length self.random_data_block) small,
          view-append (cells ++ (room ++ rest)) cells room rest 9 (length self.random_data_block)
              refl refl e,
        )
        (write_block-append _ cells room rest 9 self.random_data_block refl refl e)
    where
      cells : List ℕ
      cells = 9 ∷ length self.random_data_block ∷ 0 ∷ 0 ∷ 0 ∷ 0 ∷ 0 ∷ 0 ∷ 0 ∷ []

  pub rssi_written :
      (old : ℕ)
      → 9 + length self.random_data_block ≤ 255
      → write_rssi_value self (
          9
          ∷ length self.random_data_block
          ∷ 0
          ∷ 0
          ∷ 0
          ∷ 0
          ∷ 0
          ∷ 0
          ∷ 0
          ∷ (self.random_data_block ++ (old ∷ rest)))
        ≡ ok (
            9
            ∷ length self.random_data_block
            ∷ (9 + length self.random_data_block)
            ∷ 1
            ∷ 0
            ∷ 0
            ∷ 0
            ∷ 0
            ∷ 0
            ∷ (self.random_data_block ++ (u8_of_int8 self.rssi ∷ rest)))
  unfolding write_rssi_value
  rssi_written old small = rw (u8_small (9 + length self.random_data_block) (omega arith)) (
      store-append
        (9
          ∷ length self.random_data_block
          ∷ (9 + length self.random_data_block)
          ∷ 1
          ∷ 0
          ∷ 0
          ∷ 0
          ∷ 0
          ∷ 0
          ∷ self.random_data_block)
        rest old (u8_of_int8 self.rssi) (9 + length self.random_data_block) (omega arith))

sha_version_id_lem : (a : Algorithm) → sha_version_id (sha_to_enum a) ≡ ok (sha_version_id_of a)
unfolding sha_version_id sha_to_enum sha_version_id_of
sha_version_id_lem Algorithm.sha2_224 = refl
sha_version_id_lem Algorithm.sha2_256 = refl
sha_version_id_lem Algorithm.sha3_224 = refl
sha_version_id_lem Algorithm.sha3_256 = refl
sha_version_id_lem Algorithm.sha3_384 = refl
sha_version_id_lem Algorithm.sha3_512 = refl

next_offset : (r : ℕ) → 10 + r ≤ 255 → u8 (9 + r + 1) ≡ 10 + r
next_offset r h = omega arith

one_more : (r : ℕ) → r ≤ 245 → u8 (r + 1) ≡ r + 1
one_more r h = omega arith

-- The packet while its payload is being written: `r` random bytes and the RSSI come first.
module _ (r : ℕ) (payload : List ℕ) (size : length payload ≡ r + 1) where
  pub hashes :
      (c : Crypto) (rest : List ℕ)
      → r ≤ 245
      → make_hash c (9 ∷ r ∷ (9 + r) ∷ 1 ∷ 0 ∷ 0 ∷ 0 ∷ 0 ∷ 0 ∷ (payload ++ rest))
        ≡ ok (Hash.of_buffer c Algorithm.sha2_256 payload)
  unfolding make_hash
  hashes c rest small = rw (
    one_more r small,
    view-append _ (9 ∷ r ∷ (9 + r) ∷ 1 ∷ 0 ∷ 0 ∷ 0 ∷ 0 ∷ 0 ∷ []) payload rest 9 (r + 1) refl refl
        (sym size),
  )

  pub hash_written :
      (hash : CHash) (room rest : List ℕ)
      → length hash.bytes ≡ length room
      → 10 + r + length hash.bytes ≤ 255
      → write_hash (9 ∷ r ∷ (9 + r) ∷ 1 ∷ 0 ∷ 0 ∷ 0 ∷ 0 ∷ 0 ∷ (payload ++ (room ++ rest))) hash
        ≡ ok (
            9
            ∷ r
            ∷ (9 + r)
            ∷ 1
            ∷ sha_version_id_of hash.hash_type
            ∷ (10 + r)
            ∷ length hash.bytes
            ∷ 0
            ∷ 0
            ∷ (payload ++ (hash.bytes ++ rest)))
  unfolding write_hash
  hash_written hash room rest e small =
      rw
        (
          sha_version_id_lem hash.hash_type,
          next_offset r (omega arith),
          u8_small (length hash.bytes) (omega arith),
          subspan-append (cells ++ (room ++ rest)) cells room rest (10 + r) (length hash.bytes) refl
              (omega (arith, size)) e,
        )
        (write_block-append _ cells room rest (10 + r) hash.bytes refl (omega (arith, size)) e)
    where
      cells : List ℕ
      cells =
          9
          ∷ r
          ∷ (9 + r)
          ∷ 1
          ∷ sha_version_id_of hash.hash_type
          ∷ (10 + r)
          ∷ length hash.bytes
          ∷ 0
          ∷ 0
          ∷ payload

  pub signature_written :
      (version : ℕ) (hash signature room rest : List ℕ)
      → length signature ≡ length room
      → 10 + r + length hash + length signature ≤ 255
      → write_signature
          (9
            ∷ r
            ∷ (9 + r)
            ∷ 1
            ∷ version
            ∷ (10 + r)
            ∷ length hash
            ∷ 0
            ∷ 0
            ∷ ((payload ++ hash) ++ (room ++ rest)))
          signature
        ≡ ok (
            9
            ∷ r
            ∷ (9 + r)
            ∷ 1
            ∷ version
            ∷ (10 + r)
            ∷ length hash
            ∷ (10 + r + length hash)
            ∷ length signature
            ∷ ((payload ++ hash) ++ (signature ++ rest)))
  unfolding write_signature
  signature_written version hash signature room rest e small =
      rw
        (
          u8_small (10 + r + length hash) (omega arith),
          u8_small (length signature) (omega arith),
          view-append (cells ++ (room ++ rest)) cells room rest (10 + r + length hash)
              (length signature) refl (omega (arith, size, length-append payload hash)) e,
        )
        (write_block-append _ cells room rest (10 + r + length hash) signature refl
          (omega (arith, size, length-append payload hash)) e)
    where
      cells : List ℕ
      cells =
          9
          ∷ r
          ∷ (9 + r)
          ∷ 1
          ∷ version
          ∷ (10 + r)
          ∷ length hash
          ∷ (10 + r + length hash)
          ∷ length signature
          ∷ (payload ++ hash)

-- Cutting a buffer behind its first part.
pub resize-append : (front rest : List ℕ) → resize (front ++ rest) (length front) ≡ front
unfolding resize
resize-append front rest = rw (take-append front rest, none_missing) (append-nil front)
  where
    none_missing : length front - length (front ++ rest) ≡ 0
    none_missing = omega (arith, length-append front rest)
