-- ===== src/WhereAmI/Layout.antt =====
-- The bytes of a demand.
use ubiquitous_chainsaw.Base.{
  ℕ, suc, ◌+◌, ◌≤◌, ◌<◌, ◌≡◌, refl, sym, ap, ◌∙◌, List, [], ◌∷◌, ◌++◌, length, replicate,
  length-append, length-replicate, replicate-add, lt→ltb, ==_self, ok, arith, u8, subspan-append,
  copy_to-append, append-nil, append_assoc,
}
use ubiquitous_chainsaw.Security.Hash.{CHash}
use ubiquitous_chainsaw.Services.{sha_version_id_of}
use ubiquitous_chainsaw.WhoAmI.Token.{assert_down_cast}
use ubiquitous_chainsaw.WhereAmI.Demand.{
  insert_data, insert_random_data_block, insert_hash, insert_signature, fill_packet,
}

-- The seven header bytes of a demand with its three parts behind them.
abbrev pub layout : ℕ → ℕ → ℕ → ℕ → List ℕ → List ℕ
layout version r h s payload = 7 ∷ r ∷ version ∷ (7 + r) ∷ h ∷ (7 + r + h) ∷ s ∷ payload

pub assert_down_cast_lem : (n : ℕ) → n ≤ 255 → assert_down_cast n ≡ ok n
unfolding assert_down_cast
assert_down_cast_lem n h = ground arith

insert_data-append :
    (packet pre mid post : List ℕ) (offset : ℕ) (src : List ℕ)
    → packet ≡ pre ++ (mid ++ post)
    → offset ≡ length pre
    → length src ≡ length mid
    → insert_data packet offset (length src) src ≡ ok (pre ++ (src ++ post))
unfolding insert_data
insert_data-append packet pre mid post offset src parts at_offset of_size =
    rw
      (
        subspan-append packet pre mid post offset (length src) parts at_offset of_size,
        of_size,
        ==_self (length mid),
      )
      (copy_to-append packet pre mid post offset src parts at_offset of_size)

insert_random_lem :
    (v : ℕ) (block room rest : List ℕ)
    → length block ≡ length room
    → length block ≤ 255
    → insert_random_data_block (0 ∷ 0 ∷ v ∷ 0 ∷ 0 ∷ 0 ∷ 0 ∷ (room ++ rest)) block
      ≡ ok (7 ∷ length block ∷ v ∷ 0 ∷ 0 ∷ 0 ∷ 0 ∷ (block ++ rest))
unfolding insert_random_data_block
insert_random_lem v block room rest e small =
    rw (assert_down_cast_lem (length block) small) (
      insert_data-append _ (7 ∷ length block ∷ v ∷ 0 ∷ 0 ∷ 0 ∷ 0 ∷ []) room rest 7 block refl refl
        e)

pub u8_small : (n : ℕ) → n < 256 → u8 n ≡ n
u8_small n h = omega arith

insert_hash_lem :
    (v : ℕ) (block room rest : List ℕ) (hash : CHash)
    → length hash.bytes ≡ length room
    → 7 + length block + length hash.bytes ≤ 255
    → insert_hash (7 ∷ length block ∷ v ∷ 0 ∷ 0 ∷ 0 ∷ 0 ∷ (block ++ (room ++ rest))) hash
      ≡ ok (
          7
          ∷ length block
          ∷ v
          ∷ (7 + length block)
          ∷ length hash.bytes
          ∷ 0
          ∷ 0
          ∷ (block ++ (hash.bytes ++ rest)))
unfolding insert_hash
insert_hash_lem v block room rest hash e small =
    rw
      (
        u8_small (7 + length block) (omega arith),
        assert_down_cast_lem (length hash.bytes) (omega arith),
      )
      (insert_data-append _
        (7 ∷ length block ∷ v ∷ (7 + length block) ∷ length hash.bytes ∷ 0 ∷ 0 ∷ block) room rest
        (7 + length block) hash.bytes refl (omega arith) e)

insert_signature_lem :
    (v : ℕ) (block room signature : List ℕ) (hash : CHash)
    → length signature ≡ length room
    → 7 + length block + length hash.bytes + length signature ≤ 255
    → insert_signature
        (7
          ∷ length block
          ∷ v
          ∷ (7 + length block)
          ∷ length hash.bytes
          ∷ 0
          ∷ 0
          ∷ (block ++ (hash.bytes ++ room)))
        signature
      ≡ ok (
          layout v
            (length block)
            (length hash.bytes)
            (length signature)
            (block ++ (hash.bytes ++ signature)))
unfolding insert_signature
insert_signature_lem v block room signature hash e small =
    rw
      (
        u8_small (7 + length block + length hash.bytes) (omega arith),
        assert_down_cast_lem (length signature) (omega arith),
      )
      (insert_data-append _
          (7
            ∷ length block
            ∷ v
            ∷ (7 + length block)
            ∷ length hash.bytes
            ∷ (7 + length block + length hash.bytes)
            ∷ length signature
            ∷ (block ++ hash.bytes))
          room [] (7 + length block + length hash.bytes) signature
          (rw (append-nil room, append_assoc block hash.bytes room))
          (omega (arith, length-append block hash.bytes)) e
        ∙ rw (append-nil signature, append_assoc block hash.bytes signature))

zeros :
    (r h s : ℕ)
    → replicate {A = ℕ} (7 + r + h + s) 0
      ≡ 0 ∷ 0 ∷ 0 ∷ 0 ∷ 0 ∷ 0 ∷ 0 ∷ (replicate r 0 ++ (replicate h 0 ++ replicate s 0))
zeros r h s =
    ap (λ k. replicate k 0) seven
    ∙ ap (λ t. 0 ∷ 0 ∷ 0 ∷ 0 ∷ 0 ∷ 0 ∷ 0 ∷ t)
        (replicate-add r (h + s) 0 ∙ ap (λ t. replicate r 0 ++ t) (replicate-add h s 0))
  where
    seven : 7 + r + h + s ≡ suc (suc (suc (suc (suc (suc (suc (r + (h + s))))))))
    seven = omega arith

-- `fill_packet` puts the header, the block, its hash and the signature one behind another.
pub fill_packet_lem :
    (block signature : List ℕ) (hash : CHash)
    → 7 + length block + length hash.bytes + length signature < 216
    → fill_packet block hash signature
      ≡ ok (
          layout
            (sha_version_id_of hash.hash_type)
            (length block)
            (length hash.bytes)
            (length signature)
            (block ++ (hash.bytes ++ signature)))
unfolding fill_packet
fill_packet_lem block signature hash small =
    rw
      (
        lt→ltb (7 + length block + length hash.bytes + length signature) 216 small,
        zeros (length block) (length hash.bytes) (length signature),
        insert_random_lem version block (replicate (length block) 0)
            (replicate (length hash.bytes) 0 ++ replicate (length signature) 0)
            (sym (length-replicate (length block) 0)) (omega arith),
        insert_hash_lem version block (replicate (length hash.bytes) 0)
            (replicate (length signature) 0) hash (sym (length-replicate (length hash.bytes) 0))
            (omega arith),
      )
      (insert_signature_lem version block (replicate (length signature) 0) signature hash
        (sym (length-replicate (length signature) 0)) (omega arith))
  where
    version : ℕ
    version = sha_version_id_of hash.hash_type
