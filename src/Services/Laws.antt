-- ===== src/Services/Laws.antt =====
-- What the shared definitions give both ends of the protocol.
use ubiquitous_chainsaw.Base.{
  ℕ, ◌^◌, ◌≤◌, ◌<◌, ◌≡◌, refl, List, length, ltb, if◌then◌else◌, ok, stop, undefined, arith,
  ==_self,
}
use ubiquitous_chainsaw.Security.{Algorithm, Crypto}
use ubiquitous_chainsaw.Security.Hash
use ubiquitous_chainsaw.Security.Hash.{CHash}
use ubiquitous_chainsaw.Services.{
  version_of_byte, sha_to_enum, sha_version_id_of, sha_version_id, make_sha_hash, size_of_hash_type,
  base_uuid, apply_custom_id,
}

-- The byte that stands for an algorithm is read back as that algorithm.
pub version_of_byte-sha_version_id_of :
    (a : Algorithm) → version_of_byte (sha_version_id_of a) ≡ sha_to_enum a
unfolding version_of_byte sha_version_id_of sha_to_enum
version_of_byte-sha_version_id_of Algorithm.sha2_224 = refl
version_of_byte-sha_version_id_of Algorithm.sha2_256 = refl
version_of_byte-sha_version_id_of Algorithm.sha3_224 = refl
version_of_byte-sha_version_id_of Algorithm.sha3_256 = refl
version_of_byte-sha_version_id_of Algorithm.sha3_384 = refl
version_of_byte-sha_version_id_of Algorithm.sha3_512 = refl

-- `sha_version_id` gives back the byte of a version up to `count`; on any other byte it runs into
-- `std::unreachable`.
pub sha_version_id-version_of_byte :
    (b : ℕ) → sha_version_id (version_of_byte b) ≡ (if ltb b 7 then ok b else stop undefined)
unfolding sha_version_id version_of_byte
sha_version_id-version_of_byte b = ground arith

-- `size_of_hash_type` has a size for the bytes below `count` only.
pub size_of_hash_type_unnamed :
    (c : Crypto) (b : ℕ) → 7 ≤ b → size_of_hash_type c (version_of_byte b) ≡ stop undefined
unfolding size_of_hash_type version_of_byte
size_of_hash_type_unnamed c b h = ground arith

pub size_of_hash_type-sha_to_enum :
    (c : Crypto) (a : Algorithm) → size_of_hash_type c (sha_to_enum a) ≡ ok (c.hash_size a)
unfolding size_of_hash_type sha_to_enum
size_of_hash_type-sha_to_enum c Algorithm.sha2_224 = refl
size_of_hash_type-sha_to_enum c Algorithm.sha2_256 = refl
size_of_hash_type-sha_to_enum c Algorithm.sha3_224 = refl
size_of_hash_type-sha_to_enum c Algorithm.sha3_256 = refl
size_of_hash_type-sha_to_enum c Algorithm.sha3_384 = refl
size_of_hash_type-sha_to_enum c Algorithm.sha3_512 = refl

of_range_lem :
    (c : Crypto) (a : Algorithm) (range : List ℕ)
    → length range ≡ c.hash_size a
    → Hash.of_range c a range ≡ ok (record { hash_type = a; bytes = range })
unfolding Hash.of_range
of_range_lem c a range e = rw (e, ==_self (c.hash_size a))

-- A hash of the right length is taken over whole, tagged by its algorithm.
pub make_sha_hash-sha_to_enum :
    (c : Crypto) (a : Algorithm) (range : List ℕ)
    → length range ≡ c.hash_size a
    → make_sha_hash c (sha_to_enum a) range ≡ ok (record { hash_type = a; bytes = range })
unfolding make_sha_hash sha_to_enum
make_sha_hash-sha_to_enum c Algorithm.sha2_224 range e = of_range_lem c Algorithm.sha2_224 range e
make_sha_hash-sha_to_enum c Algorithm.sha2_256 range e = of_range_lem c Algorithm.sha2_256 range e
make_sha_hash-sha_to_enum c Algorithm.sha3_224 range e = of_range_lem c Algorithm.sha3_224 range e
make_sha_hash-sha_to_enum c Algorithm.sha3_256 range e = of_range_lem c Algorithm.sha3_256 range e
make_sha_hash-sha_to_enum c Algorithm.sha3_384 range e = of_range_lem c Algorithm.sha3_384 range e
make_sha_hash-sha_to_enum c Algorithm.sha3_512 range e = of_range_lem c Algorithm.sha3_512 range e

-- Different identifiers give different UUIDs.
pub apply_custom_id_injective :
    (x y : ℕ)
    → x < 2 ^ 16
    → y < 2 ^ 16
    → apply_custom_id base_uuid x ≡ apply_custom_id base_uuid y
    → x ≡ y
unfolding apply_custom_id
apply_custom_id_injective x y p q h = ground arith
