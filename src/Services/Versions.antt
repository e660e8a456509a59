-- ===== src/Services/Versions.antt =====
-- `ShaVersion` and the functions that switch on it.
use ubiquitous_chainsaw.Base.{ℕ, List, ◌==◌, if◌then◌else◌, Outcome, ok, stop, assertion, undefined}
use ubiquitous_chainsaw.Security.{Algorithm, Crypto}
use ubiquitous_chainsaw.Security.Hash
use ubiquitous_chainsaw.Security.Hash.{CHash}

-- An enumeration over `uint8_t`: `unnamed` is a byte from 7 on, cast without a check.
pub data ShaVersion : Type 0 where
  sha2_224 sha2_256 sha3_224 sha3_256 sha3_384 sha3_512 count : ShaVersion
  unnamed : ℕ → ShaVersion

-- `ShaVersion{ byte }`
unfoldable pub version_of_byte : ℕ → ShaVersion
version_of_byte b =
    if b == 0
    then sha2_224
    else if b == 1
    then sha2_256
    else if b == 2
    then sha3_224
    else if b == 3
    then sha3_256
    else if b == 4
    then sha3_384
    else if b == 5
    then sha3_512
    else if b == 6
    then count
    else unnamed b

-- `std::to_underlying`
unfoldable pub to_underlying : ShaVersion → ℕ
to_underlying sha2_224 = 0
to_underlying sha2_256 = 1
to_underlying sha3_224 = 2
to_underlying sha3_256 = 3
to_underlying sha3_384 = 4
to_underlying sha3_512 = 5
to_underlying count = 6
to_underlying (unnamed b) = b

-- `sha_to_enum<sha_t>`
unfoldable pub sha_to_enum : Algorithm → ShaVersion
sha_to_enum Algorithm.sha2_224 = sha2_224
sha_to_enum Algorithm.sha2_256 = sha2_256
sha_to_enum Algorithm.sha3_224 = sha3_224
sha_to_enum Algorithm.sha3_256 = sha3_256
sha_to_enum Algorithm.sha3_384 = sha3_384
sha_to_enum Algorithm.sha3_512 = sha3_512

-- `sha_version_id<sha_t>`
unfoldable pub sha_version_id_of : Algorithm → ℕ
unfolding to_underlying
sha_version_id_of Algorithm.sha2_224 = to_underlying sha2_224
sha_version_id_of Algorithm.sha2_256 = to_underlying sha2_256
sha_version_id_of Algorithm.sha3_224 = to_underlying sha3_224
sha_version_id_of Algorithm.sha3_256 = to_underlying sha3_256
sha_version_id_of Algorithm.sha3_384 = to_underlying sha3_384
sha_version_id_of Algorithm.sha3_512 = to_underlying sha3_512

-- `sha_version_id`: a value with no case falls through to `std::unreachable`.
unfoldable pub sha_version_id : ShaVersion → Outcome ℕ
unfolding to_underlying
sha_version_id sha2_224 = ok (to_underlying sha2_224)
sha_version_id sha2_256 = ok (to_underlying sha2_256)
sha_version_id sha3_224 = ok (to_underlying sha3_224)
sha_version_id sha3_256 = ok (to_underlying sha3_256)
sha_version_id sha3_384 = ok (to_underlying sha3_384)
sha_version_id sha3_512 = ok (to_underlying sha3_512)
sha_version_id count = ok (to_underlying count)
sha_version_id (unnamed b) = stop undefined

-- `make_sha_hash`
unfoldable pub make_sha_hash : Crypto → ShaVersion → List ℕ → Outcome CHash
unfolding Hash.of_range
make_sha_hash c sha2_224 range = Hash.of_range c Algorithm.sha2_224 range
make_sha_hash c sha2_256 range = Hash.of_range c Algorithm.sha2_256 range
make_sha_hash c sha3_224 range = Hash.of_range c Algorithm.sha3_224 range
make_sha_hash c sha3_256 range = Hash.of_range c Algorithm.sha3_256 range
make_sha_hash c sha3_384 range = Hash.of_range c Algorithm.sha3_384 range
make_sha_hash c sha3_512 range = Hash.of_range c Algorithm.sha3_512 range
make_sha_hash c count range = stop assertion
make_sha_hash c (unnamed b) range = stop undefined

-- `size_of_hash_type`
unfoldable pub size_of_hash_type : Crypto → ShaVersion → Outcome ℕ
size_of_hash_type c sha2_224 = ok (c.hash_size Algorithm.sha2_224)
size_of_hash_type c sha2_256 = ok (c.hash_size Algorithm.sha2_256)
size_of_hash_type c sha3_224 = ok (c.hash_size Algorithm.sha3_224)
size_of_hash_type c sha3_256 = ok (c.hash_size Algorithm.sha3_256)
size_of_hash_type c sha3_384 = ok (c.hash_size Algorithm.sha3_384)
size_of_hash_type c sha3_512 = ok (c.hash_size Algorithm.sha3_512)
size_of_hash_type c count = stop assertion
size_of_hash_type c (unnamed b) = stop undefined
