-- ===== src/Security/Interface.antt =====
-- wolfCrypt is not part of the repository. `Crypto` holds the calls that sha.hpp and ecc_key.hpp make
-- of it; `CryptoLaws` the documented behaviour that the protocols rely on. A key is its DER bytes.
use ubiquitous_chainsaw.Base.{ℕ, ◌≡◌, ◌≤◌, ◌<◌, Bool, true, List, length, AllBytes}

-- The structs `Sha2_224` to `Sha3_512` of sha.hpp that `ble::ShaHash` ranges over.
pub data Algorithm : Type 0 where
  sha2_224 sha2_256 sha3_224 sha3_256 sha3_384 sha3_512 : Algorithm

pub record Crypto : Type 0 where
  -- `WC_SHA…_DIGEST_SIZE`
  pub hash_size : Algorithm → ℕ
  -- `wc_Sha…Hash`
  pub digest : Algorithm → List ℕ → List ℕ
  -- `wc_ecc_sign_hash`: private key, what is drawn from the random number generator, hash
  pub sign_hash : List ℕ → ℕ → List ℕ → List ℕ
  -- `wc_ecc_verify_hash`: public key, signature, hash
  pub verify_hash : List ℕ → List ℕ → List ℕ → Bool

-- `IsPair` relates a public key to its private key.
pub record CryptoLaws (c : Crypto) (IsPair : List ℕ → List ℕ → Type 0) : Type 0 where
  pub hash_size_pos : (a : Algorithm) → 0 < c.hash_size a
  pub digest_size : (a : Algorithm) (m : List ℕ) → length (c.digest a m) ≡ c.hash_size a
  pub digest_bytes : (a : Algorithm) (m : List ℕ) → AllBytes (c.digest a m)
  pub sign_verifies :
      (public private h : List ℕ) (draw : ℕ)
      → IsPair public private
      → c.verify_hash public (c.sign_hash private draw h) h ≡ true
  pub sign_nonempty : (private h : List ℕ) (draw : ℕ) → 0 < length (c.sign_hash private draw h)
  -- A DER signature of a 256 bit curve has at most 72 bytes.
  pub sign_size : (private h : List ℕ) (draw : ℕ) → length (c.sign_hash private draw h) ≤ 72
