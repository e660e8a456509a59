-- ===== src/Security/Keys.antt =====
-- ecc_key.hpp: signing and verifying with the `ASSERT`s of the source around the calls of wolfCrypt.
use ubiquitous_chainsaw.Base.{
  ℕ, ◌<◌, ◌≡◌, Bool, List, length, ltb, lt→ltb, Outcome, ok, ◌>>◌, assert,
}
use ubiquitous_chainsaw.Security.Interface.{Crypto}

-- `CEccPrivateKey::sign_hash`
unfoldable pub sign_hash : Crypto → List ℕ → ℕ → List ℕ → Outcome (List ℕ)
sign_hash c private draw hash = assert (ltb 0 (length hash)) >> ok (c.sign_hash private draw hash)

-- `CEccPublicKey::verify_hash`
unfoldable pub verify_hash : Crypto → List ℕ → List ℕ → List ℕ → Outcome Bool
verify_hash c public source hash =
    assert (ltb 0 (length source)) >> ok (c.verify_hash public source hash)

pub sign_hash_lem :
    (c : Crypto) (private : List ℕ) (draw : ℕ) (hash : List ℕ)
    → 0 < length hash
    → sign_hash c private draw hash ≡ ok (c.sign_hash private draw hash)
unfolding sign_hash
sign_hash_lem c private draw hash h = rw (lt→ltb 0 (length hash) h)

pub verify_hash_lem :
    (c : Crypto) (public source hash : List ℕ)
    → 0 < length source
    → verify_hash c public source hash ≡ ok (c.verify_hash public source hash)
unfolding verify_hash
verify_hash_lem c public source hash h = rw (lt→ltb 0 (length source) h)
