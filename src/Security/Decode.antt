-- ===== src/Security/Decode.antt =====
-- The constructor of a key in shared/security/ecc_key.hpp. A key is its DER bytes; whether wolfCrypt
-- decodes some bytes as a key is a parameter.
use ubiquitous_chainsaw.Base.{
  ℕ, ◌<◌, ◌≡◌, Bool, true, false, not, List, [], ◌∷◌, length, Outcome, ok, assert, ◌>>◌, arith,
}

-- `wc_EccPublicKeyDecode` and `wc_EccPrivateKeyDecode`: whether they succeed.
pub record Decoders : Type 0 where
  pub public_key : List ℕ → Bool
  pub private_key : List ℕ → Bool

abbrev pub is_empty : List ℕ → Bool
is_empty [] = true
is_empty (b ∷ rest) = false

-- The constructor of `IEccKey`.
unfoldable pub make_key : (List ℕ → Bool) → List ℕ → Outcome (List ℕ)
make_key decodes der = do assert (not (is_empty der)); assert (decodes der); ok der

-- Bytes of which a key can be made.
pub record IsKey (decodes : List ℕ → Bool) (key : List ℕ) : Type 0 where
  pub some_bytes : 0 < length key
  pub decoded : decodes key ≡ true

pub make_key_lem :
    (decodes : List ℕ → Bool) (key : List ℕ)
    → 0 < length key
    → decodes key ≡ true
    → make_key decodes key ≡ ok key
unfolding make_key
make_key_lem decodes [] some_bytes decoded = absurd (omega (arith, some_bytes))
make_key_lem decodes (b ∷ rest) some_bytes decoded = rw (decoded)
