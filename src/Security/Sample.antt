-- ===== src/Security/Sample.antt =====
-- A small instance of the interface to wolfCrypt, for the tests of the protocols.
use ubiquitous_chainsaw.Base.{ℕ, ◌≤◌, ◌<◌, ◌≡◌, refl, true, List, [], ◌∷◌, length, u8, arith}
use ubiquitous_chainsaw.Security.Interface.{Crypto, CryptoLaws}
use ubiquitous_chainsaw.Security.Hash.{same_bytes}
use ubiquitous_chainsaw.Security.Hash.Laws.{same_bytes_self}

-- Digests of two bytes; a signature is the first byte of the key and the first two of the hash.
unfoldable pub tag : List ℕ → List ℕ
tag [] = 1 ∷ []
tag (x ∷ xs) = x ∷ []

unfoldable pub head_and_tag : List ℕ → List ℕ → List ℕ
unfolding tag
head_and_tag key [] = tag key
head_and_tag key (x ∷ xs) = x ∷ tag key

abbrev pub sample : Crypto
sample = record {
  hash_size = λ a. 2;
  digest = λ a m. u8 (length m) ∷ 7 ∷ [];
  sign_hash = λ private draw h. head_and_tag private h;
  verify_hash = λ public signature h. same_bytes signature (head_and_tag public h);
}

head_and_tag_size :
    (key h : List ℕ) → (0 < length (head_and_tag key h)) × (length (head_and_tag key h) ≤ 72)
unfolding head_and_tag
head_and_tag_size [] [] = (ground arith, ground arith)
head_and_tag_size [] (x ∷ h) = (ground arith, ground arith)
head_and_tag_size (k ∷ key) [] = (ground arith, ground arith)
head_and_tag_size (k ∷ key) (x ∷ h) = (ground arith, ground arith)

verifies :
    (public private h : List ℕ)
    → public ≡ private
    → same_bytes (head_and_tag private h) (head_and_tag public h) ≡ true
verifies public private h e = rw (e) (same_bytes_self (head_and_tag private h))

pub sample-CryptoLaws : CryptoLaws sample (λ public private. public ≡ private)
sample-CryptoLaws = record {
  hash_size_pos = λ a. omega arith;
  digest_size = λ a m. refl;
  digest_bytes = λ a m. (omega arith, (omega arith, tt));
  sign_verifies = λ public private h draw pair. verifies public private h pair;
  sign_nonempty = λ private h draw. (head_and_tag_size private h).0;
  sign_size = λ private h draw. (head_and_tag_size private h).1;
}
