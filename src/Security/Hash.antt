-- ===== src/Security/Hash.antt =====
-- CHash.hpp: a digest tagged by its algorithm (the template argument).
pub mod Laws
use ubiquitous_chainsaw.Base.{
  ℕ, suc, ◌+◌, ◌/◌, ◌%◌, ◌-◌, Bool, true, false, List, [], ◌∷◌, length, ◌==◌, ltb, not, ◌&&◌,
  if◌then◌else◌, Outcome, ok, ◌>>◌, assert,
}
use ubiquitous_chainsaw.Security.Interface.{Algorithm, Crypto}

pub record CHash : Type 0 where
  pub hash_type : Algorithm
  pub bytes : List ℕ

-- The constructor from a buffer: `create_hash`.
unfoldable pub of_buffer : Crypto → Algorithm → List ℕ → CHash
of_buffer c a message = record { hash_type = a; bytes = c.digest a message }

-- The constructor from a range; after its `ASSERT` the `resize` changes nothing.
unfoldable pub of_range : Crypto → Algorithm → List ℕ → Outcome CHash
of_range c a range =
    assert (length range == c.hash_size a) >> ok (record { hash_type = a; bytes = range })

-- The loop of `operator==` and `operator!=`, from the first index where it finds a difference.
unfoldable pub same_bytes : List ℕ → List ℕ → Bool
same_bytes [] ys = true
same_bytes (x ∷ xs) [] = true
same_bytes (x ∷ xs) (y ∷ ys) = if x == y then same_bytes xs ys else false

-- `operator==`
unfoldable pub eq : CHash → CHash → Bool
unfolding same_bytes
eq lhs rhs = if length lhs.bytes == length rhs.bytes then same_bytes lhs.bytes rhs.bytes else false

-- `operator!=`
unfoldable pub ne : CHash → CHash → Bool
unfolding same_bytes
ne lhs rhs =
    if length lhs.bytes == length rhs.bytes then not (same_bytes lhs.bytes rhs.bytes) else true

-- The table `hex` of `as_string`.
abbrev pub hex : ℕ → ℕ
hex digit = if ltb digit 10 then b'0' + digit else b'a' + digit - 10

-- `as_string`
unfoldable pub as_string : List ℕ → List ℕ
as_string [] = []
as_string (b ∷ bytes) = hex (b / 16 % 16) ∷ hex (b % 16) ∷ as_string bytes
