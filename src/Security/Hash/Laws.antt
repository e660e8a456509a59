-- ===== src/Security/Hash/Laws.antt =====
-- The comparisons and the printed form of CHash.hpp.
use ubiquitous_chainsaw.Base.{
  ℕ, ◌/◌, ◌%◌, ◌<◌, ◌≡◌, refl, ◌↔◌, true, false, not, List, [], ◌∷◌, length, AllBytes, arith,
}
use ubiquitous_chainsaw.Security.Hash.{CHash, same_bytes, eq, ne, hex, as_string}

pub same_bytes→eq : (xs ys : List ℕ) → length xs ≡ length ys → same_bytes xs ys ≡ true → xs ≡ ys
unfolding same_bytes
same_bytes→eq [] [] e h = refl
same_bytes→eq [] (y ∷ ys) e h = absurd (omega arith)
same_bytes→eq (x ∷ xs) [] e h = absurd (omega arith)
same_bytes→eq (x ∷ xs) (y ∷ ys) e h = ground (arith, same_bytes→eq xs ys)

pub same_bytes_self : (xs : List ℕ) → same_bytes xs xs ≡ true
unfolding same_bytes
same_bytes_self [] = refl
same_bytes_self (x ∷ xs) = ground (arith, same_bytes_self xs)

pub eq→bytes : (a b : CHash) → eq a b ≡ true → a.bytes ≡ b.bytes
unfolding eq
eq→bytes a b h = ground (arith, same_bytes→eq a.bytes b.bytes)

pub ne_self : (a b : CHash) → a.bytes ≡ b.bytes → ne a b ≡ false
unfolding ne
ne_self a b h = ground (arith, same_bytes_self a.bytes)

pub ne→bytes : (a b : CHash) → ne a b ≡ false → a.bytes ≡ b.bytes
unfolding ne
ne→bytes a b h = ground (arith, same_bytes→eq a.bytes b.bytes)

-- Two hashes compare equal exactly when their bytes are the same, and `!=` is the negation of `==`.
pub eq_iff_bytes : (a b : CHash) → (eq a b ≡ true ↔ (a.bytes ≡ b.bytes)) × (ne a b ≡ not (eq a b))
unfolding eq ne
eq_iff_bytes a b = ((eq→bytes a b, λ e. ground (arith, same_bytes_self a.bytes)), ground arith)

hex_injective : (x y : ℕ) → x < 16 → y < 16 → hex x ≡ hex y → x ≡ y
hex_injective x y p q h = ground arith

byte_eq :
    (x y : ℕ)
    → x < 256
    → y < 256
    → hex (x / 16 % 16) ≡ hex (y / 16 % 16)
    → hex (x % 16) ≡ hex (y % 16)
    → x ≡ y
byte_eq x y p q high low = omega (
  arith,
  hex_injective (x / 16 % 16) (y / 16 % 16) (omega arith) (omega arith) high,
  hex_injective (x % 16) (y % 16) (omega arith) (omega arith) low,
)

digits_eq : (a b c d : ℕ) (xs ys : List ℕ) → a ∷ b ∷ xs ≡ c ∷ d ∷ ys → (a ≡ c) × (b ≡ d) × (xs ≡ ys)
digits_eq a b c d xs ys h = (ground arith, ground arith, ground arith)

-- Two byte strings that print alike are the same.
pub as_string_injective :
    (xs ys : List ℕ) → AllBytes xs → AllBytes ys → as_string xs ≡ as_string ys → xs ≡ ys
unfolding as_string
as_string_injective [] [] p q h = refl
as_string_injective [] (y ∷ ys) p q h = cc
as_string_injective (x ∷ xs) [] p q h = cc
as_string_injective (x ∷ xs) (y ∷ ys) p q h =
    let (high, low, rest) = digits_eq _ _ _ _ (as_string xs) (as_string ys) h in
    let same : x ≡ y = byte_eq x y p.0 q.0 high low in
    let tails : xs ≡ ys = as_string_injective xs ys p.1 q.1 rest in cc
