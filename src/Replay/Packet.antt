-- ===== src/Replay/Packet.antt =====
-- The blocks of random data that the protector keeps, and its set of them.
use ubiquitous_chainsaw.Base.{
  ℕ, ◌≡◌, ◌≢◌, refl, sym, ◌∙◌, ap, ◌⊎◌, inl, inr, Bool, true, false, ◌==◌, if◌then◌else◌, List, [],
  ◌∷◌, length, Option, none, some, arith, Bool-cases,
}
use ubiquitous_chainsaw.Security.Hash.{same_bytes}
use ubiquitous_chainsaw.Security.Hash.Laws.{same_bytes_self, same_bytes→eq}

-- `operator==` of `Packet`
unfoldable pub packet_eq : List ℕ → List ℕ → Bool
packet_eq lhs rhs = if length lhs == length rhs then same_bytes lhs rhs else false

pub packet_eq-cases :
    (x y : List ℕ) → ((packet_eq x y ≡ true) × (x ≡ y)) ⊎ ((packet_eq x y ≡ false) × (x ≢ y))
unfolding packet_eq
packet_eq-cases x y = elim (Bool-cases (packet_eq x y)) [
  | inl e ↦ inl (e, ground (arith, same_bytes→eq x y))
  | inr e ↦ inr (e, λ same. ground (arith, same_bytes_self x))
]

-- `m_PacketCache`: the blocks and whether each has been answered.
abbrev pub Cache : Type 0
Cache = List (List ℕ × Bool)

-- `beenAnswered` of the block that `find` gives.
unfoldable pub lookup : List ℕ → Cache → Option Bool
lookup block [] = none
lookup block ((other, answered) ∷ rest) =
    if packet_eq block other then some answered else lookup block rest

unfoldable pub erase : List ℕ → Cache → Cache
erase block [] = []
erase block ((other, answered) ∷ rest) =
    let kept = erase block rest in if packet_eq block other then rest else (other, answered) ∷ kept

-- `extract`, the assignment of `beenAnswered` and `insert`.
unfoldable pub answer : List ℕ → Cache → Cache
answer block cache = (block, true) ∷ erase block cache

pub packet_eq_self : (x : List ℕ) → packet_eq x x ≡ true
packet_eq_self x = elim (packet_eq-cases x x) [
  | inl (e, same) ↦ e
  | inr (e, differ) ↦ absurd (differ refl)
]

-- The cache holds each block once.
abbrev pub Unique : Cache → Type 0
Unique [] = Unit {0}
Unique ((block, answered) ∷ rest) = (lookup block rest ≡ none) × Unique rest

pub lookup-erase_other :
    (block k : List ℕ) (cache : Cache)
    → block ≢ k
    → lookup block (erase k cache) ≡ lookup block cache
unfolding lookup erase
lookup-erase_other block k [] differ = refl
lookup-erase_other block k ((other, answered) ∷ rest) differ = elim (packet_eq-cases k other) [
  | inl (e, same) ↦ elim (packet_eq-cases block other) [
    | inl (f, also) ↦ absurd (differ (also ∙ sym same))
    | inr (f, _) ↦ rw (e, f)
  ]
  | inr (e, _) ↦ rw (e) (
      ap (λ t. if packet_eq block other then some answered else t)
        (lookup-erase_other block k rest differ))
]

pub lookup-erase-none :
    (block k : List ℕ) (cache : Cache)
    → lookup block cache ≡ none
    → lookup block (erase k cache) ≡ none
unfolding lookup erase
lookup-erase-none block k [] h = refl
lookup-erase-none block k ((other, answered) ∷ rest) h =
    ground (arith, lookup-erase-none block k rest)

pub lookup-erase_self :
    (k : List ℕ) (cache : Cache) → Unique cache → lookup k (erase k cache) ≡ none
unfolding lookup erase
lookup-erase_self k [] unique = refl
lookup-erase_self k ((other, answered) ∷ rest) (fresh, unique) = elim (packet_eq-cases k other) [
  | inl (e, same) ↦ rw (e, same) fresh
  | inr (e, _) ↦ rw (e) (rw (e) (lookup-erase_self k rest unique))
]

pub erase-Unique : (k : List ℕ) (cache : Cache) → Unique cache → Unique (erase k cache)
unfolding erase
erase-Unique k [] unique = tt
erase-Unique k ((other, answered) ∷ rest) (fresh, unique) = elim (Bool-cases (packet_eq k other)) [
  | inl e ↦ rw (e) unique
  | inr e ↦ rw (e) (lookup-erase-none other k rest fresh, erase-Unique k rest unique)
]
