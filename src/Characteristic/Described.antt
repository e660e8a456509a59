-- ===== src/Characteristic/Described.antt =====
-- What the debug build says of a characteristic when it makes one.
use Prim.Native.String.{String}
use ubiquitous_chainsaw.Base.{
  ℕ, ◌≡◌, refl, sym, ◌∙◌, ◌⊎◌, inl, inr, List, [], ◌∷◌, ◌==◌, ==_iff, Bool-cases, if◌then◌else◌,
  Outcome, ok, stop, undefined, ◌>>=◌,
}
use ubiquitous_chainsaw.Characteristic.Properties.{
  Property, none, to_underlying, includes, switch, characteristic_properties_to_str, emplace_each,
  tested, properties_to_str, property_line,
}

-- The line that is meant where the mask is one property, and undefined behaviour otherwise.
abbrev pub single_line : ℕ → Outcome (List String)
single_line properties =
    if properties == 0
    then stop undefined
    else characteristic_properties_to_str properties >>= (λ s. ok (s ∷ []))

-- A mask that has no name gives an empty list, or none at all.
unnamed_emplaced :
    (ps : List Property) (m : ℕ)
    → characteristic_properties_to_str m ≡ stop undefined
    → (emplace_each ps m ≡ ok []) ⊎ (emplace_each ps m ≡ stop undefined)
unfolding emplace_each
unnamed_emplaced [] m e = inl refl
unnamed_emplaced (p ∷ ps) m e = elim (Bool-cases (includes m p)) [
  | inl has ↦ inr (rw (has, e))
  | inr lacks ↦ rw (lacks) (unnamed_emplaced ps m e)
]

-- A switch gives a name only for the value of one of its cases.
switched :
    (cases : List Property) (m : ℕ)
    → (switch cases m ≡ stop undefined) ⊎ ((p : Property) × (m ≡ to_underlying p))
unfolding switch
switched [] m = inl refl
switched (p ∷ ps) m = elim (Bool-cases (m == to_underlying p)) [
  | inl e ↦ inr (p, (==_iff m (to_underlying p)).0 e)
  | inr e ↦ rw (e) (switched ps m)
]

named_line : (p : Property) → property_line (to_underlying p) ≡ single_line (to_underlying p)
unfolding property_line properties_to_str emplace_each includes characteristic_properties_to_str
    switch
named_line none = refl
named_line p = refl

unnamed_line :
    (m : ℕ) → characteristic_properties_to_str m ≡ stop undefined → property_line m ≡ stop undefined
unfolding property_line properties_to_str
unnamed_line m e = elim (unnamed_emplaced tested m e) [ inl n ↦ rw (n) | inr n ↦ rw (n) ]

named :
    (m : ℕ)
    → (characteristic_properties_to_str m ≡ stop undefined)
      ⊎ ((p : Property) × (m ≡ to_underlying p))
unfolding characteristic_properties_to_str
named m = switched _ m

unnamed_single_line :
    (m : ℕ) → characteristic_properties_to_str m ≡ stop undefined → single_line m ≡ stop undefined
unnamed_single_line m e = elim (Bool-cases (m == 0)) [ inl z ↦ rw (z) | inr n ↦ rw (n, e) ]

-- The debug build logs the name of a mask that is one property; any other mask, none or several, is
-- undefined behaviour.
pub property_line-single_line : (m : ℕ) → property_line m ≡ single_line m
property_line-single_line m = elim (named m) [
  | inl e ↦ unnamed_line m e ∙ sym (unnamed_single_line m e)
  | inr (p, e) ↦ rw (e) (named_line p)
]
