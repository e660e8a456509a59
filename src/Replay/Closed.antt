-- ===== src/Replay/Closed.antt =====
-- The calls of the protector leave a block closed that does not wait for its answer.
use ubiquitous_chainsaw.Base.{
  ℕ, ◌-◌, ◌≡◌, ◌≢◌, refl, sym, ◌∙◌, ◌⊎◌, ap, Bool, true, false, List, [], ◌∷◌, Option, none, some,
  Outcome, ok, stop, Stop, undefined, ok_injective, inl, inr, leb, if◌then◌else◌, Bool-cases,
  Option-cases,
}
use ubiquitous_chainsaw.Replay.Packet.{
  Cache, packet_eq, packet_eq-cases, packet_eq_self, lookup, erase, answer, Unique,
  lookup-erase_other, lookup-erase_self, erase-Unique,
}
use ubiquitous_chainsaw.Replay.Protector.{
  Ages, ReplayProtector, remove_ages, answered, expected_random_data, emplace,
  generate_random_block, push, rehashed, remove_outdated_packets,
}

-- The calls that take the protector from one state to another and return, where `Drawn` holds of the blocks that
-- the random number generator gives on the way.
pub data Steps (Drawn : List ℕ → Type 0) : ReplayProtector → ReplayProtector → Type 0 where
  done : {self : ReplayProtector} → Steps Drawn self self
  asked :
      {self self' self'' : ReplayProtector} (now : ℕ) (block : List ℕ) (result : Bool)
      → Steps Drawn self self'
      → expected_random_data now block self' ≡ ok (result, self'')
      → Steps Drawn self self''
  generated :
      {self self' self'' : ReplayProtector} (now : ℕ) (rehashes : Bool) (block : List ℕ)
      → Steps Drawn self self'
      → Drawn block
      → generate_random_block now rehashes block self' ≡ ok (block, self'')
      → Steps Drawn self self''

-- The block does not wait for its answer.
abbrev pub Refused : List ℕ → Cache → Type 0
Refused block cache = lookup block cache ≢ some false

abbrev pub Closed : List ℕ → Cache → Type 0
Closed block cache = Unique cache × Refused block cache

erase-Refused :
    (block k : List ℕ) (cache : Cache) → Closed block cache → Refused block (erase k cache)
erase-Refused block k cache (unique, refused) = elim (packet_eq-cases block k) [
  | inl (e, same) ↦ rw (same) (rw (lookup-erase_self k cache unique) (λ e. cc))
  | inr (e, differ) ↦ rw (lookup-erase_other block k cache differ) refused
]

-- What the loop over the ages leaves if it returns.
unfoldable pub removed : ℕ → ℕ → Cache → Ages → Cache × Ages
removed now allowed cache [] = (cache, [])
removed now allowed cache (age ∷ ages) =
    let rest = removed now allowed (erase age.block cache) ages in
    if leb allowed (now - age.start) then rest else (cache, age ∷ ages)

remove_ages-cases :
    (now allowed : ℕ) (cache : Cache) (ages : Ages)
    → (remove_ages now allowed cache ages ≡ stop undefined)
      ⊎ (remove_ages now allowed cache ages ≡ ok (removed now allowed cache ages))
unfolding remove_ages removed
remove_ages-cases now allowed cache [] = inr refl
remove_ages-cases now allowed cache (age ∷ ages) =
    elim (Bool-cases (leb allowed (now - age.start))) [
      | inl e ↦ elim (Bool-cases age.valid) [
        | inl v ↦ rw (e, v) (remove_ages-cases now allowed (erase age.block cache) ages)
        | inr v ↦ rw (e, v) (inl refl)
      ]
      | inr e ↦ rw (e) (inr refl)
    ]

-- What a call of `remove_outdated_packets` leaves if it returns.
unfoldable pub outdated : ℕ → ReplayProtector → ReplayProtector
outdated now self =
    let (cache, ages) = removed now self.oldest_allowed self.packet_cache self.packet_ages in
    record self { packet_cache = cache; packet_ages = ages }

pub expected-cases :
    (now : ℕ) (block : List ℕ) (self : ReplayProtector)
    → (expected_random_data now block self ≡ stop undefined)
      ⊎ (expected_random_data now block self
          ≡ ok (answered block (lookup block (outdated now self).packet_cache) (outdated now self)))
unfolding expected_random_data remove_outdated_packets outdated
expected-cases now block self =
    elim (remove_ages-cases now self.oldest_allowed self.packet_cache self.packet_ages) [
      | inl e ↦ inl (rw (e))
      | inr e ↦ inr (rw (e))
    ]

pub expected_lem :
    (now : ℕ) (block : List ℕ) (self : ReplayProtector) {r : Bool × ReplayProtector}
    → expected_random_data now block self ≡ ok r
    → answered block (lookup block (outdated now self).packet_cache) (outdated now self) ≡ r
expected_lem now block self h = elim (expected-cases now block self) [
  | inl e ↦ absurd cc
  | inr e ↦ ok_injective (sym e ∙ h)
]

pub removed-Unique :
    (now allowed : ℕ) (cache : Cache) (ages : Ages)
    → Unique cache
    → Unique (removed now allowed cache ages).0
unfolding removed
removed-Unique now allowed cache [] unique = unique
removed-Unique now allowed cache (age ∷ ages) unique =
    elim (Bool-cases (leb allowed (now - age.start))) [
      | inl e ↦ rw (e) (
          removed-Unique now allowed (erase age.block cache) ages
            (erase-Unique age.block cache unique))
      | inr e ↦ rw (e) unique
    ]

pub removed-Closed :
    (block : List ℕ) (now allowed : ℕ) (cache : Cache) (ages : Ages)
    → Closed block cache
    → Closed block (removed now allowed cache ages).0
unfolding removed
removed-Closed block now allowed cache [] closed = closed
removed-Closed block now allowed cache (age ∷ ages) (unique, refused) =
    elim (Bool-cases (leb allowed (now - age.start))) [
      | inl e ↦ rw (e) (
          removed-Closed block now allowed (erase age.block cache) ages (
            erase-Unique age.block cache unique,
            erase-Refused block age.block cache (unique, refused),
          ))
      | inr e ↦ rw (e) (unique, refused)
    ]

pub answer-Unique : (k : List ℕ) (cache : Cache) → Unique cache → Unique (answer k cache)
unfolding answer
answer-Unique k cache unique = (lookup-erase_self k cache unique, erase-Unique k cache unique)

answer-Refused :
    (block k : List ℕ) (cache : Cache) → Closed block cache → Refused block (answer k cache)
unfolding answer lookup
answer-Refused block k cache closed = elim (Bool-cases (packet_eq block k)) [
  | inl e ↦ rw (e) (λ h. cc)
  | inr e ↦ rw (e) (erase-Refused block k cache closed)
]

pub answer-Refused_self : (k : List ℕ) (cache : Cache) → Refused k (answer k cache)
unfolding answer lookup
answer-Refused_self k cache = rw (packet_eq_self k) (λ h. cc)

abbrev pub IsUnique : ReplayProtector → Type 0
IsUnique self = Unique self.packet_cache

abbrev pub IsClosed : List ℕ → ReplayProtector → Type 0
IsClosed block self = Closed block self.packet_cache

pub answered-IsUnique :
    (k : List ℕ) (found : Option Bool) (self : ReplayProtector)
    → IsUnique self
    → IsUnique (answered k found self).1
unfolding answered
answered-IsUnique k none self unique = unique
answered-IsUnique k (some true) self unique = unique
answered-IsUnique k (some false) self unique = answer-Unique k self.packet_cache unique

pub answered-IsClosed :
    (block k : List ℕ) (found : Option Bool) (self : ReplayProtector)
    → IsClosed block self
    → IsClosed block (answered k found self).1
unfolding answered
answered-IsClosed block k none self closed = closed
answered-IsClosed block k (some true) self closed = closed
answered-IsClosed block k (some false) self (unique, refused) = (
  answer-Unique k self.packet_cache unique,
  answer-Refused block k self.packet_cache (unique, refused),
)

-- What a call of `generate_random_block` that returns has done.
pub generated_lem :
    (now : ℕ) (rehashes : Bool) (k : List ℕ) (self self' : ReplayProtector)
    → generate_random_block now rehashes k self ≡ ok (k, self')
    → (lookup k self.packet_cache ≡ none)
      × (self' ≡ (record self {
        packet_cache = (k, false) ∷ self.packet_cache;
        packet_ages =
            push
              (record { block = k; valid = true; start = now })
              (rehashed rehashes self.packet_ages);
      }))
unfolding generate_random_block emplace
generated_lem now rehashes k self self' h = elim (Option-cases (lookup k self.packet_cache)) [
  | inl e ↦ (e, sym (ap (λ r. r.1) (ok_injective (rw (e, generate_random_block) at h))))
  | inr (found, e) ↦ absurd (not_ok (rw (e, generate_random_block) at h))
]
  where
    not_ok :
        {x : List ℕ × ReplayProtector} {e : Stop}
        → ◌≡◌ {A = Outcome (List ℕ × ReplayProtector)} (stop e) (ok x)
        → ⊥
    not_ok e = cc
