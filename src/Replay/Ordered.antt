-- ===== src/Replay/Ordered.antt =====
-- The ages of the protector stand in the order of their starts, as those of a `std::priority_queue` do.
use ubiquitous_chainsaw.Base.{
  ℕ, ◌-◌, ◌≤◌, ap, Bool, true, false, List, [], ◌∷◌, Option, none, some, inl, inr, arith, leb, ltb,
  Bool-cases,
}
use ubiquitous_chainsaw.Replay.Packet.{Cache, erase}
use ubiquitous_chainsaw.Replay.Protector.{
  PacketAge, Ages, push, rehashed, extracted, revalid, ReplayProtector, answered,
}
use ubiquitous_chainsaw.Replay.Closed.{
  Steps, done, asked, generated, generated_lem, removed, outdated, expected_lem,
}

-- The ages stand in the order of their starts.
abbrev pub From : ℕ → Ages → Type 0
From start [] = Unit {0}
From start (age ∷ ages) = (start ≤ age.start) × From start ages

abbrev pub Sorted : Ages → Type 0
Sorted [] = Unit {0}
Sorted (age ∷ ages) = From age.start ages × Sorted ages

From-revalid :
    (start : ℕ) (test : PacketAge → Bool) (ages : Ages)
    → From start ages
    → From start (revalid test ages)
unfolding revalid
From-revalid start test [] h = tt
From-revalid start test (age ∷ ages) (first, h) = (first, From-revalid start test ages h)

pub Sorted-revalid :
    (test : PacketAge → Bool) (ages : Ages) → Sorted ages → Sorted (revalid test ages)
unfolding revalid
Sorted-revalid test [] h = tt
Sorted-revalid test (age ∷ ages) (first, h) =
    (From-revalid age.start test ages first, Sorted-revalid test ages h)

pub Sorted-rehashed :
    (rehashes : Bool) (ages : Ages) → Sorted ages → Sorted (rehashed rehashes ages)
unfolding rehashed
Sorted-rehashed true ages h = Sorted-revalid _ ages h
Sorted-rehashed false ages h = h

From-push :
    (start : ℕ) (age : PacketAge) (ages : Ages)
    → start ≤ age.start
    → From start ages
    → From start (push age ages)
unfolding push
From-push start age [] le h = (le, tt)
From-push start age (other ∷ ages) le (first, h) = elim (Bool-cases (ltb age.start other.start)) [
  | inl e ↦ rw (e) (le, (first, h))
  | inr e ↦ rw (e) (first, From-push start age ages le h)
]

From-trans : (a b : ℕ) (ages : Ages) → a ≤ b → From b ages → From a ages
From-trans a b [] le h = tt
From-trans a b (age ∷ ages) le (first, h) = (omega (arith, le, first), From-trans a b ages le h)

pub Sorted-push : (age : PacketAge) (ages : Ages) → Sorted ages → Sorted (push age ages)
unfolding push
Sorted-push age [] h = (tt, tt)
Sorted-push age (other ∷ ages) (first, h) = elim (Bool-cases (ltb age.start other.start)) [
  | inl e ↦
      let le : age.start ≤ other.start = ground arith in
      rw (e) ((le, From-trans age.start other.start ages le first), (first, h))
  | inr e ↦
      let le : other.start ≤ age.start = ground arith in
      rw (e) (From-push other.start age ages le first, Sorted-push age ages h)
]

pub Sorted-removed :
    (now allowed : ℕ) (cache : Cache) (ages : Ages)
    → Sorted ages
    → Sorted (removed now allowed cache ages).1
unfolding removed
Sorted-removed now allowed cache [] h = tt
Sorted-removed now allowed cache (age ∷ ages) (first, h) =
    elim (Bool-cases (leb allowed (now - age.start))) [
      | inl e ↦ rw (e) (Sorted-removed now allowed (erase age.block cache) ages h)
      | inr e ↦ rw (e) (first, h)
    ]

abbrev pub IsSorted : ReplayProtector → Type 0
IsSorted self = Sorted self.packet_ages

answered-IsSorted :
    (k : List ℕ) (found : Option Bool) (self : ReplayProtector)
    → IsSorted self
    → IsSorted (answered k found self).1
unfolding answered extracted
answered-IsSorted k none self h = h
answered-IsSorted k (some true) self h = h
answered-IsSorted k (some false) self h = Sorted-revalid _ self.packet_ages h

pub Steps-IsSorted :
    {Drawn : List ℕ → Type 0} {self self' : ReplayProtector}
    → Steps Drawn self self'
    → IsSorted self
    → IsSorted self'
unfolding outdated
Steps-IsSorted done h = h
Steps-IsSorted (asked {self' = s} now k result steps e) h =
    rw (← ap (λ r. r.1) (expected_lem now k s e)) (
      answered-IsSorted k _ _
        (Sorted-removed now s.oldest_allowed s.packet_cache s.packet_ages (Steps-IsSorted steps h)))
Steps-IsSorted (generated {self' = s} {self'' = s'} now rehashes k steps drawn e) h =
    rw ((generated_lem now rehashes k s s' e).1)
      (Sorted-push _ _ (Sorted-rehashed rehashes s.packet_ages (Steps-IsSorted steps h)))
