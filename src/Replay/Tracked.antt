-- ===== src/Replay/Tracked.antt =====
-- Every block that has an age is in the cache, and has one age.
use ubiquitous_chainsaw.Base.{
  ℕ, ◌-◌, ◌≡◌, ◌≢◌, sym, ◌∙◌, Bool, true, false, List, [], ◌∷◌, Option, none, some, inl, inr, leb,
  ltb, Bool-cases,
}
use ubiquitous_chainsaw.Replay.Packet.{
  Cache, packet_eq-cases, lookup, erase, answer, lookup-erase_other,
}
use ubiquitous_chainsaw.Replay.Protector.{PacketAge, Ages, push, revalid, rehashed}
use ubiquitous_chainsaw.Replay.Closed.{removed}

-- No age is one of the block.
abbrev pub NoAge : List ℕ → Ages → Type 0
NoAge block [] = Unit {0}
NoAge block (age ∷ ages) = (block ≢ age.block) × NoAge block ages

abbrev pub Distinct : Ages → Type 0
Distinct [] = Unit {0}
Distinct (age ∷ ages) = NoAge age.block ages × Distinct ages

-- What has an age is in the cache, and has one age.
abbrev pub Tracked : Cache → Ages → Type 0
Tracked cache ages =
    Distinct ages × ((block : List ℕ) → lookup block cache ≡ none → NoAge block ages)

NoAge-revalid :
    (block : List ℕ) (test : PacketAge → Bool) (ages : Ages)
    → NoAge block ages
    → NoAge block (revalid test ages)
unfolding revalid
NoAge-revalid block test [] h = tt
NoAge-revalid block test (age ∷ ages) (differ, h) = (differ, NoAge-revalid block test ages h)

Distinct-revalid :
    (test : PacketAge → Bool) (ages : Ages) → Distinct ages → Distinct (revalid test ages)
unfolding revalid
Distinct-revalid test [] h = tt
Distinct-revalid test (age ∷ ages) (h, distinct) =
    (NoAge-revalid age.block test ages h, Distinct-revalid test ages distinct)

pub revalid-Tracked :
    (test : PacketAge → Bool) (cache : Cache) (ages : Ages)
    → Tracked cache ages
    → Tracked cache (revalid test ages)
revalid-Tracked test cache ages (distinct, tracked) = (
  Distinct-revalid test ages distinct,
  λ block missing. NoAge-revalid block test ages (tracked block missing),
)

pub rehashed-Tracked :
    (rehashes : Bool) (cache : Cache) (ages : Ages)
    → Tracked cache ages
    → Tracked cache (rehashed rehashes ages)
unfolding rehashed
rehashed-Tracked true cache ages h = revalid-Tracked _ cache ages h
rehashed-Tracked false cache ages h = h

pub NoAge-push :
    (block : List ℕ) (age : PacketAge) (ages : Ages)
    → block ≢ age.block
    → NoAge block ages
    → NoAge block (push age ages)
unfolding push
NoAge-push block age [] differ none_of = (differ, tt)
NoAge-push block age (other ∷ rest) differ (h, none_of) =
    elim (Bool-cases (ltb age.start other.start)) [
      | inl e ↦ rw (e) (differ, (h, none_of))
      | inr e ↦ rw (e) (h, NoAge-push block age rest differ none_of)
    ]

Distinct-push :
    (age : PacketAge) (ages : Ages)
    → NoAge age.block ages
    → Distinct ages
    → Distinct (push age ages)
unfolding push
Distinct-push age [] none_of distinct = (tt, tt)
Distinct-push age (other ∷ rest) (h, none_of) (first, distinct) =
    elim (Bool-cases (ltb age.start other.start)) [
      | inl e ↦ rw (e) ((h, none_of), (first, distinct))
      | inr e ↦ rw (e) (
        NoAge-push other.block age rest (λ same. h (sym same)) first,
        Distinct-push age rest none_of distinct,
      )
    ]

erase-Tracked :
    (cache : Cache) (age : PacketAge) (ages : Ages)
    → Tracked cache (age ∷ ages)
    → Tracked (erase age.block cache) ages
erase-Tracked cache age ages ((first, distinct), tracked) = (
  distinct,
  λ block missing. elim (packet_eq-cases block age.block) [
    | inl (e, same) ↦ rw (same) first
    | inr (e, differ) ↦
        (tracked block (sym (lookup-erase_other block age.block cache differ) ∙ missing)).1
  ],
)

pub removed-Tracked :
    (now allowed : ℕ) (cache : Cache) (ages : Ages)
    → Tracked cache ages
    → let (cache', ages') = removed now allowed cache ages in Tracked cache' ages'
unfolding removed
removed-Tracked now allowed cache [] tracked = tracked
removed-Tracked now allowed cache (age ∷ ages) tracked =
    elim (Bool-cases (leb allowed (now - age.start))) [
      | inl e ↦ rw (e) (
          removed-Tracked now allowed (erase age.block cache) ages
            (erase-Tracked cache age ages tracked))
      | inr e ↦ rw (e) tracked
    ]

pub answer-Tracked :
    (k : List ℕ) (cache : Cache) (ages : Ages) → Tracked cache ages → Tracked (answer k cache) ages
unfolding answer lookup
answer-Tracked k cache ages (distinct, tracked) = (
  distinct,
  λ block missing. elim (packet_eq-cases block k) [
    | inl (e, same) ↦ absurd (found (rw (e) at missing))
    | inr (e, differ) ↦
        tracked block (sym (lookup-erase_other block k cache differ) ∙ (rw (e) at missing))
  ],
)
  where
    found : {b : Bool} → ◌≡◌ {A = Option Bool} (some b) none → ⊥
    found e = cc

pub emplace-Tracked :
    (k : List ℕ) (start : ℕ) (cache : Cache) (ages : Ages)
    → lookup k cache ≡ none
    → Tracked cache ages
    → Tracked ((k, false) ∷ cache) (push (record { block = k; valid = true; start = start }) ages)
unfolding lookup
emplace-Tracked k start cache ages fresh (distinct, tracked) = (
  Distinct-push age ages (tracked k fresh) distinct,
  λ block missing. elim (packet_eq-cases block k) [
    | inl (e, same) ↦ absurd (found (rw (e) at missing))
    | inr (e, differ) ↦ NoAge-push block age ages differ (tracked block (rw (e) at missing))
  ],
)
  where
    age : PacketAge
    age = record { block = k; valid = true; start = start }

    found : {b : Bool} → ◌≡◌ {A = Option Bool} (some b) none → ⊥
    found e = cc
