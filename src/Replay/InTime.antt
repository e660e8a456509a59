-- ===== src/Replay/InTime.antt =====
-- A block of random data that comes back in time is accepted.
use ubiquitous_chainsaw.Base.{
  ℕ, ◌-◌, ◌≤◌, ◌<◌, ◌≡◌, refl, ap, ◌∙◌, Bool, true, false, List, [], ◌∷◌, Option, none, some, ok,
  inl, inr, arith, leb, ltb, leb→le, Bool-cases,
}
use ubiquitous_chainsaw.Replay.Packet.{Cache, packet_eq_self, lookup, erase, lookup-erase_other}
use ubiquitous_chainsaw.Replay.Protector.{
  PacketAge, Ages, push, rehashed, extracted, ReplayProtector, make_replay_protector, remove_ages,
  remove_outdated_packets, answered, expected_random_data, generate_random_block,
}
use ubiquitous_chainsaw.Replay.Closed.{
  Steps, done, asked, generated, generated_lem, removed, outdated, expected_lem,
}
use ubiquitous_chainsaw.Replay.Tracked.{
  NoAge, Tracked, removed-Tracked, revalid-Tracked, rehashed-Tracked, answer-Tracked,
  emplace-Tracked,
}

abbrev pub IsTracked : ReplayProtector → Type 0
IsTracked self = Tracked self.packet_cache self.packet_ages

answered-IsTracked :
    (k : List ℕ) (found : Option Bool) (self : ReplayProtector)
    → IsTracked self
    → IsTracked (answered k found self).1
unfolding answered extracted
answered-IsTracked k none self tracked = tracked
answered-IsTracked k (some true) self tracked = tracked
answered-IsTracked k (some false) self tracked =
    revalid-Tracked _ _ _ (answer-Tracked k self.packet_cache self.packet_ages tracked)

pub Steps-IsTracked :
    {Drawn : List ℕ → Type 0} {self self' : ReplayProtector}
    → Steps Drawn self self'
    → IsTracked self
    → (IsTracked self') × (self'.oldest_allowed ≡ self.oldest_allowed)
unfolding outdated answered
Steps-IsTracked done tracked = (tracked, refl)
Steps-IsTracked (asked {self' = s} now k result steps h) tracked =
    let (before, same) = Steps-IsTracked steps tracked in
    rw (← ap (λ r. r.1) (expected_lem now k s h)) (
      answered-IsTracked k _ _
          (removed-Tracked now s.oldest_allowed s.packet_cache s.packet_ages before),
      keeps k _ _ ∙ same,
    )
  where
    keeps :
        (k : List ℕ) (found : Option Bool) (self : ReplayProtector)
        → (answered k found self).1.oldest_allowed ≡ self.oldest_allowed
    keeps k none self = refl
    keeps k (some true) self = refl
    keeps k (some false) self = refl
Steps-IsTracked (generated {self' = s} {self'' = s'} now rehashes k steps drawn h) tracked =
    let (before, same) = Steps-IsTracked steps tracked in
    let (fresh, e) = generated_lem now rehashes k s s' h in
    rw (e) (
      emplace-Tracked k now s.packet_cache (rehashed rehashes s.packet_ages) fresh
          (rehashed-Tracked rehashes s.packet_cache s.packet_ages before),
      same,
    )

-- No age of the block has run out.
abbrev InTime : List ℕ → ℕ → ℕ → Ages → Type 0
InTime block now allowed [] = Unit {0}
InTime block now allowed (age ∷ ages) =
    (block ≡ age.block → now - age.start < allowed) × InTime block now allowed ages

NoAge-InTime :
    (block : List ℕ) (now allowed : ℕ) (ages : Ages)
    → NoAge block ages
    → InTime block now allowed ages
NoAge-InTime block now allowed [] h = tt
NoAge-InTime block now allowed (age ∷ ages) (h, rest) =
    (λ e. absurd (h e), NoAge-InTime block now allowed ages rest)

InTime-push :
    (block : List ℕ) (now allowed : ℕ) (age : PacketAge) (ages : Ages)
    → now - age.start < allowed
    → InTime block now allowed ages
    → InTime block now allowed (push age ages)
unfolding push
InTime-push block now allowed age [] h rest = (λ e. h, tt)
InTime-push block now allowed age (other ∷ ages) h (first, rest) =
    elim (Bool-cases (ltb age.start other.start)) [
      | inl e ↦ rw (e) ((λ e. h), (first, rest))
      | inr e ↦ rw (e) (first, InTime-push block now allowed age ages h rest)
    ]

lookup-removed :
    (block : List ℕ) (now allowed : ℕ) (cache : Cache) (ages : Ages)
    → InTime block now allowed ages
    → lookup block (removed now allowed cache ages).0 ≡ lookup block cache
unfolding removed
lookup-removed block now allowed cache [] h = refl
lookup-removed block now allowed cache (age ∷ ages) (first, rest) =
    elim (Bool-cases (leb allowed (now - age.start))) [
      | inl e ↦ rw (e) (
          lookup-removed block now allowed (erase age.block cache) ages rest
          ∙ lookup-erase_other block age.block cache
              (λ same. late (first same) (leb→le allowed (now - age.start) e)))
      | inr e ↦ rw (e)
    ]
  where
    late : {n : ℕ} → n < allowed → allowed ≤ n → ⊥
    late p q = omega (arith, p, q)

-- Every age that has run out has a valid iterator, through which its block can be erased.
abbrev pub Erasable : ℕ → ℕ → Ages → Type 0
Erasable now allowed [] = Unit {0}
Erasable now allowed (age ∷ ages) =
    (allowed ≤ now - age.start → age.valid ≡ true) × Erasable now allowed ages

remove_ages-Erasable :
    (now allowed : ℕ) (cache : Cache) (ages : Ages)
    → Erasable now allowed ages
    → remove_ages now allowed cache ages ≡ ok (removed now allowed cache ages)
unfolding remove_ages removed
remove_ages-Erasable now allowed cache [] h = refl
remove_ages-Erasable now allowed cache (age ∷ ages) (valid, rest) =
    elim (Bool-cases (leb allowed (now - age.start))) [
      | inl e ↦
          rw (e, valid (leb→le allowed (now - age.start) e))
            (remove_ages-Erasable now allowed (erase age.block cache) ages rest)
      | inr e ↦ rw (e)
    ]

expected-Erasable :
    (now : ℕ) (block : List ℕ) (self : ReplayProtector)
    → Erasable now self.oldest_allowed self.packet_ages
    → (answered block (lookup block (outdated now self).packet_cache) (outdated now self)).0 ≡ true
    → (self' : ReplayProtector) × (expected_random_data now block self ≡ ok (true, self'))
unfolding expected_random_data remove_outdated_packets outdated
expected-Erasable now block self erases accepts = (
  (answered block (lookup block (outdated now self).packet_cache) (outdated now self)).1,
  rw (remove_ages-Erasable now self.oldest_allowed self.packet_cache self.packet_ages erases) (
      ap
        (λ t. ok (
          t,
          (answered block (lookup block (outdated now self).packet_cache) (outdated now self)).1,
        ))
        accepts),
)

pub accepted_in_time :
    (duration sent now : ℕ) (rehashes : Bool) (block : List ℕ) {self self' : ReplayProtector}
    → Steps (λ k. Unit {0}) (make_replay_protector duration) self
    → generate_random_block sent rehashes block self ≡ ok (block, self')
    → now - sent < duration
    → Erasable now duration self'.packet_ages
    → (self'' : ReplayProtector) × (expected_random_data now block self' ≡ ok (true, self''))
unfolding make_replay_protector outdated answered lookup
accepted_in_time duration sent now rehashes block {self = s} {self' = s'} steps h soon erasable =
    let ((distinct, tracked), same) = Steps-IsTracked steps (tt, λ k missing. tt) in
    let (fresh, e) = generated_lem sent rehashes block s s' h in
    let none_of = (rehashed-Tracked rehashes s.packet_cache s.packet_ages (distinct, tracked)).1 in
    let ages : Ages = push age (rehashed rehashes s.packet_ages) in
    let young : InTime block now s.oldest_allowed ages =
      InTime-push block now s.oldest_allowed age (rehashed rehashes s.packet_ages) (rw (same) soon)
        (NoAge-InTime block now s.oldest_allowed _ (none_of block fresh)) in
    let erases : Erasable now s.oldest_allowed ages = rw (same) (rw (e) at erasable) in
    rw (e) (
      expected-Erasable now block
        (record s { packet_cache = (block, false) ∷ s.packet_cache; packet_ages = ages }) erases
        (rw (
          lookup-removed block now s.oldest_allowed ((block, false) ∷ s.packet_cache) ages young,
          packet_eq_self block,
        )))
  where
    age : PacketAge
    age = record { block = block; valid = true; start = sent }
