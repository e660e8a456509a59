-- ===== src/Replay/Once.antt =====
-- A block of random data is accepted at most once, and only if it has been sent.
use ubiquitous_chainsaw.Base.{
  ℕ, ◌≡◌, ◌≢◌, refl, sym, ap, ◌∙◌, ◌⊎◌, stop, undefined, Bool, true, false, List, ◌∷◌, Option, none,
  some, ok, inl, inr,
}
use ubiquitous_chainsaw.Replay.Packet.{packet_eq-cases, lookup}
use ubiquitous_chainsaw.Replay.Protector.{
  ReplayProtector, make_replay_protector, answered, expected_random_data, generate_random_block,
}
use ubiquitous_chainsaw.Replay.Closed.{
  Steps, done, asked, generated, IsUnique, IsClosed, removed-Unique, removed-Closed, outdated,
  expected-cases, expected_lem, answered-IsUnique, answered-IsClosed, answer-Refused_self,
  answer-Unique, generated_lem,
}

outdated-IsUnique :
    (now : ℕ) (self : ReplayProtector) → IsUnique self → IsUnique (outdated now self)
unfolding outdated
outdated-IsUnique now self unique =
    removed-Unique now self.oldest_allowed self.packet_cache self.packet_ages unique

outdated-IsClosed :
    (block : List ℕ) (now : ℕ) (self : ReplayProtector)
    → IsClosed block self
    → IsClosed block (outdated now self)
unfolding outdated
outdated-IsClosed block now self closed =
    removed-Closed block now self.oldest_allowed self.packet_cache self.packet_ages closed

generated_cache :
    (now : ℕ) (rehashes : Bool) (k : List ℕ) (self self' : ReplayProtector)
    → generate_random_block now rehashes k self ≡ ok (k, self')
    → (lookup k self.packet_cache ≡ none) × (self'.packet_cache ≡ (k, false) ∷ self.packet_cache)
generated_cache now rehashes k self self' h =
    let (fresh, e) = generated_lem now rehashes k self self' h in
    (fresh, ap (λ s. s.packet_cache) e)

generated-IsUnique :
    (now : ℕ) (rehashes : Bool) (k : List ℕ) (self self' : ReplayProtector)
    → generate_random_block now rehashes k self ≡ ok (k, self')
    → IsUnique self
    → IsUnique self'
generated-IsUnique now rehashes k self self' h unique =
    let (fresh, e) = generated_cache now rehashes k self self' h in rw (e) (fresh, unique)

generated-IsClosed :
    (block : List ℕ) (now : ℕ) (rehashes : Bool) (k : List ℕ) (self self' : ReplayProtector)
    → generate_random_block now rehashes k self ≡ ok (k, self')
    → k ≢ block
    → IsClosed block self
    → IsClosed block self'
unfolding lookup
generated-IsClosed block now rehashes k self self' h other (unique, refused) =
    let (fresh, e) = generated_cache now rehashes k self self' h in
    rw (e) (
      (fresh, unique),
      elim (packet_eq-cases block k) [
        | inl (f, same) ↦ absurd (other (sym same))
        | inr (f, _) ↦ rw (f) refused
      ],
    )

pub Steps-IsUnique :
    {Drawn : List ℕ → Type 0} {self self' : ReplayProtector}
    → Steps Drawn self self'
    → IsUnique self
    → IsUnique self'
Steps-IsUnique done unique = unique
Steps-IsUnique (asked {self' = s} now k result steps h) unique =
    rw (← ap (λ r. r.1) (expected_lem now k s h))
      (answered-IsUnique k _ _ (outdated-IsUnique now s (Steps-IsUnique steps unique)))
Steps-IsUnique (generated {self' = s} {self'' = s'} now rehashes k steps drawn h) unique =
    generated-IsUnique now rehashes k s s' h (Steps-IsUnique steps unique)

Steps-IsClosed :
    (block : List ℕ) {self self' : ReplayProtector}
    → Steps (λ k. k ≢ block) self self'
    → IsClosed block self
    → IsClosed block self'
Steps-IsClosed block done closed = closed
Steps-IsClosed block (asked {self' = s} now k result steps h) closed =
    rw (← ap (λ r. r.1) (expected_lem now k s h)) (
      answered-IsClosed block k _ _
        (outdated-IsClosed block now s (Steps-IsClosed block steps closed)))
Steps-IsClosed block (generated {self' = s} {self'' = s'} now rehashes k steps drawn h) closed =
    generated-IsClosed block now rehashes k s s' h drawn (Steps-IsClosed block steps closed)

-- An answer with the block is refused, unless the call is undefined.
abbrev pub IsRefused : ℕ → List ℕ → ReplayProtector → Type 0
IsRefused now block self =
    (expected_random_data now block self ≡ stop undefined)
    ⊎ ((self' : ReplayProtector) × (expected_random_data now block self ≡ ok (false, self')))

closed_refuses :
    (block : List ℕ) (now : ℕ) (self : ReplayProtector)
    → IsClosed block self
    → IsRefused now block self
unfolding answered
closed_refuses block now self closed = elim (expected-cases now block self) [
  | inl e ↦ inl e
  | inr e ↦
      let self' = outdated now self in
      let refused =
        refuses self' (lookup block self'.packet_cache)
          (outdated-IsClosed block now self closed).1 in
      inr (
        _,
        e ∙ ap (λ t. ok (t, (answered block (lookup block self'.packet_cache) self').1)) refused,
      )
]
  where
    refuses :
        (s : ReplayProtector) (found : Option Bool)
        → found ≢ some false
        → (answered block found s).0 ≡ false
    refuses s none h = refl
    refuses s (some true) h = refl
    refuses s (some false) h = absurd (h refl)

accepted-IsClosed :
    (now : ℕ) (block : List ℕ) (self self' : ReplayProtector)
    → expected_random_data now block self ≡ ok (true, self')
    → IsUnique self
    → IsClosed block self'
unfolding answered
accepted-IsClosed now block self self' h unique =
    accepts (outdated now self) (lookup block (outdated now self).packet_cache)
      (outdated-IsUnique now self unique) (expected_lem now block self h)
  where
    accepts :
        (s : ReplayProtector) (found : Option Bool)
        → IsUnique s
        → answered block found s ≡ (true, self')
        → IsClosed block self'
    accepts s none u e = absurd cc
    accepts s (some true) u e = absurd cc
    accepts s (some false) u e =
        rw (sym (ap (λ r. r.1) e))
          (answer-Unique block s.packet_cache u, answer-Refused_self block s.packet_cache)

-- Once an answer with a block of random data has been accepted, every later answer with that block is
-- refused or its call is undefined, whatever calls returned in between, as long as that block is not
-- drawn again.
pub accepted_once :
    (duration now later : ℕ) (block : List ℕ) {self self' self'' : ReplayProtector}
    → Steps (λ k. Unit {0}) (make_replay_protector duration) self
    → expected_random_data now block self ≡ ok (true, self')
    → Steps (λ k. k ≢ block) self' self''
    → IsRefused later block self''
unfolding make_replay_protector
accepted_once duration now later block before accepted after = closed_refuses block later _ (
    Steps-IsClosed block after
      (accepted-IsClosed now block _ _ accepted (Steps-IsUnique before tt)))

-- A block that has not been generated is never accepted.
unknown-IsRefused :
    (duration now : ℕ) (block : List ℕ) {self : ReplayProtector}
    → Steps (λ k. k ≢ block) (make_replay_protector duration) self
    → IsRefused now block self
unfolding make_replay_protector lookup
unknown-IsRefused duration now block steps =
    closed_refuses block now _ (Steps-IsClosed block steps (tt, λ e. cc))
