-- ===== src/Characteristic/Flight.antt =====
-- The calls of a characteristic that are in flight at once.
use ubiquitous_chainsaw.Base.{ℕ, suc, ◌+◌, ◌≤◌, ◌≡◌, refl, sym, Bool, true, false, List, arith}
use mathlib.Core.Path.{subst}
use ubiquitous_chainsaw.Services.{Uuid}
use ubiquitous_chainsaw.Characteristic.Subscription.{InFlight, make_characteristic}
use ubiquitous_chainsaw.Characteristic.Calls.{
  Flight, Step, subscribe_waits, subscribe_ends, unsubscribe_waits, unsubscribe_ends, ask_waits,
  ask_ends, Steps, here, step, subscribe-waiting, unsubscribe-waiting, has_subscribed-waiting,
  subscribe_ended, unsubscribe_ended, has_subscribed_ended,
}

abbrev count : Bool → ℕ
count true = 1
count false = 0

-- A semaphore that is free has no call waiting, and one that is taken has one; that of `subscribe`
-- can also be taken with none.
abbrev SingleAt : ℕ → ℕ → ℕ → InFlight → Type 0
SingleAt a u s free =
    (a + count free.has_subscribed_free ≡ 1)
    × (u + count free.unsubscribe_free ≡ 1)
    × (s + count free.subscribe_free ≤ 1)

abbrev pub Single : Flight → Type 0
Single flight = SingleAt flight.asks flight.unsubscribes flight.subscribes flight.self.in_flight

take : (n : ℕ) (b : Bool) → n + count b ≡ 1 → b ≡ true → suc n + count false ≡ 1
take n true h e = omega arith
take n false h e = absurd cc

take_most : (n : ℕ) (b : Bool) → n + count b ≤ 1 → b ≡ true → suc n + count false ≤ 1
take_most n true h e = omega arith
take_most n false h e = absurd cc

release : (n : ℕ) (b : Bool) → suc n + count b ≡ 1 → n + count true ≡ 1
release n true h = omega arith
release n false h = omega arith

Step-Single : (flight flight' : Flight) → Step flight flight' → Single flight → Single flight'
Step-Single _ _ (subscribe_waits {self} {self'} {a} {u} {s} cb e) (asks, unsubscribes, subscribes) =
    let (free, after) = subscribe-waiting cb self self' e in
    subst (SingleAt a u (suc s)) after
      (asks, unsubscribes, take_most s self.in_flight.subscribe_free subscribes free)
Step-Single _ _ (subscribe_ends {self} {a} {u} {s} written) (asks, unsubscribes, subscribes) =
    subst (λ c. SingleAt a u s c.in_flight) (sym (subscribe_ended written self))
      (asks, unsubscribes, omega (arith, subscribes))
Step-Single _ _ (unsubscribe_waits {self} {self'} {a} {u} {s} e) (asks, unsubscribes, subscribes) =
    let (free, after) = unsubscribe-waiting self self' e in
    subst (SingleAt a (suc u) s) after
      (asks, take u self.in_flight.unsubscribe_free unsubscribes free, subscribes)
Step-Single _ _ (unsubscribe_ends {self} {a} {u} {s} written) (asks, unsubscribes, subscribes) =
    subst (SingleAt a u s) (sym (unsubscribe_ended written self))
      (asks, release u self.in_flight.unsubscribe_free unsubscribes, subscribes)
Step-Single _ _ (ask_waits {self} {self'} {a} {u} {s} e) (asks, unsubscribes, subscribes) =
    let (free, after) = has_subscribed-waiting self self' e in
    subst (SingleAt (suc a) u s) after
      (take a self.in_flight.has_subscribed_free asks free, unsubscribes, subscribes)
Step-Single _ _ (ask_ends {self} {self'} {a} {u} {s} read state e)
      (asks, unsubscribes, subscribes) =
    subst (SingleAt a u s) (has_subscribed_ended read state self self' e)
      (release a self.in_flight.has_subscribed_free asks, unsubscribes, subscribes)

abbrev pub made : List (Uuid × ℕ) → Flight
made descriptors = record {
  self = make_characteristic descriptors;
  asks = 0;
  unsubscribes = 0;
  subscribes = 0;
}

-- Of a new characteristic's calls, at most one of each kind ever waits; `has_subscribed` and
-- `unsubscribe` can be called again as soon as the one before has returned.
pub one_in_flight :
    (descriptors : List (Uuid × ℕ)) (flight : Flight)
    → Steps (made descriptors) flight
    → Single flight
one_in_flight descriptors _ here = (refl, refl, omega arith)
one_in_flight descriptors _ (step {flight} {flight'} steps last) =
    Step-Single flight flight' last (one_in_flight descriptors flight steps)
