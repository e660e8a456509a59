-- ===== src/Characteristic/Once.antt =====
-- A characteristic can be subscribed to once.
use ubiquitous_chainsaw.Base.{ℕ, ◌≡◌, sym, ap, false}
use mathlib.Core.Path.{subst}
use ubiquitous_chainsaw.Characteristic.Status.{in_flight}
use ubiquitous_chainsaw.Characteristic.Subscription.{
  CCharacteristic, waiting, returned, subscribe_to_notify,
}
use ubiquitous_chainsaw.Characteristic.Calls.{
  Flight, Step, subscribe_waits, subscribe_ends, unsubscribe_waits, unsubscribe_ends, ask_waits,
  ask_ends, Steps, here, step, subscribe-waiting, unsubscribe-waiting, has_subscribed-waiting,
  subscribe_ended, unsubscribe_ended, has_subscribed_ended,
}

-- The semaphore of `subscribe` is taken.
abbrev Taken : Flight → Type 0
Taken flight = flight.self.in_flight.subscribe_free ≡ false

Step-Taken : (flight flight' : Flight) → Step flight flight' → Taken flight → Taken flight'
Step-Taken _ _ (subscribe_waits {self} {self'} cb e) taken =
    sym (ap (λ f. f.subscribe_free) (subscribe-waiting cb self self' e).1)
Step-Taken _ _ (subscribe_ends {self} written) taken =
    subst (λ c. c.in_flight.subscribe_free ≡ false) (sym (subscribe_ended written self)) taken
Step-Taken _ _ (unsubscribe_waits {self} {self'} e) taken =
    subst (λ f. f.subscribe_free ≡ false) (unsubscribe-waiting self self' e).1 taken
Step-Taken _ _ (unsubscribe_ends {self} written) taken =
    subst (λ f. f.subscribe_free ≡ false) (sym (unsubscribe_ended written self)) taken
Step-Taken _ _ (ask_waits {self} {self'} e) taken =
    subst (λ f. f.subscribe_free ≡ false) (has_subscribed-waiting self self' e).1 taken
Step-Taken _ _ (ask_ends {self} {self'} read state e) taken =
    subst (λ f. f.subscribe_free ≡ false) (has_subscribed_ended read state self self' e) taken

Steps-Taken : (start flight : Flight) → Steps start flight → Taken start → Taken flight
Steps-Taken start _ here taken = taken
Steps-Taken start _ (step {flight} {flight'} steps last) taken =
    Step-Taken flight flight' last (Steps-Taken start flight steps taken)

-- After the first call of `subscribe_to_notify` that came to wait, each later one returns `inFlight`
-- and changes nothing, whatever the first one ended with and whatever was called since.
pub subscribes_once :
    (cb cb' : ℕ) (self self' : CCharacteristic) (a u s : ℕ) (flight : Flight)
    → subscribe_to_notify cb self ≡ waiting self'
    → Steps (record { self = self'; asks = a; unsubscribes = u; subscribes = s }) flight
    → subscribe_to_notify cb' flight.self ≡ returned in_flight flight.self
unfolding subscribe_to_notify
subscribes_once cb cb' self self' a u s flight e steps = rw (
    Steps-Taken _ flight steps
      (sym (ap (λ f. f.subscribe_free) (subscribe-waiting cb self self' e).1)))
