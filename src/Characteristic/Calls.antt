-- ===== src/Characteristic/Calls.antt =====
-- The calls of a characteristic: how they come to wait and are resumed, and what becomes of the
-- semaphores.
use ubiquitous_chainsaw.Base.{
  ℕ, suc, ◌≡◌, refl, sym, ap, ◌∙◌, true, false, List, ◌∷◌, Option, none, some, Outcome, ok, stop,
  assertion, Option-cases, Bool-cases, inl, inr, ok_injective,
}
use ubiquitous_chainsaw.Services.{uuid_descriptor_client_characteristic_configuration_descriptor}
use ubiquitous_chainsaw.Gatt.{find}
use ubiquitous_chainsaw.Characteristic.Status.{SubscriptionState, success}
use ubiquitous_chainsaw.Characteristic.Subscription.{
  CCharacteristic, Awaited, status, thrown, Begun, waiting, returned, revoke_value_changed_handler,
  register_value_changed_handler, subscribe_to_notify, subscribe_written, unsubscribe,
  unsubscribe_written, release_unsubscribe, has_subscribed, has_subscribed_read,
  release_has_subscribed,
}

-- A characteristic and the numbers of calls of each kind that wait.
pub record Flight : Type 0 where
  pub self : CCharacteristic
  pub asks : ℕ
  pub unsubscribes : ℕ
  pub subscribes : ℕ

-- A call that comes to wait, and one that is resumed.
pub data Step : Flight → Flight → Type 0 where
  subscribe_waits :
      {self self' : CCharacteristic} {a u s : ℕ} (cb : ℕ)
      → subscribe_to_notify cb self ≡ waiting self'
      → Step
          (record { self = self; asks = a; unsubscribes = u; subscribes = s })
          (record { self = self'; asks = a; unsubscribes = u; subscribes = suc s })
  subscribe_ends :
      {self : CCharacteristic} {a u s : ℕ} (written : Awaited)
      → Step
          (record { self = self; asks = a; unsubscribes = u; subscribes = suc s })
          (record {
            self = (subscribe_written written self).1;
            asks = a;
            unsubscribes = u;
            subscribes = s;
          })
  unsubscribe_waits :
      {self self' : CCharacteristic} {a u s : ℕ}
      → unsubscribe self ≡ waiting self'
      → Step
          (record { self = self; asks = a; unsubscribes = u; subscribes = s })
          (record { self = self'; asks = a; unsubscribes = suc u; subscribes = s })
  unsubscribe_ends :
      {self : CCharacteristic} {a u s : ℕ} (written : Awaited)
      → Step
          (record { self = self; asks = a; unsubscribes = suc u; subscribes = s })
          (record {
            self = (unsubscribe_written written self).1;
            asks = a;
            unsubscribes = u;
            subscribes = s;
          })
  ask_waits :
      {self self' : CCharacteristic} {a u s : ℕ}
      → has_subscribed self ≡ ok (waiting self')
      → Step
          (record { self = self; asks = a; unsubscribes = u; subscribes = s })
          (record { self = self'; asks = suc a; unsubscribes = u; subscribes = s })
  ask_ends :
      {self self' : CCharacteristic} {a u s : ℕ} (read : Option (List ℕ))
      (state : SubscriptionState)
      → has_subscribed_read read self ≡ ok (state, self')
      → Step
          (record { self = self; asks = suc a; unsubscribes = u; subscribes = s })
          (record { self = self'; asks = a; unsubscribes = u; subscribes = s })

pub data Steps (start : Flight) : Flight → Type 0 where
  here : Steps start start
  step : {flight flight' : Flight} → Steps start flight → Step flight flight' → Steps start flight'

waiting_injective : {x y : CCharacteristic} → waiting x ≡ waiting y → x ≡ y
waiting_injective e = cc

not_waiting : {x y : CCharacteristic} {state : SubscriptionState} → returned state x ≡ waiting y → ⊥
not_waiting e = cc

pub subscribe-waiting :
    (cb : ℕ) (self self' : CCharacteristic)
    → subscribe_to_notify cb self ≡ waiting self'
    → (self.in_flight.subscribe_free ≡ true)
      × ((record self.in_flight { subscribe_free = false }) ≡ self'.in_flight)
unfolding register_value_changed_handler subscribe_to_notify
subscribe-waiting cb self self' e = elim (Bool-cases self.in_flight.subscribe_free) [
  | inl t ↦ (t, ap (λ c. c.in_flight) (waiting_injective (rw (t, subscribe_to_notify) at e)))
  | inr f ↦ absurd (not_waiting (rw (f, subscribe_to_notify) at e))
]

revoked_flight :
    (self : CCharacteristic) → (revoke_value_changed_handler self).in_flight ≡ self.in_flight
unfolding revoke_value_changed_handler
revoked_flight self = elim (Bool-cases self.registered) [ inl e ↦ rw (e) | inr e ↦ rw (e) ]

pub unsubscribe-waiting :
    (self self' : CCharacteristic)
    → unsubscribe self ≡ waiting self'
    → (self.in_flight.unsubscribe_free ≡ true)
      × ((record self.in_flight { unsubscribe_free = false }) ≡ self'.in_flight)
unfolding unsubscribe
unsubscribe-waiting self self' e = elim (Bool-cases self.in_flight.unsubscribe_free) [
  | inl t ↦ (
    t,
    sym (revoked_flight _) ∙ ap (λ c. c.in_flight) (waiting_injective (rw (t, unsubscribe) at e)),
  )
  | inr f ↦ absurd (not_waiting (rw (f, unsubscribe) at e))
]

pub has_subscribed-waiting :
    (self self' : CCharacteristic)
    → has_subscribed self ≡ ok (waiting self')
    → (self.in_flight.has_subscribed_free ≡ true)
      × ((record self.in_flight { has_subscribed_free = false }) ≡ self'.in_flight)
unfolding has_subscribed
has_subscribed-waiting self self' e =
    elim (Option-cases
      (find uuid_descriptor_client_characteristic_configuration_descriptor self.descriptors)) [
        | inl n ↦ absurd (not_ok (rw (n, has_subscribed) at e))
        | inr (d, found) ↦ elim (Bool-cases self.in_flight.has_subscribed_free) [
          | inl t ↦ (
            t,
            ap (λ c. c.in_flight)
                (waiting_injective (ok_injective (rw (found, t, has_subscribed) at e))),
          )
          | inr f ↦ absurd (not_waiting (ok_injective (rw (found, f, has_subscribed) at e)))
        ]
      ]
  where
    not_ok : {b : Begun} → ◌≡◌ {A = Outcome Begun} (stop assertion) (ok b) → ⊥
    not_ok e = cc

pub subscribe_ended :
    (written : Awaited) (self : CCharacteristic) → (subscribe_written written self).1 ≡ self
unfolding subscribe_written
subscribe_ended (status success) self = refl
subscribe_ended (status code) self = refl
subscribe_ended thrown self = refl

pub unsubscribe_ended :
    (written : Awaited) (self : CCharacteristic)
    → (unsubscribe_written written self).1.in_flight
      ≡ (record self.in_flight { unsubscribe_free = true })
unfolding unsubscribe_written release_unsubscribe
unsubscribe_ended (status success) self = refl
unsubscribe_ended (status code) self = refl
unsubscribe_ended thrown self = refl

pub has_subscribed_ended :
    (read : Option (List ℕ)) (state : SubscriptionState) (self self' : CCharacteristic)
    → has_subscribed_read read self ≡ ok (state, self')
    → (record self.in_flight { has_subscribed_free = true }) ≡ self'.in_flight
unfolding has_subscribed_read release_has_subscribed
has_subscribed_ended none state self self' e = ap (λ r. r.1.in_flight) (ok_injective e)
has_subscribed_ended (some (low ∷ high ∷ rest)) state self self' e =
    ap (λ r. r.1.in_flight) (ok_injective e)
has_subscribed_ended (some bytes) state self self' e = absurd cc
