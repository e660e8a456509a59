-- ===== src/Characteristic/Subscription.antt =====
-- `CCharacteristic` and its subscription, client/src/bluetoothLE/windows/CCharacteristic.hpp and
-- .cpp. WinRT is not part of the repository; a coroutine is two functions, up to its `co_await` and
-- from there on, and what was awaited is an argument of the second. WinRT's object is valid.
use ubiquitous_chainsaw.Base.{
  ℕ, ◌/◌, ◌%◌, ◌^◌, Bool, true, false, ◌||◌, List, [], ◌∷◌, Option, none, some, ◌==◌, if◌then◌else◌,
  Outcome, ok, stop, assertion,
}
use ubiquitous_chainsaw.Services.{
  Uuid, uuid_descriptor_client_characteristic_configuration_descriptor,
}
use ubiquitous_chainsaw.Gatt.{find}
use ubiquitous_chainsaw.Characteristic.Status.{
  CommunicationStatus, success, SubscriptionState, subscribed, not_subscribed, in_flight,
}

-- The binary semaphores of `m_InFlight`: whether each can be acquired.
pub record InFlight : Type 0 where
  pub has_subscribed_free : Bool
  pub unsubscribe_free : Bool
  pub subscribe_free : Bool

-- `notify_event_handler` is the handler, by its name; `registered` is whether `m_Revoker` holds the
-- registration of the callback.
pub record CCharacteristic : Type 0 where
  pub descriptors : List (Uuid × ℕ)
  pub notify_event_handler : Option ℕ
  pub registered : Bool
  pub in_flight : InFlight

abbrev pub make_characteristic : List (Uuid × ℕ) → CCharacteristic
make_characteristic descriptors = record {
  descriptors = descriptors;
  notify_event_handler = none;
  registered = false;
  in_flight = record { has_subscribed_free = true; unsubscribe_free = true; subscribe_free = true };
}

-- What an awaited call of WinRT ends with: a status, or an exception.
pub data Awaited : Type 0 where
  status : CommunicationStatus → Awaited
  thrown : Awaited

-- What a call of a coroutine comes to at first: it waits, or it has returned.
pub data Begun : Type 0 where
  waiting : CCharacteristic → Begun
  returned : SubscriptionState → CCharacteristic → Begun

unfoldable pub revoke_value_changed_handler : CCharacteristic → CCharacteristic
revoke_value_changed_handler self =
    if self.registered then (record self { registered = false }) else self

unfoldable pub register_value_changed_handler : CCharacteristic → CCharacteristic
register_value_changed_handler self = record self { registered = true }

-- `value_changed_handler` at a new value, while it is registered: the handler that gets it.
unfoldable pub value_changed : CCharacteristic → List ℕ → Outcome (ℕ × List ℕ)
value_changed self value = elim self.notify_event_handler [
  | none ↦ stop assertion
  | some handler ↦ ok (handler, value)
]

unfoldable pub subscribe_to_notify : ℕ → CCharacteristic → Begun
subscribe_to_notify cb self =
    if self.in_flight.subscribe_free
    then waiting (
        register_value_changed_handler (record self {
          in_flight = record self.in_flight { subscribe_free = false };
          notify_event_handler = some cb;
        }))
    else returned in_flight self

unfoldable pub subscribe_written : Awaited → CCharacteristic → SubscriptionState × CCharacteristic
subscribe_written (status success) self = (subscribed, self)
subscribe_written (status _) self = (not_subscribed, self)
subscribe_written thrown self = (not_subscribed, self)

unfoldable pub unsubscribe : CCharacteristic → Begun
unsubscribe self =
    if self.in_flight.unsubscribe_free
    then waiting (
        revoke_value_changed_handler
          (record self { in_flight = record self.in_flight { unsubscribe_free = false } }))
    else returned in_flight self

unfoldable pub release_unsubscribe : CCharacteristic → CCharacteristic
release_unsubscribe self = record self {
  in_flight = record self.in_flight { unsubscribe_free = true };
}

unfoldable pub unsubscribe_written : Awaited → CCharacteristic → SubscriptionState × CCharacteristic
unsubscribe_written (status success) self = (not_subscribed, release_unsubscribe self)
unsubscribe_written (status _) self = (subscribed, release_unsubscribe self)
unsubscribe_written thrown self = (subscribed, release_unsubscribe self)

unfoldable pub has_subscribed : CCharacteristic → Outcome Begun
has_subscribed self =
    elim (find uuid_descriptor_client_characteristic_configuration_descriptor self.descriptors) [
      | none ↦ stop assertion
      | some descriptor ↦ ok (
          if self.in_flight.has_subscribed_free
          then waiting
              (record self { in_flight = record self.in_flight { has_subscribed_free = false } })
          else returned in_flight self)
    ]

unfoldable pub bit : ℕ → ℕ → Bool
bit k byte = byte / 2 ^ k % 2 == 1

-- Whether `data[0] | data[1]` has the bit of `Notify`, 1, or that of `Indicate`, 2.
unfoldable pub subscription_of : ℕ → ℕ → SubscriptionState
subscription_of low high =
    if (bit 0 low || bit 0 high) || (bit 1 low || bit 1 high) then subscribed else not_subscribed

unfoldable pub release_has_subscribed : CCharacteristic → CCharacteristic
release_has_subscribed self = record self {
  in_flight = record self.in_flight { has_subscribed_free = true };
}

-- `none` is an error of the read.
unfoldable pub has_subscribed_read :
    Option (List ℕ) → CCharacteristic → Outcome (SubscriptionState × CCharacteristic)
has_subscribed_read none self = ok (not_subscribed, release_has_subscribed self)
has_subscribed_read (some []) self = stop assertion
has_subscribed_read (some (b ∷ [])) self = stop assertion
has_subscribed_read (some (low ∷ high ∷ rest)) self =
    ok (subscription_of low high, release_has_subscribed self)
