-- ===== src/Characteristic/Tests.antt =====
-- A characteristic that can be subscribed to.
use ubiquitous_chainsaw.Base.{ℕ, ◌≡◌, refl, true, false, List, [], ◌∷◌, some, ok}
use ubiquitous_chainsaw.Services.{Uuid}
use ubiquitous_chainsaw.Characteristic.Status.{in_flight, success, subscribed}
use ubiquitous_chainsaw.Characteristic.Properties
use ubiquitous_chainsaw.Characteristic.Described.{single_line, property_line-single_line}
use ubiquitous_chainsaw.Characteristic.Subscription.{
  CCharacteristic, make_characteristic, status, waiting, returned, subscribe_to_notify,
  register_value_changed_handler, unsubscribe, unsubscribe_written, revoke_value_changed_handler,
  subscription_of, bit, value_changed,
}
use ubiquitous_chainsaw.Characteristic.Calls.{
  here, step, subscribe_waits, unsubscribe_waits, unsubscribe_ends,
}
use ubiquitous_chainsaw.Characteristic.Flight.{Single, one_in_flight}
use ubiquitous_chainsaw.Characteristic.Once.{subscribes_once}

abbrev descriptors : List (Uuid × ℕ)
descriptors = []

abbrev subscribing : CCharacteristic
subscribing = record {
  descriptors = descriptors;
  notify_event_handler = some 1;
  registered = true;
  in_flight = record {
    has_subscribed_free = true;
    unsubscribe_free = true;
    subscribe_free = false;
  };
}

abbrev unsubscribing : CCharacteristic
unsubscribing = record subscribing {
  registered = false;
  in_flight = record subscribing.in_flight { unsubscribe_free = false };
}

subscribes : subscribe_to_notify 1 (make_characteristic descriptors) ≡ waiting subscribing
unfolding subscribe_to_notify register_value_changed_handler
subscribes = refl

leaves : unsubscribe subscribing ≡ waiting unsubscribing
unfolding unsubscribe revoke_value_changed_handler
leaves = refl

one_in_flight_example :
    Single (record { self = unsubscribing; asks = 0; unsubscribes = 1; subscribes = 1 })
one_in_flight_example =
    one_in_flight descriptors
      (record { self = unsubscribing; asks = 0; unsubscribes = 1; subscribes = 1 })
      (step (step here (subscribe_waits 1 subscribes)) (unsubscribe_waits leaves))

-- The client has subscribed, and unsubscribed again: it can not subscribe any more.
subscribes_once_example :
    subscribe_to_notify 2 (unsubscribe_written (status success) unsubscribing).1
    ≡ returned in_flight (unsubscribe_written (status success) unsubscribing).1
subscribes_once_example =
    subscribes_once 1 2 (make_characteristic descriptors) subscribing 0 0 1
      (record {
        self = (unsubscribe_written (status success) unsubscribing).1;
        asks = 0;
        unsubscribes = 0;
        subscribes = 1;
      })
      subscribes (step (step here (unsubscribe_waits leaves)) (unsubscribe_ends (status success)))

property_line-single_line_example : Properties.property_line 0x12 ≡ single_line 0x12
property_line-single_line_example = property_line-single_line 0x12

notifies : subscription_of 1 0 ≡ subscribed
unfolding subscription_of bit
notifies = refl

handled : value_changed subscribing (5 ∷ []) ≡ ok (1, 5 ∷ [])
unfolding value_changed
handled = refl

unchanged : Properties.complement 0x12 ≡ 0x12
unfolding Properties.complement
unchanged = refl

converted : Properties.to_props_from_winrt 0x1412 ≡ 0x12
unfolding Properties.to_props_from_winrt Properties.collect Properties.includes
converted = refl
