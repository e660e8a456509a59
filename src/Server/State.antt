-- ===== src/Server/State.antt =====
-- The state of `CServer` and its operations. A `shared_ptr` to a device is the device.
use ubiquitous_chainsaw.Base.{
  ℕ, suc, zero, Bool, true, false, List, [], ◌∷◌, length, Option, none, some, if◌then◌else◌,
  Outcome, ok, stop, undefined, assertion, ◌>>=◌,
}
use ubiquitous_chainsaw.Address.{hex_addr_to_str}
use ubiquitous_chainsaw.Services.{
  uuid_service_whereami, uuid_characteristic_whereami_rssi_notification,
}
use ubiquitous_chainsaw.Gatt.{Device, characteristic}
use ubiquitous_chainsaw.Queue
use ubiquitous_chainsaw.Characteristic.Status.{
  ConnectionStatus, connected, disconnected, SubscriptionState,
}
use ubiquitous_chainsaw.Scanner.Info.{DeviceInfo}

pub record AuthenticatedDevice {ℓ} (C : Type ℓ) : Type ℓ where
  pub device : Device C
  pub info : DeviceInfo

pub record CServer {ℓ} (C : Type ℓ) : Type ℓ where
  pub server : Option (AuthenticatedDevice C)
  pub server_key : Option (List ℕ)
  pub devices : List DeviceInfo

pub data HasSubscribedResult : Type 0 where
  subscribed not_subscribed not_authenticated in_flight : HasSubscribedResult

unfoldable pub result_of : SubscriptionState → HasSubscribedResult
result_of SubscriptionState.subscribed = HasSubscribedResult.subscribed
result_of SubscriptionState.not_subscribed = HasSubscribedResult.not_subscribed
result_of SubscriptionState.in_flight = HasSubscribedResult.in_flight

-- The loop of `process_queue`: the devices for which it starts a coroutine, in their order. Each
-- turn takes one of the queue, whose length is fuel enough.
unfoldable pub process : ℕ → List DeviceInfo → Outcome (List DeviceInfo × List DeviceInfo)
process zero queue = ok ([], queue)
process (suc fuel) queue =
    if Queue.empty queue
    then ok ([], queue)
    else Queue.pop queue >>= (λ r. process fuel r.1 >>= (λ q. ok (r.0 ∷ q.0, q.1)))

module _ {ℓ} {C : Type ℓ} where
  -- The constructor; `loaded` is what `load_key` returns.
  unfoldable pub make_server : Option (List ℕ) → CServer C
  make_server loaded = record { server = none; server_key = loaded; devices = [] }

  -- The copy constructor and the copy assignment, which load the key anew.
  unfoldable pub copy_server : Option (List ℕ) → CServer C → CServer C
  copy_server loaded other = record other { server_key = loaded }

  unfoldable pub grant_authentication : AuthenticatedDevice C → CServer C → CServer C
  grant_authentication device self = record self { server = some device }

  unfoldable pub revoke_authentication : CServer C → CServer C
  revoke_authentication self = record self { server = none }

  unfoldable pub reload_public_key : Option (List ℕ) → CServer C → Bool × CServer C
  reload_public_key none self = (false, record self { server_key = none })
  reload_public_key (some key) self = (true, record self { server_key = some key })

  -- `connected`, where the first argument is that of a device.
  unfoldable pub connected_with : (Device C → Bool) → CServer C → Bool
  connected_with device_connected self = elim self.server [
    | none ↦ false
    | some held ↦ device_connected held.device
  ]

  unfoldable pub is_authenticated : CServer C → Bool
  is_authenticated self = elim self.server [ none ↦ false | some held ↦ true ]

  unfoldable pub device : CServer C → Option (Device C)
  device self = elim self.server [ none ↦ none | some held ↦ some held.device ]

  -- `m_Server->` without a server is undefined; `none` is that `value` throws, without an address.
  unfoldable pub server_address : CServer C → Outcome (Option ℕ)
  server_address self = elim self.server [
    | none ↦ stop undefined
    | some held ↦ ok held.info.address
  ]

  unfoldable pub server_address_as_str : CServer C → Outcome (Option (List ℕ))
  server_address_as_str self = elim self.server [
    | none ↦ stop undefined
    | some held ↦
        ok (elim held.info.address [ none ↦ none | some address ↦ some (hex_addr_to_str address) ])
  ]

  -- The characteristic that `subscribe` and `unsubscribe` act on, if the client is authenticated and
  -- the token has it.
  unfoldable pub notification_characteristic : CServer C → Option C
  notification_characteristic self = elim (device self) [
    | none ↦ none
    | some held ↦
        characteristic held uuid_service_whereami uuid_characteristic_whereami_rssi_notification
  ]

  -- `has_subscribed`, where the first argument is that of the characteristic.
  unfoldable pub has_subscribed_with :
      (C → SubscriptionState) → CServer C → Outcome HasSubscribedResult
  has_subscribed_with state self = elim (device self) [
    | none ↦ ok not_authenticated
    | some held ↦
        elim (characteristic held uuid_service_whereami
          uuid_characteristic_whereami_rssi_notification) [
            | none ↦ stop assertion
            | some found ↦ ok (result_of (state found))
          ]
  ]

  -- The callback of `make_connection_changed_cb`.
  unfoldable pub connection_changed : ConnectionStatus → CServer C → CServer C
  connection_changed connected self = self
  connection_changed disconnected self = revoke_authentication self

  unfoldable pub process_queue : CServer C → Outcome (List DeviceInfo × CServer C)
  process_queue self = do
    (fired, rest) ← process (length self.devices) self.devices
    ok (fired, record self { devices = rest })

  unfoldable pub enqueue_devices :
      List DeviceInfo → CServer C → Outcome (List DeviceInfo × CServer C)
  enqueue_devices infos self =
      process_queue (record self { devices = Queue.push_all infos self.devices })
