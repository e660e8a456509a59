-- ===== src/WhereAmI/Sender.antt =====
-- How the client sends a demand: `send_demand`, `demand_rssi` and `try_demand_rssi` of
-- client/src/CRssiDemander.cpp. What WinRT and the window do is not part of the model: a write ends
-- with a status, and a popup is the text of its title.
use Prim.Native.String.{String}
use ubiquitous_chainsaw.Base.{
  ℕ, zero, suc, ◌+◌, Bool, true, false, List, [], ◌∷◌, ◌++◌, Option, none, some, leb, if◌then◌else◌,
  Outcome, ok, ◌>>=◌,
}
use ubiquitous_chainsaw.Security.{Crypto}
use ubiquitous_chainsaw.Services.{uuid_service_whereami, uuid_characteristic_whereami_demand_rssi}
use ubiquitous_chainsaw.Gatt.{characteristic}
use ubiquitous_chainsaw.Characteristic.Status.{
  CommunicationStatus, success, unreachable, protocol_error, access_denied,
}
use ubiquitous_chainsaw.Server.State.{CServer, HasSubscribedResult, device, revoke_authentication}
use ubiquitous_chainsaw.WhereAmI.Demand.{make_packet_demand_rssi}

-- What `send_demand` does: it demands and resets its timer, it subscribes, or it does nothing.
pub data Sending : Type 0 where
  demands subscribes waits : Sending

unfoldable pub on_subscription : HasSubscribedResult → Sending
on_subscription HasSubscribedResult.subscribed = demands
on_subscription HasSubscribedResult.not_subscribed = subscribes
on_subscription HasSubscribedResult.not_authenticated = waits
on_subscription HasSubscribedResult.in_flight = waits

-- `lap` is the time since the timer was reset.
unfoldable pub send_demand : ℕ → ℕ → HasSubscribedResult → Sending
send_demand demand_interval lap result =
    if leb demand_interval lap then on_subscription result else waits

-- The characteristic and the packet that `demand_rssi` has for `try_demand_rssi`, where the client
-- holds a device with that characteristic and has its private key.
unfoldable pub demand_rssi :
    {C : Type 0} → Crypto → Option (List ℕ) → ℕ → List ℕ → CServer C → Outcome (Option (C × List ℕ))
demand_rssi c private_key draw block server = elim (device server) [
  | none ↦ ok none
  | some held ↦
      elim (characteristic held uuid_service_whereami uuid_characteristic_whereami_demand_rssi) [
        | none ↦ ok none
        | some found ↦ elim private_key [
          | none ↦ ok none
          | some key ↦
              make_packet_demand_rssi c key draw block >>= (λ packet. ok (some (found, packet)))
        ]
      ]
]

-- What the loop has done: the writes that it made, the server, and the popups.
pub record Attempts (C : Type 0) : Type 0 where
  pub writes : ℕ
  pub server : CServer C
  pub popups : List String

abbrev max_attemps : ℕ
max_attemps = 1

-- The switch over the status of a write: whether the loop is over, which `attempt = MAX_ATTEMPS`
-- makes it, and the rest.
unfoldable pub on_status : {C : Type 0} → CommunicationStatus → Attempts C → Bool × Attempts C
on_status unreachable self = (
  true,
  record self {
    server = revoke_authentication self.server;
    popups = self.popups ++ ("Unreachable" ∷ []);
  },
)
on_status success self = (true, self)
on_status access_denied self =
    (false, record self { popups = self.popups ++ ("Access Denied" ∷ "Protocol Error" ∷ []) })
on_status protocol_error self =
    (false, record self { popups = self.popups ++ ("Protocol Error" ∷ []) })

unfoldable pub write_once : {C : Type 0} → Attempts C → Attempts C
write_once self = record self { writes = self.writes + 1 }

-- The loop: `left` is `MAX_ATTEMPS - attempt`, and `write` the status of each write.
unfoldable pub attempts : {C : Type 0} → (ℕ → CommunicationStatus) → ℕ → Attempts C → Attempts C
attempts write zero self = self
attempts write (suc left) self =
    let r = on_status (write self.writes) (write_once self) in
    let rest = attempts write left r.1 in if r.0 then r.1 else rest

unfoldable pub try_demand_rssi : {C : Type 0} → (ℕ → CommunicationStatus) → CServer C → Attempts C
try_demand_rssi write server =
    attempts write max_attemps (record { writes = 0; server = server; popups = [] })
