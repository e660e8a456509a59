-- ===== src/WhereAmI/Sent.antt =====
-- What a demand leaves of the authentication.
use ubiquitous_chainsaw.Base.{ℕ, ◌≡◌, ◌↔◌, refl, true, false}
use ubiquitous_chainsaw.Characteristic.Status.{
  CommunicationStatus, success, unreachable, protocol_error, access_denied,
}
use ubiquitous_chainsaw.Server.State.{CServer, is_authenticated, revoke_authentication}
use ubiquitous_chainsaw.WhereAmI.Sender.{on_status, write_once, attempts, try_demand_rssi}

-- One and the same status at each write.
ended :
    {C : Type 0} (status : CommunicationStatus) (server : CServer C)
    → is_authenticated server ≡ true
    → ((try_demand_rssi (λ i. status) server).writes ≡ 1)
      × ((is_authenticated (try_demand_rssi (λ i. status) server).server ≡ false)
          ↔ (status ≡ unreachable))
unfolding try_demand_rssi attempts on_status write_once revoke_authentication is_authenticated
ended unreachable server held = (refl, (λ e. refl, λ e. refl))
ended success server held = (refl, (λ e. cc, λ e. cc))
ended access_denied server held = (refl, (λ e. cc, λ e. cc))
ended protocol_error server held = (refl, (λ e. cc, λ e. cc))

-- A demand is written once, whatever comes of it, and the authentication is given up exactly if the
-- token was unreachable; the client holds a token before.
pub demand_is_written_once :
    {C : Type 0} (write : ℕ → CommunicationStatus) (server : CServer C)
    → is_authenticated server ≡ true
    → ((try_demand_rssi write server).writes ≡ 1)
      × ((is_authenticated (try_demand_rssi write server).server ≡ false) ↔ (write 0 ≡ unreachable))
unfolding try_demand_rssi attempts on_status write_once
demand_is_written_once write server held = ended (write 0) server held
