-- ===== src/Gap/Tests.antt =====
-- The token's connections on a small host: the links it has, those it was asked to drop, and whether
-- it advertises.
use ubiquitous_chainsaw.Base.{
  ℕ, ◌≡◌, refl, Bool, true, false, List, [], ◌∷◌, none, some, ◌==◌, if◌then◌else◌, ok, arith, inr,
}
use ubiquitous_chainsaw.Base.Int.{negsuc}
use ubiquitous_chainsaw.Nimble.{success, no_connection}
use ubiquitous_chainsaw.Gap.Host.{Host, HostWorks, random_mac, busy}
use ubiquitous_chainsaw.Gap.Connection.{drop, drop_code, handle_ne}
use ubiquitous_chainsaw.Gap.Connection
use ubiquitous_chainsaw.Gap.Callback.{
  set_connection, active_connection, leave, accept, on_connect, event_callback,
}
use ubiquitous_chainsaw.Gap.Event.{Event, GapEvent, connect, disconnect, mtu}
use ubiquitous_chainsaw.Gap.Advertise
use ubiquitous_chainsaw.Gap.Advertise.{CGap}
use ubiquitous_chainsaw.Gap.Session.{gap, idle, session, run, run_follows}
use ubiquitous_chainsaw.Gap.Reached.{is_idle, constructed, called, Advertises-iff_idle}
use ubiquitous_chainsaw.Gap.Dropped.{second_client_is_dropped}

abbrev Links : Type 0
Links = List ℕ × List ℕ × Bool

unfoldable has : ℕ → List ℕ → Bool
has h [] = false
has h (k ∷ ks) = if h == k then true else has h ks

abbrev small_host : Host Links
small_host = record {
  conn_find = λ h s. has h s.0;
  terminate = λ h reason s. (if has h s.0 then success else no_connection, (s.0, h ∷ s.1, s.2));
  adv_start = λ t s. (success, (s.0, s.1, true));
  adv_stop = λ s. (success, (s.0, s.1, false));
  adv_active = λ s. s.2;
  adv_set_fields = λ fields s. (success, s);
  name_set = λ name s. (success, s);
  ensure_addr = λ s. (success, s);
  infer_auto = λ s. (success, random_mac);
  copy_addr = λ t s. success;
  flag_disc_gen_no_bredr = 6;
  tx_pwr_lvl_auto = negsuc 127;
}

abbrev asked_to_go : ℕ → Links → Bool
asked_to_go k s = has k s.1

small_host-HostWorks : HostWorks small_host asked_to_go
unfolding has
small_host-HostWorks = record {
  start_works = λ t s off. (refl, refl);
  stop_works = λ s on. refl;
  terminate_found = λ h reason s k found. refl;
  terminate_adv = λ h reason s. refl;
}

abbrev event : Event → ℕ → GapEvent
event type h = record { type = type; conn_handle = h }

begins : Advertise.make_gap small_host ([], [], false) ≡ ok (gap random_mac none, ([], [], true))
unfolding Advertise.make_gap Advertise.set_up Advertise.start_advertising
    Advertise.generate_random_device_address Advertise.check_address Advertise.is_random
    Advertise.print_ble_address Advertise.check_name Advertise.set_adv_fields
    Advertise.make_advertise_fields Advertise.adv_fields_code Advertise.check_adv_fields
    Advertise.check_started Advertise.begin_advertise Advertise.start_code
begins = refl

accepts :
    event_callback small_host (event connect 5) (gap random_mac none) (5 ∷ [], [], true)
    ≡ ok (gap random_mac (some 5), (5 ∷ [], [], false))
unfolding event_callback on_connect Connection.connection_handle active_connection accept
    set_connection Connection.move_assign Advertise.end_advertise leave Connection.destroy
accepts = refl

Advertises-iff_idle_example : small_host.adv_active (5 ∷ [], [], false) ≡ is_idle (some 5)
Advertises-iff_idle_example =
    Advertises-iff_idle small_host asked_to_go small_host-HostWorks (gap random_mac (some 5))
      (5 ∷ [], [], false)
      (called (5 ∷ [], [], true) (event connect 5) (constructed ([], [], false) begins) (inr refl)
        (omega arith) accepts)

run_follows_example :
    (self : CGap) × (s : Links) × (run small_host
        (event connect 5
          ∷ event connect 6
          ∷ event disconnect 6
          ∷ event mtu 5
          ∷ event disconnect 5
          ∷ [])
        (gap random_mac none)
        (5 ∷ 6 ∷ [], [], true)
      ≡ ok (self, s))
    × (session self.active_connection ≡ idle)
run_follows_example =
    run_follows small_host
      (event connect 5
        ∷ event connect 6
        ∷ event disconnect 6
        ∷ event mtu 5
        ∷ event disconnect 5
        ∷ [])
      (gap random_mac none) (5 ∷ 6 ∷ [], [], true)
      (omega arith, (omega arith, (omega arith, (omega arith, (omega arith, tt)))))

present : has 6 (5 ∷ 6 ∷ []) ≡ true
unfolding has
present = refl

second_client_is_dropped_example :
    (s' : Links) × (event_callback small_host
        (event connect 6)
        (gap random_mac (some 5))
        (5 ∷ 6 ∷ [], [], false)
      ≡ ok (gap random_mac (some 5), s'))
    × ((k : ℕ) → has k s'.1 ≡ (if k == 6 then true else has k []))
second_client_is_dropped_example =
    second_client_is_dropped small_host asked_to_go small_host-HostWorks random_mac 5 6
      (5 ∷ 6 ∷ [], [], false) (omega arith) present

drops_absent :
    drop small_host (some 7) busy ([], [], true) ≡ ok (some no_connection, ([], 7 ∷ [], true))
unfolding drop drop_code has
drops_absent = refl

-- Equal handles are also said to differ.
equal_handles_differ : handle_ne 5 5 ≡ true
unfolding handle_ne
equal_handles_differ = refl
