-- ===== src/Gap/Session.antt =====
-- The callback as a state machine: the token serves one client or none.
use ubiquitous_chainsaw.Base.{
  ℕ, ◌<◌, ◌^◌, ◌≡◌, refl, sym, ap, Bool, true, false, none, some, List, [], ◌∷◌, ◌==◌, Bool-cases,
  inl, inr, if◌then◌else◌, Outcome, ok, ◌>>=◌,
}
use ubiquitous_chainsaw.Gap.Host.{Host, AddressType, completed}
use ubiquitous_chainsaw.Gap.Connection.{
  CConnection, connection_handle-ok, connection_eq, handle_eq, move_assign, drop, logged, destroy,
}
use ubiquitous_chainsaw.Gap.Event.{Event, GapEvent, connect, disconnect, gap_event_to_str}
use ubiquitous_chainsaw.Gap.Advertise.{CGap}
use ubiquitous_chainsaw.Gap.Callback.{
  set_connection, clear_connection, active_connection, leave, accept, refuse, on_connect, lost,
  compare_lost, on_disconnect, on_other, event_callback,
}

pub data Session : Type 0 where
  idle : Session
  serving : ℕ → Session

abbrev pub session : CConnection → Session
session none = idle
session (some handle) = serving handle

-- The client that came first is served until its own connection ends.
abbrev pub next : Event → ℕ → Session → Session
next connect h idle = serving h
next disconnect h (serving k) = if k == h then idle else serving k
next event h state = state

-- The events in the order in which the host reports them.
unfoldable pub run : {S : Type 0} → Host S → List GapEvent → CGap → S → Outcome (CGap × S)
run host [] self s = ok (self, s)
run host (event ∷ events) self s =
    event_callback host event self s >>= (λ r. run host events r.0 r.1)

abbrev pub sessions : List GapEvent → Session → Session
sessions [] state = state
sessions (event ∷ events) state = sessions events (next event.type event.conn_handle state)

-- Handles of the host are of 16 bits.
abbrev pub Handles : List GapEvent → Type 0
Handles [] = Unit {0}
Handles (event ∷ events) = (event.conn_handle < 2 ^ 16) × Handles events

-- The call returns, and leaves the connection so.
abbrev pub Leaves : {S : Type 0} → Outcome (CGap × S) → Session → Type 0
Leaves {S} call state =
    (self : CGap) × (s : S) × (call ≡ ok (self, s)) × (session self.active_connection ≡ state)

abbrev pub gap : AddressType → CConnection → CGap
gap t c = record { ble_address_type = t; active_connection = c }

module _ {S : Type 0} (host : Host S) where
  pub destroy_returns : (c : CConnection) (s : S) → (s' : S) × (destroy host c s ≡ ok s')
  unfolding destroy drop logged
  destroy_returns none s = (s, refl)
  destroy_returns (some h) s = tested (host.conn_find h s)
    where
      tested :
          (found : Bool)
          → (s' : S) × ((if found then drop host (some h) completed s >>= logged else ok s) ≡ ok s')
      tested true = (_, refl)
      tested false = (s, refl)

  -- Nothing but the state of the host changes when a connection is destroyed.
  left : (c : CConnection) (r : CGap × S) → Leaves (leave host c r) (session r.0.active_connection)
  unfolding leave
  left c (self, s) = let (s', e) = destroy_returns c s in (self, s', rw (e), refl)

  connects :
      (t : AddressType) (c : CConnection) (h : ℕ) (s : S)
      → h < 2 ^ 16
      → Leaves (on_connect host (gap t c) h s) (next connect h (session c))
  unfolding on_connect active_connection accept refuse set_connection move_assign drop logged
  connects t none h s small = rw (connection_handle-ok h small) (left none (gap t (some h), _))
  connects t (some k) h s small =
      rw (connection_handle-ok h small) (left (some h) (gap t (some k), _))

  lost_session : (self : CGap) (s : S) → (lost host self s).0.active_connection ≡ none
  unfolding lost clear_connection set_connection move_assign
  lost_session self s = elim (Bool-cases (host.adv_active s)) [ inl e ↦ rw (e) | inr e ↦ rw (e) ]

  compares :
      (t : AddressType) (k h : ℕ) (s : S)
      → Leaves
          (compare_lost host (gap t (some k)) (some k) (some h) s)
          (next disconnect h (serving k))
  unfolding compare_lost connection_eq handle_eq
  compares t k h s = elim (Bool-cases (k == h)) [
    | inl e ↦
        rw (e, sym (ap session (lost_session (gap t (some k)) s)))
          (left (some h) (lost host (gap t (some k)) s))
    | inr e ↦ rw (e) (left (some h) (gap t (some k), s))
  ]

  disconnects :
      (t : AddressType) (c : CConnection) (h : ℕ) (s : S)
      → h < 2 ^ 16
      → Leaves (on_disconnect host (gap t c) h s) (next disconnect h (session c))
  unfolding on_disconnect active_connection
  disconnects t none h s small = (_, _, refl, refl)
  disconnects t (some k) h s small = rw (connection_handle-ok h small) (compares t k h s)

  event_follows :
      (event : Event) (h : ℕ) (self : CGap) (s : S)
      → h < 2 ^ 16
      → Leaves
          (event_callback host (record { type = event; conn_handle = h }) self s)
          (next event h (session self.active_connection))
  unfolding event_callback on_other gap_event_to_str
  event_follows connect h self s small =
      connects self.ble_address_type self.active_connection h s small
  event_follows disconnect h self s small =
      disconnects self.ble_address_type self.active_connection h s small
  event_follows event h self s small = (self, s, refl, refl)

  -- Whatever the host's calls return, the callback returns after each event and the token is in the
  -- state of the machine that serves the first client until its connection ends, where the handles
  -- are of 16 bits.
  pub run_follows :
      (events : List GapEvent) (self : CGap) (s : S)
      → Handles events
      → Leaves (run host events self s) (sessions events (session self.active_connection))
  unfolding run
  run_follows [] self s small = (self, s, refl, refl)
  run_follows (event ∷ events) self s (first, rest) =
      let (self', s', e, state) = event_follows event.type event.conn_handle self s first in
      let (last, t, e', state') = run_follows events self' s' rest in
      (last, t, rw (e) e', rw (sym state) state')
