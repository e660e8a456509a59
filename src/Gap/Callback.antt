-- ===== src/Gap/Callback.antt =====
-- The callback of server/main/ble/CGap.cpp for the events of the host.
use ubiquitous_chainsaw.Base.{ℕ, not, Option, none, some, if◌then◌else◌, Outcome, ok, ◌>>=◌}
use ubiquitous_chainsaw.Nimble.{NimbleErrorCode}
use ubiquitous_chainsaw.Gap.Host.{Host, DropCode, busy}
use ubiquitous_chainsaw.Gap.Connection.{
  CConnection, connection_handle, connection_eq, is_connected, move_assign, drop, logged, destroy,
}
use ubiquitous_chainsaw.Gap.Event.{Event, GapEvent, connect, disconnect, gap_event_to_str}
use ubiquitous_chainsaw.Gap.Advertise.{CGap, begin_advertise, end_advertise}

-- The new state, and what is left of the connection that is move_assign in.
unfoldable pub set_connection : CConnection → CGap → CGap × CConnection
set_connection new self =
    let (connection, rest) = move_assign self.active_connection new in
    (record self { active_connection = connection }, rest)

unfoldable pub clear_connection : CGap → CGap
clear_connection self = (set_connection none self).0

unfoldable pub active_connection : CGap → Option CConnection
active_connection self =
    if is_connected self.active_connection then some self.active_connection else none

unfoldable pub drop_connection :
    {S : Type 0} → Host S → CGap → DropCode → S → Outcome (Option NimbleErrorCode × S)
drop_connection host self reason s = drop host self.active_connection reason s

-- The end of the scope of `connection`, which destroys it.
unfoldable pub leave : {S : Type 0} → Host S → CConnection → CGap × S → Outcome (CGap × S)
leave host connection (self, s) = destroy host connection s >>= (λ last. ok (self, last))

-- A new connection while there is none: `connection` is move_assign in and then destroyed.
unfoldable pub accept : {S : Type 0} → Host S → CGap → CConnection → S → Outcome (CGap × S)
accept host self connection s =
    let (self', rest) = set_connection connection self in
    let s' = if host.adv_active s then (end_advertise host s).1 else s in
    leave host rest (self', s')

-- A new connection while there is one: it is dropped, and then destroyed.
unfoldable pub refuse : {S : Type 0} → Host S → CGap → CConnection → S → Outcome (CGap × S)
refuse host self connection s = do
  dropped ← drop host connection busy s
  s' ← logged dropped
  leave host connection (self, s')

unfoldable pub on_connect : {S : Type 0} → Host S → CGap → ℕ → S → Outcome (CGap × S)
on_connect host self conn_handle s = do
  handle ← connection_handle conn_handle
  elim (active_connection self) [
    | none ↦ accept host self (some handle) s
    | some active ↦ refuse host self (some handle) s
  ]

-- The body of the test for the connection that is lost.
unfoldable pub lost : {S : Type 0} → Host S → CGap → S → CGap × S
lost host self s =
    let self' = clear_connection self in
    if not (host.adv_active s) then (self', (begin_advertise host self' s).1) else (self', s)

-- A connection has ended while `active` is there.
unfoldable pub compare_lost :
    {S : Type 0} → Host S → CGap → CConnection → CConnection → S → Outcome (CGap × S)
compare_lost host self active connection s =
    leave host connection (if connection_eq active connection then lost host self s else (self, s))

unfoldable pub on_disconnect : {S : Type 0} → Host S → CGap → ℕ → S → Outcome (CGap × S)
on_disconnect host self conn_handle s = elim (active_connection self) [
  | none ↦ ok (self, s)
  | some active ↦ connection_handle conn_handle >>= (λ h. compare_lost host self active (some h) s)
]

-- An event that the enumeration does not name ends in the last line of the callback.
unfoldable pub on_other : {S : Type 0} → Event → CGap → S → Outcome (CGap × S)
on_other (Event.unknown type) self s = ok (self, s)
on_other event self s = gap_event_to_str event >>= (λ name. ok (self, s))

unfoldable pub event_callback : {S : Type 0} → Host S → GapEvent → CGap → S → Outcome (CGap × S)
event_callback host event self s = elim event.type [
  | connect ↦ on_connect host self event.conn_handle s
  | disconnect ↦ on_disconnect host self event.conn_handle s
  | other ↦ on_other other self s
]
