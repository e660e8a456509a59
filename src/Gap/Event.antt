-- ===== src/Gap/Event.antt =====
-- The events of server/main/ble/CGap.hpp, and their names in CGap.cpp.
use Prim.Native.String.{String}
use ubiquitous_chainsaw.Base.{ℕ, Outcome, ok, stop, undefined}

-- `unknown` is a type of NimBLE's that the enumeration does not name.
pub data Event : Type 0 where
  connect disconnect update update_req l2cap_update_req term_failure disc disc_complete : Event
  advertisment_complete encryption_changed passkey_action notify_recieve notify_transfer : Event
  subscribe mtu identity_resolved repeat_pairing physical_update_complete ext_disc : Event
  periodic_sync periodic_sync_report periodic_sync_lost scan_require_rcvd : Event
  periodic_transfer pathloss_threshold transmit_power subrate_change : Event
  unknown : ℕ → Event

unfoldable pub gap_event_to_str : Event → Outcome String
gap_event_to_str connect = ok "connect"
gap_event_to_str disconnect = ok "disconnect"
gap_event_to_str update = ok "update"
gap_event_to_str update_req = ok "updateReq"
gap_event_to_str l2cap_update_req = ok "l2capUpdateReq"
gap_event_to_str term_failure = ok "termFailure"
gap_event_to_str disc = ok "disc"
gap_event_to_str disc_complete = ok "discComplete"
gap_event_to_str advertisment_complete = ok "advertismentComplete"
gap_event_to_str encryption_changed = ok "encryptionChanged"
gap_event_to_str passkey_action = ok "passkeyAction"
gap_event_to_str notify_recieve = ok "notifyRecieve"
gap_event_to_str notify_transfer = ok "notifyTransfer"
gap_event_to_str subscribe = ok "subscribe"
gap_event_to_str mtu = ok "mtu"
gap_event_to_str identity_resolved = ok "identityResolved"
gap_event_to_str repeat_pairing = ok "repeatPairing"
gap_event_to_str physical_update_complete = ok "physicalUpdateComplete"
gap_event_to_str ext_disc = ok "extDisc"
gap_event_to_str periodic_sync = ok "periodicSync"
gap_event_to_str periodic_sync_report = ok "periodicSyncReport"
gap_event_to_str periodic_sync_lost = ok "periodicSyncLost"
gap_event_to_str scan_require_rcvd = ok "scanRequireRCVD"
gap_event_to_str periodic_transfer = ok "periodicTransfer"
gap_event_to_str pathloss_threshold = ok "pathlossThreshold"
gap_event_to_str transmit_power = ok "transmitPower"
gap_event_to_str subrate_change = ok "subrateChange"
gap_event_to_str (unknown n) = stop undefined

-- The fields of `ble_gap_event` that the callback reads: the type and the handle of the connection.
pub record GapEvent : Type 0 where
  pub type : Event
  pub conn_handle : ℕ
