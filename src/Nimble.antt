-- ===== src/Nimble.antt =====
-- The error codes of server/main/ble/ble_common.hpp, which wrap those of the NimBLE host.
use Prim.Native.String.{String}
use ubiquitous_chainsaw.Base.{ℕ, Bool, true, false, Outcome, ok, stop, undefined}

-- An enumeration over `int32_t`: `other` is a return value of NimBLE that the source does not name.
pub data NimbleErrorCode : Type 0 where
  success temporary_failure in_progress_or_completed invalid_arguments : NimbleErrorCode
  to_small_buffer no_entry resource_exhaustion no_connection : NimbleErrorCode
  operation_disabled unexpected_callback_behavior invalid_peer_command os_error : NimbleErrorCode
  invalid_controller_event operation_time_out operation_completed is_busy : NimbleErrorCode
  peer_rejected_connection_param unexpected_failure wrong_role request_time_out : NimbleErrorCode
  event_memory_exhaustion no_configured_identity_address not_synced insufficient_authen :
      NimbleErrorCode
  insufficient_author insufficient_enc_lvl insufficient_key_size storage_full : NimbleErrorCode
  storage_io preempted_operation disabled_feature operation_stalled : NimbleErrorCode
  other : ℕ → NimbleErrorCode

-- `code == NimbleErrorCode::success`
abbrev pub is_success : NimbleErrorCode → Bool
is_success success = true
is_success _ = false

-- A code without a case runs into `__builtin_unreachable`.
unfoldable pub nimble_error_to_string : NimbleErrorCode → Outcome String
nimble_error_to_string success = ok "Success"
nimble_error_to_string temporary_failure = ok "Temporary failure; try again"
nimble_error_to_string in_progress_or_completed = ok "Operation already in progress or completed"
nimble_error_to_string invalid_arguments = ok "One or more arguments are invalid"
nimble_error_to_string to_small_buffer = ok "The provided buffer is too small"
nimble_error_to_string no_entry = ok "No entry matching the specified criteria"
nimble_error_to_string resource_exhaustion = ok "Operation failed due to resource exhaustion"
nimble_error_to_string no_connection = ok "No open connection with the specified handle"
nimble_error_to_string operation_disabled = ok "Operation disabled at compile time"
nimble_error_to_string unexpected_callback_behavior = ok "Application callback behaved unexpectedly"
nimble_error_to_string invalid_peer_command = ok "Command from peer is invalid"
nimble_error_to_string os_error = ok "Mynewt OS error"
nimble_error_to_string invalid_controller_event = ok "Event from controller is invalid"
nimble_error_to_string operation_time_out = ok "Operation timed out"
nimble_error_to_string operation_completed = ok "Operation completed successfully"
nimble_error_to_string is_busy = ok "Operation cannot be performed until procedure completes"
nimble_error_to_string peer_rejected_connection_param =
    ok "Peer rejected a connection parameter update request"
nimble_error_to_string unexpected_failure = ok "Unexpected failure; catch all"
nimble_error_to_string wrong_role =
    ok "Operation requires different role (e.g., central vs. peripheral)"
nimble_error_to_string request_time_out = ok "HCI request timed out; controller unresponsiv"
nimble_error_to_string event_memory_exhaustion =
    ok "Controller failed to send event due to memory exhaustion (combined host-controller only)"
nimble_error_to_string no_configured_identity_address =
    ok "Operation requires an identity address but none configured"
nimble_error_to_string not_synced = ok "Attempt to use the host before it is synced with controller"
nimble_error_to_string insufficient_authen = ok "Insufficient authentication"
nimble_error_to_string insufficient_author = ok "Insufficient authorization"
nimble_error_to_string insufficient_enc_lvl = ok "Insufficient encryption level"
nimble_error_to_string insufficient_key_size = ok "Insufficient key size"
nimble_error_to_string storage_full = ok "Storage at capacity"
nimble_error_to_string storage_io = ok "Storage IO error"
nimble_error_to_string preempted_operation = ok "Operation preempted"
nimble_error_to_string disabled_feature = ok "FDisabled feature"
nimble_error_to_string operation_stalled = ok "Operation stalled"
nimble_error_to_string (other code) = stop undefined
