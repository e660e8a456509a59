-- ===== src/Characteristic/Status.antt =====
-- The enumerations of client/src/bluetoothLE/ble_common.hpp that a characteristic answers with.
use Prim.Native.String.{String}

pub data ConnectionStatus : Type 0 where
  connected disconnected : ConnectionStatus

abbrev pub connnection_status_to_str : ConnectionStatus → String
connnection_status_to_str connected = "Connected"
connnection_status_to_str disconnected = "Disconnected"

pub data CommunicationStatus : Type 0 where
  success unreachable protocol_error access_denied : CommunicationStatus

abbrev pub communication_status_to_str : CommunicationStatus → String
communication_status_to_str unreachable = "Unreachable"
communication_status_to_str protocol_error = "Protocol Error"
communication_status_to_str access_denied = "Access Denied"
communication_status_to_str success = "Success"

pub data ProtectionLevel : Type 0 where
  plain authentication_required encryption_required : ProtectionLevel
  encryption_and_authentication_required : ProtectionLevel

abbrev pub prot_level_to_str : ProtectionLevel → String
prot_level_to_str authentication_required = "Authentication Required"
prot_level_to_str encryption_and_authentication_required = "Encryption and Authentication Required"
prot_level_to_str encryption_required = "Encryption Required"
prot_level_to_str plain = "Plain"

pub data SubscriptionState : Type 0 where
  subscribed not_subscribed in_flight : SubscriptionState

abbrev pub characteristic_subscription_state_to_str : SubscriptionState → String
characteristic_subscription_state_to_str subscribed = "Subscribed"
characteristic_subscription_state_to_str not_subscribed = "Not Subscribed"
characteristic_subscription_state_to_str in_flight = "In Flight"
