-- ===== src/WhereAmI.antt =====
-- The RSSI exchange: client/src/CRssiDemander.cpp and server/main/ble/profiles/CWhereAmI.cpp.
pub mod Demand
pub mod Token
pub mod Receiver
pub mod Layout
pub mod Exchange
pub mod Notification
pub mod Notifier
pub mod Written
pub mod Answer
pub mod RoundTrip
pub mod Sender
pub mod Sent
mod Tests
