-- ===== src/Gap.antt =====
-- server/main/ble/CConnection.hpp and .cpp, CGap.hpp and .cpp: the one connection of the token, and
-- its advertising.
pub mod Host
pub mod Connection
pub mod Event
pub mod Advertise
pub mod Callback
pub mod Session
pub mod Reached
pub mod Dropped
mod Tests
