-- ===== src/Profiles.antt =====
-- server/main/ble/profiles/: the services and characteristics that the token registers with NimBLE.
pub mod Memory
pub mod Characteristic
pub mod Service
pub mod Profile
pub mod Cache
pub mod Live
pub mod Loaded
pub mod Found
pub mod Registered
pub mod Offered
pub mod Registry
pub mod Start
pub mod Discovered
pub mod Copied
mod Tests
