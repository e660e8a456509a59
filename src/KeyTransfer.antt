-- ===== src/KeyTransfer.antt =====
-- How the client hands the keys to the token over USB, and how the token counts them.
pub mod Client
pub mod Token
pub mod Stores
pub mod Transfer
pub mod Overflow
pub mod Boot
pub mod Provisioning
mod Tests
