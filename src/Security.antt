-- ===== src/Security.antt =====
-- shared/security: what the program takes from wolfCrypt, as a parameter, and `CHash`.
pub mod Decode
mod Interface
pub mod Hash
pub mod Keys
pub mod Sample
mod Tests
pub use Interface.*
