-- ===== src/Nvs.antt =====
-- server/main/sys/CNonVolatileStorage.hpp and .cpp: the token's storage of keys.
pub mod Flash
pub mod Handle
pub mod Access
pub mod Laws
pub mod Sample
pub mod Init
mod Tests
