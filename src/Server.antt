-- ===== src/Server.antt =====
-- client/src/CServer.hpp and .cpp: the token that the client has authenticated. What
-- `verify_server_address` does is in WhoAmI.
pub mod State
pub mod Processed
pub mod Verified
pub mod Coroutines
pub mod Held
pub mod Raced
mod Tests
