-- ===== src/WhoAmI.antt =====
-- The authentication packet: CWhoAmI of the access token, and the check of CServer.cpp on the client.
pub mod Token
pub mod Client
pub mod Layout
pub mod RoundTrip
pub mod Checks
mod Tests
