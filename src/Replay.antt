-- ===== src/Replay.antt =====
-- client/src/CReplayProtector.cpp and .hpp: a demand for the RSSI is answered once, and in time.
pub mod Packet
pub mod Protector
pub mod Closed
pub mod Once
pub mod Tracked
pub mod InTime
mod Ordered
mod Expired
mod Tests
