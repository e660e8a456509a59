-- ===== src/Scanner.antt =====
-- client/src/bluetoothLE/windows/CScanner.cpp and client/src/gui/CDeviceList.cpp: the devices that the
-- client hears.
pub mod Info
pub mod Watch
pub mod StopWatch
pub mod Tasks
pub mod OneScan
pub mod Frame
pub mod Started
pub mod Distinct
pub mod Bounds
mod Tests
