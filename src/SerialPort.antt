-- ===== src/SerialPort.antt =====
-- client/src/system/windows/CSerialCommunication.cpp: how the client finds and opens the serial port of
-- the token.
pub mod Search
pub mod Open
mod Texts
mod Finds
mod Leaks
mod Tests
