-- ===== src/RssiPlot.antt =====
-- client/src/gui/CRSSIPlot.cpp and the loop of client/src/main.cpp that reads it.
pub mod Plot
pub mod Median
pub mod Window
mod Tests
