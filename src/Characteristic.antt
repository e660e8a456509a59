-- ===== src/Characteristic.antt =====
-- client/src/bluetoothLE/windows/CCharacteristic.hpp and .cpp, with the enumerations of
-- client/src/bluetoothLE/ble_common.hpp: a characteristic of a token and its subscription.
pub mod Status
pub mod Properties
pub mod Described
pub mod Converted
pub mod Subscription
pub mod Calls
pub mod Flight
pub mod Once
mod Tests
