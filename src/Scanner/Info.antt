-- ===== src/Scanner/Info.antt =====
-- `DeviceInfo` of client/src/bluetoothLE/ble_common.hpp.
use Prim.Native.String.{String}
use ubiquitous_chainsaw.Base.{ℕ, Option}

pub data AddressType : Type 0 where
  real random none : AddressType

abbrev pub address_type_to_str : AddressType → String
address_type_to_str real = "Real"
address_type_to_str random = "Random"
address_type_to_str none = "None"

pub record DeviceInfo : Type 0 where
  pub address : Option ℕ
  pub address_type : AddressType
