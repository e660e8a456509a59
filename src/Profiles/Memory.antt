-- ===== src/Profiles/Memory.antt =====
-- The objects to which the profiles give NimBLE pointers. An address counts the objects made before
-- it; the newest object stands first.
use ubiquitous_chainsaw.Base.{
  ℕ, List, [], ◌∷◌, length, Option, none, some, ◌==◌, if◌then◌else◌, Outcome, ok, stop, undefined,
}
use ubiquitous_chainsaw.WhoAmI.Token.{WhoAmI}
use ubiquitous_chainsaw.WhereAmI.Token.{WhereAmI}

-- The lambdas that the functions `make_callback_...` make.
pub data Callback : Type 0 where
  authenticate demand_rssi rssi_notification : Callback

-- `CharacteristicData` of CGattCharacteristic; the bytes of a `ble_uuid128_t` are reversed.
pub record CharacteristicData : Type 0 where
  pub flags : ℕ
  pub value_handle : ℕ
  pub uuid : List ℕ

-- `CGattCharacteristic` inside its `Model`: the data it owns, and its callback with the profile to
-- which that holds a weak pointer.
pub record GattCharacteristic : Type 0 where
  pub own_data : ℕ
  pub callback : Callback
  pub profile : ℕ

-- `ble_gatt_chr_def`: a pointer into an object is the address of that object, `none` is null.
-- `access_cb` is `callback_caller` wherever it is not null.
pub record ChrDef : Type 0 where
  pub uuid : Option ℕ
  pub access_cb : Option (Unit {0})
  pub arg : Option ℕ
  pub descriptors : Option ℕ
  pub flags : ℕ
  pub min_key_size : ℕ
  pub val_handle : Option ℕ

-- `CGattService`: its UUID, and the buffer of its vector.
pub record GattService : Type 0 where
  pub uuid : Option ℕ
  pub characteristics : Option ℕ

-- The members that both profiles have.
pub record Registration : Type 0 where
  pub characteristics : List ℕ
  pub service : GattService

-- `std::variant<CWhoAmI, CWhereAmI>`
pub data Profile : Type 0 where
  whoami : WhoAmI → Registration → Profile
  whereami : WhereAmI → Registration → Profile

pub data Cell : Type 0 where
  characteristic_data : CharacteristicData → Cell
  model : GattCharacteristic → Cell
  uuid128 : List ℕ → Cell
  chr_defs : List ChrDef → Cell
  profile : Profile → Cell
  destroyed : Cell

abbrev pub Memory : Type 0
Memory = List Cell

unfoldable pub read : ℕ → Memory → Option Cell
read address [] = none
read address (cell ∷ older) = if address == length older then some cell else read address older

unfoldable pub write : ℕ → Cell → Memory → Memory
write address new [] = []
write address new (cell ∷ older) =
    if address == length older then new ∷ older else cell ∷ write address new older

-- What a pointer to an object of a given type finds; any other access is undefined.
abbrev as_model : Option Cell → Outcome GattCharacteristic
as_model (some (model m)) = ok m
as_model _ = stop undefined

unfoldable pub read_model : ℕ → Memory → Outcome GattCharacteristic
read_model address memory = as_model (read address memory)

abbrev as_profile : Option Cell → Outcome Profile
as_profile (some (profile p)) = ok p
as_profile _ = stop undefined

unfoldable pub read_profile : ℕ → Memory → Outcome Profile
read_profile address memory = as_profile (read address memory)

abbrev as_data : Option Cell → Outcome CharacteristicData
as_data (some (characteristic_data d)) = ok d
as_data _ = stop undefined

unfoldable pub read_data : ℕ → Memory → Outcome CharacteristicData
read_data address memory = as_data (read address memory)

abbrev as_uuid : Option Cell → Outcome (List ℕ)
as_uuid (some (uuid128 bytes)) = ok bytes
as_uuid (some (characteristic_data d)) = ok d.uuid
as_uuid _ = stop undefined

-- A `ble_uuid_t` stands in an object of its own or in the data of a characteristic.
unfoldable pub read_uuid : ℕ → Memory → Outcome (List ℕ)
read_uuid address memory = as_uuid (read address memory)

abbrev as_chr_defs : Option Cell → Outcome (List ChrDef)
as_chr_defs (some (chr_defs defs)) = ok defs
as_chr_defs _ = stop undefined

unfoldable pub read_chr_defs : ℕ → Memory → Outcome (List ChrDef)
read_chr_defs address memory = as_chr_defs (read address memory)
