-- ===== src/Profiles/Characteristic.antt =====
-- server/main/ble/profiles/CGattCharacteristic.hpp and make_ble_uuid128 of server/main/ble/ble_common.hpp.
use Prim.Native.Nat.{bit_or}
use mathlib.Core.List.{reverse}
use ubiquitous_chainsaw.Base.{ℕ, suc, List, [], ◌∷◌, length, none, some, Outcome, ok, ◌>>=◌}
use ubiquitous_chainsaw.Services.{base_uuid, apply_custom_id}
use ubiquitous_chainsaw.Profiles.Memory.{
  Memory, Callback, CharacteristicData, ChrDef, model, characteristic_data, read_model, read_data,
}

-- The bytes of the `ble_uuid128_t`.
unfoldable pub make_ble_uuid128 : ℕ → List ℕ
unfolding apply_custom_id
make_ble_uuid128 unique_value = reverse (apply_custom_id base_uuid unique_value)

-- `CharsPropertyFlag`, by the values of NimBLE's `BLE_GATT_CHR_F_...`.
pub data CharsPropertyFlag : Type 0 where
  broadcast read write_no_respond write notify indicate auth_sign_write : CharsPropertyFlag
  reliable_write aux_write read_enc read_authen read_author : CharsPropertyFlag
  write_enc write_authen write_author : CharsPropertyFlag

-- `write_authen` has the value of `write_enc`, as it is declared.
abbrev pub flag_value : CharsPropertyFlag → ℕ
flag_value broadcast = 0x1
flag_value read = 0x2
flag_value write_no_respond = 0x4
flag_value write = 0x8
flag_value notify = 0x10
flag_value indicate = 0x20
flag_value auth_sign_write = 0x40
flag_value reliable_write = 0x80
flag_value aux_write = 0x100
flag_value read_enc = 0x200
flag_value read_authen = 0x400
flag_value read_author = 0x800
flag_value write_enc = 0x1000
flag_value write_authen = 0x1000
flag_value write_author = 0x4000

-- `(flags | ...)`, which C++ allows for at least one flag.
unfoldable pub combine : CharsPropertyFlag → List CharsPropertyFlag → ℕ
combine flag [] = flag_value flag
combine flag (next ∷ rest) = bit_or (flag_value flag) (combine next rest)

unfoldable pub make_data : ℕ → CharsPropertyFlag → List CharsPropertyFlag → CharacteristicData
unfolding make_ble_uuid128 combine
make_data uuid flag flags = record {
  flags = combine flag flags;
  value_handle = 0;
  uuid = make_ble_uuid128 uuid;
}

-- `ble::make_characteristic`: the data and the `Model` are made, and the address of the latter is
-- what a `CCharacteristic` holds.
unfoldable pub make_gatt_characteristic :
    ℕ → Callback → ℕ → CharsPropertyFlag → List CharsPropertyFlag → Memory → ℕ × Memory
unfolding make_data
make_gatt_characteristic uuid callback profile flag flags memory = (
  suc (length memory),
  model (record { own_data = length memory; callback = callback; profile = profile })
      ∷ characteristic_data (make_data uuid flag flags)
      ∷ memory,
)

-- `operator ble_gatt_chr_def`
unfoldable pub to_chr_def : ℕ → Memory → Outcome ChrDef
to_chr_def self memory = do
  m ← read_model self memory
  d ← read_data m.own_data memory
  ok record {
    uuid = some m.own_data;
    access_cb = some tt;
    arg = some self;
    descriptors = none;
    flags = d.flags;
    min_key_size = 0;
    val_handle = some m.own_data;
  }

-- `callback_caller`: the callback that `arg` points to, and the profile that it locks.
unfoldable pub callback_caller : ℕ → Memory → Outcome (Callback × ℕ)
callback_caller arg memory = read_model arg memory >>= λ m. ok (m.callback, m.profile)

-- The copy constructor of `CCharacteristic`: `Concept::copy` copies the model, and that the data.
unfoldable pub copy_characteristic : ℕ → Memory → Outcome (ℕ × Memory)
copy_characteristic other memory = do
  m ← read_model other memory
  d ← read_data m.own_data memory
  ok (
    suc (length memory),
    model (record m { own_data = length memory }) ∷ characteristic_data d ∷ memory,
  )
