-- ===== src/Profiles/Registered.antt =====
-- What the two profiles leave in memory when they register themselves, and what NimBLE finds there.
use ubiquitous_chainsaw.Base.{ℕ, suc, ◌≡◌, List, [], ◌∷◌, length, none, some, ok}
use ubiquitous_chainsaw.Services.{
  id_service_whoami, id_characteristic_whoami_authenticate, id_service_whereami,
  id_characteristic_whereami_demand_rssi, id_characteristic_whereami_rssi_notification,
}
use ubiquitous_chainsaw.WhoAmI.Token.{WhoAmI}
use ubiquitous_chainsaw.WhereAmI.Token.{WhereAmI}
use ubiquitous_chainsaw.Profiles.Memory.{
  Memory, Callback, ChrDef, Profile, Registration, GattService, whoami, whereami, authenticate,
  demand_rssi, rssi_notification, profile, model, characteristic_data, uuid128, chr_defs,
}
use ubiquitous_chainsaw.Profiles.Characteristic.{
  CharsPropertyFlag, flag_value, make_ble_uuid128, make_data, make_gatt_characteristic,
}
use ubiquitous_chainsaw.Profiles.Service.{
  SvcDef, primary, end_of_array, emplace_chr_defs, make_nimble_characteristics_arr,
  make_gatt_service,
}
use ubiquitous_chainsaw.Profiles.Profile.{
  register_with_nimble, make_whoami_characteristics, make_whereami_characteristics,
}
use ubiquitous_chainsaw.Profiles.Live.{write_at, to_chr_def_made}

-- The two objects of a characteristic, on top of what is there.
abbrev pub made_characteristic : ℕ → Callback → ℕ → CharsPropertyFlag → Memory → Memory
made_characteristic uuid callback owner flag m =
    model (record { own_data = length m; callback = callback; profile = owner })
    ∷ characteristic_data (make_data uuid flag [])
    ∷ m

abbrev pub def_at : ℕ → CharsPropertyFlag → ChrDef
def_at at flag = record {
  uuid = some at;
  access_cb = some tt;
  arg = some (suc at);
  descriptors = none;
  flags = flag_value flag;
  min_key_size = 0;
  val_handle = some at;
}

abbrev service_at : ℕ → GattService
service_at at = record { uuid = some at; characteristics = some (suc at) }

abbrev pub svc_def_at : ℕ → SvcDef
svc_def_at at = record { type = primary; uuid = some at; characteristics = some (suc at) }

abbrev pub registered_whoami : WhoAmI → ℕ → Profile
registered_whoami self n =
    whoami self
      (record { characteristics = suc (suc n) ∷ []; service = service_at (suc (suc (suc n))) })

abbrev pub with_authenticate : Profile → Memory → Memory
with_authenticate p m =
    made_characteristic id_characteristic_whoami_authenticate authenticate (length m)
      CharsPropertyFlag.read (profile p ∷ m)

-- The memory that a registered `CWhoAmI` at the address `length m` leaves.
abbrev pub whoami_memory : WhoAmI → Memory → Memory
whoami_memory self m =
    chr_defs (def_at (suc (length m)) CharsPropertyFlag.read ∷ end_of_array ∷ [])
    ∷ uuid128 (make_ble_uuid128 id_service_whoami)
    ∷ with_authenticate (registered_whoami self (length m)) m

pub register_whoami :
    (self : WhoAmI) (r : Registration) (m : Memory)
    → register_with_nimble (length m) (whoami self r) (profile (whoami self r) ∷ m)
      ≡ ok (whoami_memory self m)
unfolding register_with_nimble make_whoami_characteristics make_gatt_characteristic
    make_gatt_service make_nimble_characteristics_arr emplace_chr_defs make_data
register_whoami self r m = rw (
  to_chr_def_made (uuid128 (make_ble_uuid128 id_service_whoami) ∷ []) (profile (whoami self r) ∷ m)
      (make_data id_characteristic_whoami_authenticate CharsPropertyFlag.read []) authenticate
      (length m),
  write_at
      (chr_defs (def_at (suc (length m)) CharsPropertyFlag.read ∷ end_of_array ∷ [])
        ∷ uuid128 (make_ble_uuid128 id_service_whoami)
        ∷ model (record { own_data = suc (length m); callback = authenticate; profile = length m })
        ∷ characteristic_data
            (make_data id_characteristic_whoami_authenticate CharsPropertyFlag.read [])
        ∷ [])
      (profile (registered_whoami self (length m))) (profile (whoami self r)) m,
)

abbrev pub registered_whereami : WhereAmI → ℕ → Profile
registered_whereami self n = whereami self (record {
  characteristics = suc (suc n) ∷ suc (suc (suc (suc n))) ∷ [];
  service = service_at (suc (suc (suc (suc (suc n)))));
})

abbrev pub with_demand_rssi : ℕ → Memory → Memory
with_demand_rssi owner m =
    made_characteristic id_characteristic_whereami_demand_rssi demand_rssi owner
      CharsPropertyFlag.write m

abbrev pub with_rssi_notification : ℕ → Memory → Memory
with_rssi_notification owner m =
    made_characteristic id_characteristic_whereami_rssi_notification rssi_notification owner
      CharsPropertyFlag.notify m

abbrev pub whereami_defs : ℕ → List ChrDef
whereami_defs n =
    def_at (suc n) CharsPropertyFlag.write
    ∷ def_at (suc (suc (suc n))) CharsPropertyFlag.notify
    ∷ end_of_array
    ∷ []

-- The memory that a registered `CWhereAmI` at the address `length m` leaves.
abbrev pub whereami_memory : WhereAmI → Memory → Memory
whereami_memory self m =
    chr_defs (whereami_defs (length m))
    ∷ uuid128 (make_ble_uuid128 id_service_whereami)
    ∷ with_rssi_notification (length m)
        (with_demand_rssi (length m) (profile (registered_whereami self (length m)) ∷ m))

pub register_whereami :
    (self : WhereAmI) (r : Registration) (m : Memory)
    → register_with_nimble (length m) (whereami self r) (profile (whereami self r) ∷ m)
      ≡ ok (whereami_memory self m)
unfolding register_with_nimble make_whereami_characteristics make_gatt_characteristic
    make_gatt_service make_nimble_characteristics_arr emplace_chr_defs make_data
register_whereami self r m = rw (
  to_chr_def_made
      (uuid128 (make_ble_uuid128 id_service_whereami)
        ∷ model (record {
          own_data = suc (suc (suc (length m)));
          callback = rssi_notification;
          profile = length m;
        })
        ∷ characteristic_data
            (make_data id_characteristic_whereami_rssi_notification CharsPropertyFlag.notify [])
        ∷ [])
      (profile (whereami self r) ∷ m)
      (make_data id_characteristic_whereami_demand_rssi CharsPropertyFlag.write []) demand_rssi
      (length m),
  to_chr_def_made (uuid128 (make_ble_uuid128 id_service_whereami) ∷ [])
      (with_demand_rssi (length m) (profile (whereami self r) ∷ m))
      (make_data id_characteristic_whereami_rssi_notification CharsPropertyFlag.notify [])
      rssi_notification (length m),
  write_at
      (chr_defs (whereami_defs (length m))
        ∷ uuid128 (make_ble_uuid128 id_service_whereami)
        ∷ model (record {
          own_data = suc (suc (suc (length m)));
          callback = rssi_notification;
          profile = length m;
        })
        ∷ characteristic_data
            (make_data id_characteristic_whereami_rssi_notification CharsPropertyFlag.notify [])
        ∷ model (record { own_data = suc (length m); callback = demand_rssi; profile = length m })
        ∷ characteristic_data
            (make_data id_characteristic_whereami_demand_rssi CharsPropertyFlag.write [])
        ∷ [])
      (profile (registered_whereami self (length m))) (profile (whereami self r)) m,
)
