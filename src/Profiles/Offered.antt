-- ===== src/Profiles/Offered.antt =====
-- What NimBLE finds at the pointers of a registered profile.
use ubiquitous_chainsaw.Base.{ℕ, suc, ◌≡◌, refl, List, [], ◌∷◌, ◌++◌, append_assoc, length, ok}
use ubiquitous_chainsaw.Services.{
  id_service_whoami, id_characteristic_whoami_authenticate, id_service_whereami,
  id_characteristic_whereami_demand_rssi, id_characteristic_whereami_rssi_notification,
}
use ubiquitous_chainsaw.WhoAmI.Token.{WhoAmI}
use ubiquitous_chainsaw.WhereAmI.Token.{WhereAmI}
use ubiquitous_chainsaw.Profiles.Memory.{
  Memory, Callback, ChrDef, authenticate, demand_rssi, rssi_notification, profile, model,
  characteristic_data, uuid128, chr_defs, read_model, read_data, read_uuid, read_chr_defs,
}
use ubiquitous_chainsaw.Profiles.Characteristic.{
  CharsPropertyFlag, flag_value, make_ble_uuid128, make_data, callback_caller,
}
use ubiquitous_chainsaw.Profiles.Service.{end_of_array}
use ubiquitous_chainsaw.Profiles.Found.{
  Found, found_characteristic, found_characteristics, found_service,
}
use ubiquitous_chainsaw.Profiles.Live.{read_at, read_kept}
use ubiquitous_chainsaw.Profiles.Registered.{
  made_characteristic, def_at, svc_def_at, registered_whoami, with_authenticate, whoami_memory,
  registered_whereami, with_demand_rssi, with_rssi_notification, whereami_defs, whereami_memory,
}

-- What a registered characteristic is for NimBLE.
abbrev pub offered : ℕ → CharsPropertyFlag → Callback → ℕ → Found
offered id flag callback owner = record {
  uuid = make_ble_uuid128 id;
  flags = flag_value flag;
  callback = callback;
  profile = owner;
}

-- A characteristic is found with whatever has been made since.
found_made :
    (newer m : Memory) (id : ℕ) (flag : CharsPropertyFlag) (callback : Callback) (owner : ℕ)
    → found_characteristic
        (length m)
        (def_at (length m) flag)
        (newer ++ made_characteristic id callback owner flag m)
      ≡ ok (offered id flag callback owner)
unfolding found_characteristic read_uuid read_data read_model callback_caller make_data
found_made newer m id flag callback owner =
    let own = model (record { own_data = length m; callback = callback; profile = owner }) in
    let below = characteristic_data (make_data id flag []) ∷ m in
    rw (
      read_at newer own below,
      read_kept newer (length m) (characteristic_data (make_data id flag [])) (own ∷ below)
          (read_at (own ∷ []) (characteristic_data (make_data id flag [])) m),
    )

-- The two objects of a service are found with whatever has been made since.
found_objects :
    (newer m : Memory) (id : ℕ) (defs : List ChrDef) (cs : List Found)
    → found_characteristics defs (newer ++ (chr_defs defs ∷ uuid128 (make_ble_uuid128 id) ∷ m))
      ≡ ok cs
    → found_service
        (svc_def_at (length m))
        (newer ++ (chr_defs defs ∷ uuid128 (make_ble_uuid128 id) ∷ m))
      ≡ ok (make_ble_uuid128 id, cs)
unfolding found_service read_uuid read_chr_defs
found_objects newer m id defs cs h =
    let bytes = uuid128 (make_ble_uuid128 id) in
    rw (
      read_at newer (chr_defs defs) (bytes ∷ m),
      read_kept newer (length m) bytes (chr_defs defs ∷ bytes ∷ m)
          (read_at (chr_defs defs ∷ []) bytes m),
      h,
    )

pub found_under :
    (newer top m : Memory) (id : ℕ) (flag : CharsPropertyFlag) (callback : Callback) (owner : ℕ)
    → found_characteristic
        (length m)
        (def_at (length m) flag)
        (newer ++ (top ++ made_characteristic id callback owner flag m))
      ≡ ok (offered id flag callback owner)
found_under newer top m id flag callback owner =
    rw (← append_assoc newer top (made_characteristic id callback owner flag m))
      (found_made (newer ++ top) m id flag callback owner)

abbrev pub offered_whoami : ℕ → List Found
offered_whoami owner =
    offered id_characteristic_whoami_authenticate CharsPropertyFlag.read authenticate owner ∷ []

abbrev pub offered_whereami : ℕ → List Found
offered_whereami owner =
    offered id_characteristic_whereami_demand_rssi CharsPropertyFlag.write demand_rssi owner
    ∷ offered id_characteristic_whereami_rssi_notification CharsPropertyFlag.notify
        rssi_notification owner
    ∷ []

pub found_whoami :
    (newer : Memory) (self : WhoAmI) (m : Memory)
    → found_service (svc_def_at (suc (suc (suc (length m))))) (newer ++ whoami_memory self m)
      ≡ ok (make_ble_uuid128 id_service_whoami, offered_whoami (length m))
found_whoami newer self m =
    let defs = def_at (suc (length m)) CharsPropertyFlag.read ∷ end_of_array ∷ [] in
    let own = with_authenticate (registered_whoami self (length m)) m in
    found_objects newer own id_service_whoami defs (offered_whoami (length m)) (
      unfold found_characteristics in
      rw
        (found_under newer (chr_defs defs ∷ uuid128 (make_ble_uuid128 id_service_whoami) ∷ [])
          (profile (registered_whoami self (length m)) ∷ m) id_characteristic_whoami_authenticate
          CharsPropertyFlag.read authenticate (length m))
        refl)

-- The objects of the notification, above those of the demand.
abbrev pub notification_objects : ℕ → Memory
notification_objects n =
    model (record { own_data = suc (suc (suc n)); callback = rssi_notification; profile = n })
    ∷ characteristic_data
        (make_data id_characteristic_whereami_rssi_notification CharsPropertyFlag.notify [])
    ∷ []

pub found_whereami :
    (newer : Memory) (self : WhereAmI) (m : Memory)
    → found_service
        (svc_def_at (suc (suc (suc (suc (suc (length m)))))))
        (newer ++ whereami_memory self m)
      ≡ ok (make_ble_uuid128 id_service_whereami, offered_whereami (length m))
found_whereami newer self m =
    let n = length m in
    let base = profile (registered_whereami self n) ∷ m in
    let service =
      chr_defs (whereami_defs n) ∷ uuid128 (make_ble_uuid128 id_service_whereami) ∷ [] in
    found_objects newer (with_rssi_notification n (with_demand_rssi n base)) id_service_whereami
      (whereami_defs n) (offered_whereami n)
      (unfold found_characteristics in
        rw
          (
            found_under newer (service ++ notification_objects n) base
                id_characteristic_whereami_demand_rssi CharsPropertyFlag.write demand_rssi n,
            found_under newer service (with_demand_rssi n base)
                id_characteristic_whereami_rssi_notification CharsPropertyFlag.notify
                rssi_notification n,
          )
          refl)

-- All that the token offers, for the addresses of its profiles.
abbrev pub on_token : ℕ → ℕ → List (List ℕ × List Found)
on_token whoami_at whereami_at =
    (make_ble_uuid128 id_service_whereami, offered_whereami whereami_at)
    ∷ (make_ble_uuid128 id_service_whoami, offered_whoami whoami_at)
    ∷ []
