-- ===== src/Profiles/Profile.antt =====
-- The two profiles: server/main/ble/profiles/CWhoAmI.cpp and CWhereAmI.cpp as far as they register
-- themselves, and load_key of server/main/server_common.hpp.
use ubiquitous_chainsaw.Base.{
  ℕ, Bool, List, [], ◌∷◌, Option, none, some, Outcome, ok, stop, fatal, ◌>>=◌,
}
use ubiquitous_chainsaw.Base.Int.{pos}
use ubiquitous_chainsaw.Security.Decode.{Decoders, make_key}
use ubiquitous_chainsaw.Nvs.Flash.{NvsFlash}
use ubiquitous_chainsaw.Nvs.Handle.{make_reader, destroy}
use ubiquitous_chainsaw.Nvs.Access.{Expected, value, error, read_binary}
use ubiquitous_chainsaw.KeyTransfer.Token.{
  encryption_namespace, key_server_private, key_client_public,
}
use ubiquitous_chainsaw.Services.{
  id_service_whoami, id_characteristic_whoami_authenticate, id_service_whereami,
  id_characteristic_whereami_demand_rssi, id_characteristic_whereami_rssi_notification,
}
use ubiquitous_chainsaw.Profiles.Memory.{
  Memory, Registration, Profile, whoami, whereami, authenticate, demand_rssi, rssi_notification,
  profile, destroyed, GattService, read_profile, read_model,
}
use ubiquitous_chainsaw.Profiles.Memory
use ubiquitous_chainsaw.Profiles.Characteristic.{
  make_gatt_characteristic, copy_characteristic, read, write, notify,
}
use ubiquitous_chainsaw.Profiles.Service.{
  SvcDef, make_gatt_service, empty_service, to_svc_def, copy_service,
}

-- `load_key`: the key, whose object the bytes are decoded for. The reader is destroyed last.
abbrev key_of : Expected (List ℕ) → Outcome (List ℕ)
key_of (value bytes) = ok bytes
key_of (error code) = stop fatal

module _ {S : Type 0} (nvs : NvsFlash S) where
  unfoldable pub load_key : (List ℕ → Bool) → List ℕ → S → Outcome (List ℕ × S)
  unfolding make_key
  load_key decodes name s = do
    (reader, s1) ← make_reader nvs encryption_namespace s
    elim reader [
      | none ↦ stop fatal
      | some handle ↦ do
        result ← read_binary nvs handle name s1
        der ← key_of result
        key ← make_key decodes der
        ok (key, destroy nvs handle s1)
    ]

  -- `CWhoAmI::CWhoAmI()`
  unfoldable pub make_whoami : Decoders → S → Outcome (Profile × S)
  unfolding load_key
  make_whoami decode s = do
    (private_key, s1) ← load_key decode.private_key key_server_private s
    ok (
      whoami (record { private_key = private_key; signed_mac_data = [] })
          (record { characteristics = []; service = empty_service }),
      s1,
    )

  -- `CWhereAmI::CWhereAmI()`
  unfoldable pub make_whereami : Decoders → S → Outcome (Profile × S)
  unfolding load_key
  make_whereami decode s = do
    (private_key, s1) ← load_key decode.private_key key_server_private s
    (client_public_key, s2) ← load_key decode.public_key key_client_public s1
    ok (
      whereami
          (record {
            private_key = private_key;
            client_public_key = client_public_key;
            random_data_block = [];
            notify_handle = none;
            rssi = pos 0;
          })
          (record { characteristics = []; service = empty_service }),
      s2,
    )

-- `CWhoAmI::make_characteristics`
unfoldable pub make_whoami_characteristics : ℕ → Memory → List ℕ × Memory
unfolding make_gatt_characteristic
make_whoami_characteristics owner m =
    let (c, m1) =
      make_gatt_characteristic id_characteristic_whoami_authenticate authenticate owner read [] m in
    (c ∷ [], m1)

-- `CWhereAmI::make_characteristics`
unfoldable pub make_whereami_characteristics : ℕ → Memory → List ℕ × Memory
unfolding make_gatt_characteristic
make_whereami_characteristics owner m =
    let (c, m1) =
      make_gatt_characteristic id_characteristic_whereami_demand_rssi demand_rssi owner write []
        m in
    let (d, m2) =
      make_gatt_characteristic id_characteristic_whereami_rssi_notification rssi_notification owner
        notify [] m1 in
    (c ∷ d ∷ [], m2)

-- `register_with_nimble` of the profile at `owner`.
unfoldable pub register_with_nimble : ℕ → Profile → Memory → Outcome Memory
unfolding make_whoami_characteristics make_whereami_characteristics
register_with_nimble owner (whoami self registration) m = do
  let (characteristics, m1) = make_whoami_characteristics owner m
  (service, m2) ← make_gatt_service id_service_whoami characteristics m1
  ok (
      Memory.write owner
        (profile (whoami self (record { characteristics = characteristics; service = service })))
        m2)
register_with_nimble owner (whereami self registration) m = do
  let (characteristics, m1) = make_whereami_characteristics owner m
  (service, m2) ← make_gatt_service id_service_whereami characteristics m1
  ok (
      Memory.write owner
        (profile (whereami self (record { characteristics = characteristics; service = service })))
        m2)

-- `as_nimble_service`
unfoldable pub as_nimble_service : Profile → Outcome SvcDef
unfolding to_svc_def
as_nimble_service (whoami self registration) = to_svc_def registration.service
as_nimble_service (whereami self registration) = to_svc_def registration.service

unfoldable pub copy_characteristics : List ℕ → Memory → Outcome (List ℕ × Memory)
copy_characteristics [] m = ok ([], m)
copy_characteristics (c ∷ cs) m = do
  (d, m1) ← copy_characteristic c m
  (ds, m2) ← copy_characteristics cs m1
  ok (d ∷ ds, m2)

module _ {S : Type 0} (nvs : NvsFlash S) where
  -- `copy` into a new profile: the keys are loaded again, all else is that of the other profile.
  unfoldable pub copy_profile : Decoders → Profile → Memory → S → Outcome (Profile × Memory × S)
  unfolding copy_characteristics load_key
  copy_profile decode (whoami other registration) m s = do
    (private_key, s1) ← load_key nvs decode.private_key key_server_private s
    (characteristics, m1) ← copy_characteristics registration.characteristics m
    (service, m2) ← copy_service registration.service m1
    ok (
      whoami (record other { private_key = private_key })
          (record { characteristics = characteristics; service = service }),
      m2,
      s1,
    )
  copy_profile decode (whereami other registration) m s = do
    (private_key, s1) ← load_key nvs decode.private_key key_server_private s
    (client_public_key, s2) ← load_key nvs decode.public_key key_client_public s1
    (service, m1) ← copy_service registration.service m
    (characteristics, m2) ← copy_characteristics registration.characteristics m1
    ok (
      whereami (record other { private_key = private_key; client_public_key = client_public_key })
          (record { characteristics = characteristics; service = service }),
      m2,
      s2,
    )

-- The destructors, which `std::unique_ptr` and `std::vector` give: the members of a profile go in the
-- reverse order of their declarations.
unfoldable pub destroy_characteristics : List ℕ → Memory → Outcome Memory
destroy_characteristics [] m = ok m
destroy_characteristics (c ∷ cs) m = do
  owner ← read_model c m
  destroy_characteristics cs (Memory.write c destroyed (Memory.write owner.own_data destroyed m))

abbrev destroy_at : Option ℕ → Memory → Memory
destroy_at none m = m
destroy_at (some address) m = Memory.write address destroyed m

unfoldable pub destroy_service : GattService → Memory → Memory
destroy_service service m = destroy_at service.uuid (destroy_at service.characteristics m)

-- The last shared pointer to the profile at `owner` goes.
unfoldable pub destroy_profile : ℕ → Memory → Outcome Memory
unfolding destroy_characteristics destroy_service
destroy_profile owner m = read_profile owner m >>= λ p. elim p [
  | whoami self r ↦
      destroy_characteristics r.characteristics (destroy_service r.service m) >>= λ m'.
      ok (Memory.write owner destroyed m')
  | whereami self r ↦ destroy_characteristics r.characteristics m >>= λ m'.
      ok (Memory.write owner destroyed (destroy_service r.service m'))
]
