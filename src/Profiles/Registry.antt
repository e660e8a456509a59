-- ===== src/Profiles/Registry.antt =====
-- What the token registers with NimBLE when it starts.
use ubiquitous_chainsaw.Base.{ℕ, suc, ◌≡◌, List, [], ◌∷◌, ◌++◌, length, none, ok}
use ubiquitous_chainsaw.Security.Decode.{Decoders}
use ubiquitous_chainsaw.Base.Int.{pos}
use ubiquitous_chainsaw.Nimble.{success}
use ubiquitous_chainsaw.Nvs.Flash.{NvsFlash}
use ubiquitous_chainsaw.KeyTransfer.Token.{key_server_private, key_client_public}
use ubiquitous_chainsaw.Services.{
  id_service_whoami, id_service_whereami, id_characteristic_whereami_demand_rssi,
  id_characteristic_whoami_authenticate,
}
use ubiquitous_chainsaw.WhoAmI.Token.{WhoAmI}
use ubiquitous_chainsaw.WhereAmI.Token.{WhereAmI}
use ubiquitous_chainsaw.Profiles.Memory.{
  Memory, Profile, profile, read_profile, chr_defs, uuid128, model, characteristic_data,
  authenticate, demand_rssi,
}
use ubiquitous_chainsaw.Profiles.Characteristic.{CharsPropertyFlag, make_ble_uuid128, make_data}
use ubiquitous_chainsaw.Profiles.Service.{SvcDef, end_of_array, empty_service, to_svc_def}
use ubiquitous_chainsaw.Profiles.Profile.{load_key, make_whoami, make_whereami, as_nimble_service}
use ubiquitous_chainsaw.Profiles.Cache.{
  GattServer, key_whoami, key_whereami, end_of_services, text_lt, try_emplace, register_emplaced,
  try_emplace_profile, add_whoami, add_whereami, emplace_services, counted, added, make_cache,
  make_profile_cache, build, make_profiles,
}
use ubiquitous_chainsaw.Profiles.Found.{found_services}
use ubiquitous_chainsaw.Profiles.Live.{read_at}
use ubiquitous_chainsaw.Profiles.Registered.{
  svc_def_at, def_at, whereami_defs, registered_whoami, whoami_memory, registered_whereami,
  whereami_memory, register_whoami, register_whereami,
}
use ubiquitous_chainsaw.Profiles.Offered.{
  notification_objects, on_token, found_whoami, found_whereami,
}

-- The profiles as they are made of their keys.
abbrev pub new_whoami : List ℕ → WhoAmI
new_whoami private_key = record { private_key = private_key; signed_mac_data = [] }

abbrev pub new_whereami : List ℕ → List ℕ → WhereAmI
new_whereami private_key client_key = record {
  private_key = private_key;
  client_public_key = client_key;
  random_data_block = [];
  notify_handle = none;
  rssi = pos 0;
}

-- The memory behind both registrations.
abbrev pub registered_memory : List ℕ → List ℕ → Memory → Memory
registered_memory private_key client_key m =
    whereami_memory (new_whereami private_key client_key) (whoami_memory (new_whoami private_key) m)

-- The address of the second profile: five objects behind the first.
abbrev pub whereami_at : ℕ → ℕ
whereami_at n = suc (suc (suc (suc (suc n))))

abbrev pub registered_services : ℕ → List SvcDef
registered_services n =
    svc_def_at (suc (suc (suc (suc (suc (whereami_at n))))))
    ∷ svc_def_at (suc (suc (suc n)))
    ∷ end_of_services
    ∷ []

-- The objects that the profile at the address `n` makes when it registers itself.
abbrev whoami_objects : ℕ → Memory
whoami_objects n =
    chr_defs (def_at (suc n) CharsPropertyFlag.read ∷ end_of_array ∷ [])
    ∷ uuid128 (make_ble_uuid128 id_service_whoami)
    ∷ model (record { own_data = suc n; callback = authenticate; profile = n })
    ∷ characteristic_data
        (make_data id_characteristic_whoami_authenticate CharsPropertyFlag.read [])
    ∷ []

abbrev whereami_objects : ℕ → Memory
whereami_objects n =
    chr_defs (whereami_defs n)
    ∷ uuid128 (make_ble_uuid128 id_service_whereami)
    ∷ (notification_objects n
        ++ (model (record { own_data = suc n; callback = demand_rssi; profile = n })
            ∷ characteristic_data
                (make_data id_characteristic_whereami_demand_rssi CharsPropertyFlag.write [])
            ∷ []))

found_registered :
    (private_key client_key : List ℕ) (m : Memory)
    → found_services (registered_services (length m)) (registered_memory private_key client_key m)
      ≡ ok (on_token (length m) (whereami_at (length m)))
unfolding found_services
found_registered private_key client_key m = rw (
  found_whereami [] (new_whereami private_key client_key)
      (whoami_memory (new_whoami private_key) m),
  found_whoami
      (whereami_objects (whereami_at (length m))
        ++ (profile
              (registered_whereami (new_whereami private_key client_key) (whereami_at (length m)))
            ∷ []))
      (new_whoami private_key) m,
)

module _ {S : Type 0} (nvs : NvsFlash S) (decode : Decoders) (server : GattServer) (m : Memory)
    (private_key client_key : List ℕ) (s0 s1 s2 s3 : S)
    (first : load_key nvs decode.private_key key_server_private s0 ≡ ok (private_key, s1))
    (second : load_key nvs decode.private_key key_server_private s1 ≡ ok (private_key, s2))
    (third : load_key nvs decode.public_key key_client_public s2 ≡ ok (client_key, s3)) where
  abbrev services : List SvcDef
  services = registered_services (length m)

  abbrev memory : Memory
  memory = registered_memory private_key client_key m

  with_whoami :
      add_whoami nvs decode (record { profiles = []; memory = m; flash = s0 })
      ≡ ok (record {
        profiles = (key_whoami, length m) ∷ [];
        memory = whoami_memory (new_whoami private_key) m;
        flash = s1;
      })
  unfolding add_whoami make_whoami try_emplace_profile try_emplace register_emplaced
  with_whoami = rw (
    first,
    register_whoami (new_whoami private_key)
        (record { characteristics = []; service = empty_service }) m,
  )

  abbrev profiles : List (List ℕ × ℕ)
  profiles = (key_whereami, whereami_at (length m)) ∷ (key_whoami, length m) ∷ []

  with_whereami :
      add_whereami nvs decode (record {
        profiles = (key_whoami, length m) ∷ [];
        memory = whoami_memory (new_whoami private_key) m;
        flash = s1;
      })
      ≡ ok (record { profiles = profiles; memory = memory; flash = s3 })
  unfolding add_whereami make_whereami try_emplace_profile try_emplace text_lt register_emplaced
  with_whereami = rw (
    second,
    third,
    register_whereami (new_whereami private_key client_key)
        (record { characteristics = []; service = empty_service })
        (whoami_memory (new_whoami private_key) m),
  )

  abbrev second_profile : Profile
  second_profile =
      registered_whereami (new_whereami private_key client_key) (whereami_at (length m))

  -- The profiles that the callbacks lock are there, with their keys.
  pub profiles_are_there :
      (read_profile (length m) memory ≡ ok (registered_whoami (new_whoami private_key) (length m)))
      × (read_profile (whereami_at (length m)) memory ≡ ok second_profile)
  unfolding read_profile
  profiles_are_there = (
    rw (
        read_at
          (whereami_objects (whereami_at (length m))
            ++ (profile second_profile ∷ whoami_objects (length m)))
          (profile (registered_whoami (new_whoami private_key) (length m))) m),
    rw (
        read_at (whereami_objects (whereami_at (length m))) (profile second_profile)
          (whoami_memory (new_whoami private_key) m)),
  )

  services_emplaced :
      emplace_services profiles memory
      ≡ ok (
          svc_def_at (suc (suc (suc (suc (suc (whereami_at (length m)))))))
          ∷ svc_def_at (suc (suc (suc (length m))))
          ∷ [])
  unfolding emplace_services as_nimble_service to_svc_def
  services_emplaced = rw (profiles_are_there.1, profiles_are_there.0)

  cache_built :
      server.count_cfg services memory ≡ success
      → server.add_svcs services memory ≡ success
      → build server (record { profiles = profiles; memory = memory; flash = s3 })
        ≡ ok (record { profiles = profiles; services = services })
  unfolding build make_profile_cache make_cache counted added
  cache_built counts adds = rw (services_emplaced, counts, adds)

  pub profiles_are_registered :
      server.count_cfg services memory ≡ success
      → server.add_svcs services memory ≡ success
      → (make_profiles nvs decode server m s0
          ≡ ok (
            record { profiles = profiles; services = services },
            record { profiles = profiles; memory = memory; flash = s3 },
          ))
        × (found_services services memory ≡ ok (on_token (length m) (whereami_at (length m))))
  unfolding make_profiles
  profiles_are_registered counts adds = (
    rw (with_whoami, with_whereami, cache_built counts adds),
    found_registered private_key client_key m,
  )
