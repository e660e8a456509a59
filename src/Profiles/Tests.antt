-- ===== src/Profiles/Tests.antt =====
-- A token with stored keys, a Windows that reads GUIDs as they are written, and runs of the builder.
use ubiquitous_chainsaw.Base.{
  ℕ, zero, suc, ◌+◌, ◌*◌, ◌^◌, ◌≡◌, refl, true, List, [], ◌∷◌, some, ok, stop, fatal, ◌>>=◌, arith,
}
use ubiquitous_chainsaw.Nimble.{success}
use ubiquitous_chainsaw.Security.Hash.{same_bytes}
use ubiquitous_chainsaw.Security.Decode.{Decoders, IsKey, make_key}
use ubiquitous_chainsaw.Nvs.Flash.{blob}
use ubiquitous_chainsaw.Nvs.Sample.{Store, flash, flash-NvsWorks, find_entry}
use ubiquitous_chainsaw.Nvs.Handle.{make_reader, make_handle, handle_of_code, destroy}
use ubiquitous_chainsaw.Nvs.Access.{read_binary, check_key}
use ubiquitous_chainsaw.KeyTransfer.Token.{
  encryption_namespace, key_server_private, key_client_public,
}
use ubiquitous_chainsaw.Services.{Guid, uuid_bytes, apply_custom_id}
use ubiquitous_chainsaw.Gatt.Discovery.{debug}
use ubiquitous_chainsaw.Profiles.Memory.{destroyed, read_model, read_data, read, write}
use ubiquitous_chainsaw.Profiles.Characteristic.{
  make_ble_uuid128, make_data, make_gatt_characteristic, to_chr_def,
}
use ubiquitous_chainsaw.Profiles.Service.{
  make_gatt_service, make_nimble_characteristics_arr, emplace_chr_defs,
}
use ubiquitous_chainsaw.Profiles.Profile.{
  load_key, make_whoami, make_whoami_characteristics, register_with_nimble,
}
use ubiquitous_chainsaw.Profiles.Cache.{
  GattServer, add_whoami, text_lt, try_emplace, try_emplace_profile, register_emplaced,
}
use ubiquitous_chainsaw.Profiles.Loaded.{ReadsBlobs}
use ubiquitous_chainsaw.Profiles.Start.{Registers, token-Registers}
use ubiquitous_chainsaw.Profiles.Discovered.{GivesUuid, Discovers, token_is_discovered}
use ubiquitous_chainsaw.Profiles.Copied.{Dangles, copied_profile-Dangles}

abbrev stored : Store
stored = (key_server_private, blob (1 ∷ 2 ∷ [])) ∷ (key_client_public, blob (3 ∷ [])) ∷ []

flash-ReadsBlobs : ReadsBlobs flash find_entry (λ mode h s. h ≡ 1)
flash-ReadsBlobs h k bytes s is_open e = (rw (e), rw (e))

abbrev taking : GattServer
taking = record { count_cfg = λ defs m. success; add_svcs = λ defs m. success }

abbrev decode : Decoders
decode = record { public_key = λ der. true; private_key = λ der. true }

private-IsKey : IsKey decode.private_key (1 ∷ 2 ∷ [])
private-IsKey = record { some_bytes = omega arith; decoded = refl }

client-IsKey : IsKey decode.public_key (3 ∷ [])
client-IsKey = record { some_bytes = omega arith; decoded = refl }

abbrev byte : List ℕ → ℕ → ℕ
byte [] i = 0
byte (b ∷ bs) zero = b
byte (b ∷ bs) (suc i) = byte bs i

-- The GUID of a UUID whose sixteen bytes come last byte first.
abbrev guid_of : List ℕ → Guid
guid_of l = record {
  data1 = byte l 15 * 2 ^ 24 + byte l 14 * 2 ^ 16 + byte l 13 * 2 ^ 8 + byte l 12;
  data2 = byte l 11 * 2 ^ 8 + byte l 10;
  data3 = byte l 9 * 2 ^ 8 + byte l 8;
  data4 =
      byte l 7 ∷ byte l 6 ∷ byte l 5 ∷ byte l 4 ∷ byte l 3 ∷ byte l 2 ∷ byte l 1 ∷ byte l 0 ∷ [];
}

guid_of-GivesUuid : GivesUuid guid_of
unfolding uuid_bytes make_ble_uuid128 apply_custom_id
guid_of-GivesUuid id h = ground arith

loads_private : find_entry stored key_server_private ≡ some (blob (1 ∷ 2 ∷ []))
unfolding find_entry same_bytes
loads_private = refl

loads_client : find_entry stored key_client_public ≡ some (blob (3 ∷ []))
unfolding find_entry same_bytes
loads_client = refl

token-Registers_example :
    Registers flash decode taking (destroyed ∷ []) (1 ∷ 2 ∷ []) (3 ∷ []) stored
token-Registers_example =
    token-Registers flash decode find_entry (λ mode h s. h ≡ 1)
      (flash-NvsWorks encryption_namespace) flash-ReadsBlobs taking (λ defs m. (refl, refl))
      (destroyed ∷ []) (1 ∷ 2 ∷ []) (3 ∷ []) stored loads_private loads_client private-IsKey
      client-IsKey

token_is_discovered_example :
    Discovers flash decode taking guid_of (destroyed ∷ []) stored debug 0xc0ffee
token_is_discovered_example =
    token_is_discovered flash decode find_entry (λ mode h s. h ≡ 1)
      (flash-NvsWorks encryption_namespace) flash-ReadsBlobs taking (λ defs m. (refl, refl)) guid_of
      guid_of-GivesUuid (destroyed ∷ []) (1 ∷ 2 ∷ []) (3 ∷ []) stored loads_private loads_client
      private-IsKey client-IsKey debug 0xc0ffee

loads_again : load_key flash decode.private_key key_server_private stored ≡ ok (1 ∷ 2 ∷ [], stored)
unfolding load_key make_key make_reader make_handle handle_of_code destroy read_binary check_key
    find_entry same_bytes
loads_again = refl

copied_profile-Dangles_example :
    Dangles flash decode
      (record { private_key = 9 ∷ []; signed_mac_data = 7 ∷ [] })
      (destroyed ∷ [])
      stored
      stored
copied_profile-Dangles_example =
    copied_profile-Dangles flash decode (record { private_key = 9 ∷ []; signed_mac_data = 7 ∷ [] })
      (destroyed ∷ []) stored stored (1 ∷ 2 ∷ []) loads_again

-- The builder refuses a profile that it has.
adds_once :
    (add_whoami flash decode (record { profiles = []; memory = []; flash = stored })
      >>= add_whoami flash decode)
    ≡ stop fatal
unfolding add_whoami make_whoami try_emplace_profile try_emplace text_lt register_emplaced
    register_with_nimble make_whoami_characteristics make_gatt_characteristic make_gatt_service
    make_nimble_characteristics_arr emplace_chr_defs to_chr_def read_model read_data read write
    make_data load_key make_key make_reader make_handle handle_of_code destroy read_binary check_key
    find_entry same_bytes
adds_once = refl
