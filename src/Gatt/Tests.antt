-- ===== src/Gatt/Tests.antt =====
-- Lists of services: one that Windows gives twice, and one that a debug build does not know.
use ubiquitous_chainsaw.Base.{ℕ, ◌≡◌, refl, List, [], ◌∷◌, some, ok, stop, assertion}
use ubiquitous_chainsaw.Security.Hash.{same_bytes}
use ubiquitous_chainsaw.Services.{
  Guid, uuid_bytes, apply_custom_id, uuid_service_whoami, uuid_characteristic_whoami_authenticate,
  uuid_service_whereami, uuid_characteristic_whereami_demand_rssi,
  uuid_characteristic_whereami_rssi_notification,
  uuid_descriptor_client_characteristic_configuration_descriptor,
}
use ubiquitous_chainsaw.Gatt.{Device, uuid_eq, characteristic}
use ubiquitous_chainsaw.Gatt.Discovery.{
  debug, release, Answer, listed, cut_short, Listed, Discovered, found, make_device, query_services,
  make_uuid, made, known_uuid,
}
use ubiquitous_chainsaw.Gatt.Lookup.{handle_of, first_service, first_characteristic}
use ubiquitous_chainsaw.Gatt.Finds.{listed_characteristic}
use ubiquitous_chainsaw.Gatt.Release.{release_finds_first_listed}

abbrev guid : ℕ → Guid
guid data1 = record {
  data1 = data1;
  data2 = 0;
  data3 = 0x1000;
  data4 = 0x80 ∷ 0x00 ∷ 0x00 ∷ 0x80 ∷ 0x5f ∷ 0x9b ∷ 0x34 ∷ 0xfb ∷ [];
}

abbrev item : ℕ → ℕ → Listed ℕ
item data1 handle = record {
  guid = guid data1;
  properties = 2;
  descriptors = listed [];
  handle = handle;
}

-- The generic access service 0x1800, and the service of the token twice.
abbrev services : List (Guid × Answer (Listed ℕ))
services =
    (guid 0x1800, listed (item 0x2a00 1 ∷ []))
    ∷ (guid 0xBABE, cut_short (item 0xB00B 2 ∷ item 0xB00B 3 ∷ []))
    ∷ (guid 0xBABE, listed (item 0xB00B 4 ∷ []))
    ∷ []

release_finds_first_listed_example :
    (device : Device (Discovered ℕ)) × (make_device release 5 found (listed services)
      ≡ ok (made device))
    × (device.address ≡ 5)
    × (handle_of (characteristic device (uuid_bytes (guid 0xBABE)) (uuid_bytes (guid 0xB00B)))
        ≡ listed_characteristic services (uuid_bytes (guid 0xBABE)) (uuid_bytes (guid 0xB00B)))
unfolding uuid_bytes
release_finds_first_listed_example =
    release_finds_first_listed 5 services
      (refl, (refl, tt), (refl, (refl, (refl, tt)), (refl, (refl, tt), tt)))
      (uuid_bytes (guid 0xBABE)) (uuid_bytes (guid 0xB00B)) refl refl

finds_second_handle :
    listed_characteristic services (uuid_bytes (guid 0xBABE)) (uuid_bytes (guid 0xB00B)) ≡ some 2
unfolding uuid_bytes first_service first_characteristic uuid_eq same_bytes
finds_second_handle = refl

-- A debug build stops at the generic access service.
debug_stops : make_device debug 5 found (listed services) ≡ stop assertion
unfolding make_device query_services make_uuid known_uuid uuid_bytes apply_custom_id same_bytes
    uuid_service_whoami uuid_characteristic_whoami_authenticate uuid_service_whereami
    uuid_characteristic_whereami_demand_rssi uuid_characteristic_whereami_rssi_notification
    uuid_descriptor_client_characteristic_configuration_descriptor
debug_stops = refl
