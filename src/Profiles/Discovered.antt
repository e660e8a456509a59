-- ===== src/Profiles/Discovered.antt =====
-- What a client discovers on a token that has registered its profiles: CDevice.cpp of the client over
-- CProfileCache.cpp of the token.
use ubiquitous_chainsaw.Base.{
  ℕ, ◌^◌, ◌<◌, ◌≡◌, refl, List, [], ◌∷◌, map, length, Option, ◌==◌, if◌then◌else◌, some, ok, arith,
}
use ubiquitous_chainsaw.Security.Decode.{Decoders, IsKey}
use ubiquitous_chainsaw.Nvs.Flash.{NvsFlash, NvsWorks, OpenMode, Entry, blob}
use ubiquitous_chainsaw.KeyTransfer.Token.{
  encryption_namespace, key_server_private, key_client_public,
}
use ubiquitous_chainsaw.Services.{
  Guid, uuid_bytes, base_uuid, apply_custom_id, id_service_whoami,
  id_characteristic_whoami_authenticate, id_service_whereami,
  id_characteristic_whereami_demand_rssi, id_characteristic_whereami_rssi_notification,
  uuid_service_whoami, uuid_characteristic_whoami_authenticate, uuid_service_whereami,
  uuid_characteristic_whereami_demand_rssi, uuid_characteristic_whereami_rssi_notification,
  uuid_descriptor_client_characteristic_configuration_descriptor,
}
use ubiquitous_chainsaw.Characteristic.Properties.{
  property_line, to_props_from_winrt, properties_to_str, emplace_each,
  characteristic_properties_to_str, switch, includes, collect,
}
use ubiquitous_chainsaw.Gatt.{Device, characteristic}
use ubiquitous_chainsaw.Gatt.Discovery.{
  Build, debug, release, Answer, listed, Listed, Discovered, found, made, make_device, make_uuid,
  make_discovered, query_services, query_characteristics, query_descriptors, try_emplace,
}
use ubiquitous_chainsaw.Profiles.Cache.{GattServer, CProfileCache, Builder, make_profiles}
use ubiquitous_chainsaw.Profiles.Loaded.{ReadsBlobs}
use ubiquitous_chainsaw.Profiles.Registry.{whereami_at}
use ubiquitous_chainsaw.Profiles.Start.{TakesServices, token-Registers}
use ubiquitous_chainsaw.Profiles.Memory.{Memory, authenticate, demand_rssi, rssi_notification}
use ubiquitous_chainsaw.Profiles.Characteristic.{CharsPropertyFlag, make_ble_uuid128}
use ubiquitous_chainsaw.Profiles.Found.{Found, found_services}
use ubiquitous_chainsaw.Profiles.Offered.{offered, on_token}

-- The client characteristic configuration descriptor, which a GATT server adds to a characteristic
-- that notifies: 00002902-0000-1000-8000-00805f9b34fb.
abbrev pub configuration_guid : Guid
configuration_guid = record {
  data1 = 0x2902;
  data2 = 0;
  data3 = 0x1000;
  data4 = 0x80 ∷ 0x00 ∷ 0x00 ∷ 0x80 ∷ 0x5f ∷ 0x9b ∷ 0x34 ∷ 0xfb ∷ [];
}

abbrev pub descriptors_of : Found → Answer Guid
descriptors_of c = listed (if c.flags == 0x10 then configuration_guid ∷ [] else [])

configuration_uuid :
    uuid_bytes configuration_guid ≡ uuid_descriptor_client_characteristic_configuration_descriptor
unfolding uuid_bytes uuid_descriptor_client_characteristic_configuration_descriptor
configuration_uuid = refl

-- How Windows lists what the token has registered, where `guid_of` is the GUID by which it gives a
-- UUID whose bytes it has received.
module _ (guid_of : List ℕ → Guid) where
  abbrev pub listed_characteristic : Found → Listed Found
  listed_characteristic c = record {
    guid = guid_of c.uuid;
    properties = c.flags;
    descriptors = descriptors_of c;
    handle = c;
  }

  abbrev pub listed_services : List (List ℕ × List Found) → List (Guid × Answer (Listed Found))
  listed_services [] = []
  listed_services ((uuid, cs) ∷ rest) =
      (guid_of uuid, listed (map listed_characteristic cs)) ∷ listed_services rest

-- What a client makes of a characteristic without and with the descriptor.
abbrev plain : Found → Discovered Found
plain c = record { handle = c; descriptors = [] }

abbrev notifying : Found → Discovered Found
notifying c = record {
  handle = c;
  descriptors =
      (uuid_descriptor_client_characteristic_configuration_descriptor, configuration_guid) ∷ [];
}

abbrev authenticates : ℕ → Found
authenticates whoami_at =
    offered id_characteristic_whoami_authenticate CharsPropertyFlag.read authenticate whoami_at

abbrev demands : ℕ → Found
demands whereami_at =
    offered id_characteristic_whereami_demand_rssi CharsPropertyFlag.write demand_rssi whereami_at

abbrev notifies : ℕ → Found
notifies whereami_at =
    offered id_characteristic_whereami_rssi_notification CharsPropertyFlag.notify rssi_notification
      whereami_at

abbrev device : ℕ → ℕ → ℕ → Device (Discovered Found)
device whoami_at whereami_at address = record {
  address = address;
  services =
      (
        uuid_service_whereami,
        (uuid_characteristic_whereami_demand_rssi, plain (demands whereami_at))
            ∷ (uuid_characteristic_whereami_rssi_notification, notifying (notifies whereami_at))
            ∷ [],
      )
      ∷ (
        uuid_service_whoami,
        (uuid_characteristic_whoami_authenticate, plain (authenticates whoami_at)) ∷ [],
      )
      ∷ [];
}

module _ (guid_of : List ℕ → Guid)
    (same : (id : ℕ)
      → id < 2 ^ 16
      → uuid_bytes (guid_of (make_ble_uuid128 id)) ≡ apply_custom_id base_uuid id)
    (whoami_at whereami_at : ℕ) where
  discovers :
      (build : Build) (address : ℕ)
      → make_device build address found
          (listed (listed_services guid_of (on_token whoami_at whereami_at)))
        ≡ ok (made (device whoami_at whereami_at address))
  unfolding make_device make_uuid make_discovered query_services query_characteristics
      query_descriptors try_emplace property_line to_props_from_winrt properties_to_str emplace_each
      characteristic_properties_to_str switch includes collect apply_custom_id uuid_service_whoami
      uuid_characteristic_whoami_authenticate uuid_service_whereami
      uuid_characteristic_whereami_demand_rssi uuid_characteristic_whereami_rssi_notification
      uuid_descriptor_client_characteristic_configuration_descriptor
  discovers debug address =
      rw
        (
          same id_service_whereami (omega arith),
          same id_characteristic_whereami_demand_rssi (omega arith),
          same id_characteristic_whereami_rssi_notification (omega arith),
          same id_service_whoami (omega arith),
          same id_characteristic_whoami_authenticate (omega arith),
          configuration_uuid,
        )
        refl
  discovers release address =
      rw
        (
          same id_service_whereami (omega arith),
          same id_characteristic_whereami_demand_rssi (omega arith),
          same id_characteristic_whereami_rssi_notification (omega arith),
          same id_service_whoami (omega arith),
          same id_characteristic_whoami_authenticate (omega arith),
          configuration_uuid,
        )
        refl

-- The hypothesis on Windows: a UUID of the program is given by the GUID that is written like it.
abbrev pub GivesUuid : (List ℕ → Guid) → Type 0
GivesUuid guid_of =
    (id : ℕ)
    → id < 2 ^ 16
    → uuid_bytes (guid_of (make_ble_uuid128 id)) ≡ apply_custom_id base_uuid id

-- The token's profiles are made, and the client finds the three characteristics in the device that it
-- makes of what NimBLE finds.
abbrev pub Discovers :
    {S : Type 0} (nvs : NvsFlash S) (decode : Decoders) (server : GattServer)
    (guid_of : List ℕ → Guid) (m : Memory) (s : S) (build : Build) (address : ℕ)
    → Type 0
Discovers {S} nvs decode server guid_of m s build address =
    (cache : CProfileCache) × (b : Builder S) × (services : List (List ℕ × List Found))
    × (d : Device (Discovered Found)) × (make_profiles nvs decode server m s ≡ ok (cache, b))
    × (found_services cache.services b.memory ≡ ok services)
    × (make_device build address found (listed (listed_services guid_of services)) ≡ ok (made d))
    × (characteristic d uuid_service_whoami uuid_characteristic_whoami_authenticate
        ≡ some (plain (authenticates (length m))))
    × (characteristic d uuid_service_whereami uuid_characteristic_whereami_demand_rssi
        ≡ some (plain (demands (whereami_at (length m)))))
    × (characteristic d uuid_service_whereami uuid_characteristic_whereami_rssi_notification
        ≡ some (notifying (notifies (whereami_at (length m)))))

-- From the keys in the flash of a token to the lookups of a client, in a debug or a release build: the
-- token makes its profiles; of the services that NimBLE finds at their pointers, listed by Windows,
-- the client makes a device; and there it finds by the three pairs of UUIDs of ble_services.hpp the
-- three characteristics of the token, served by their own callbacks for the profile of their own
-- service, with the properties to read, to write and to notify, and the descriptor of its
-- subscription in the last. So it is if wolfCrypt decodes the keys, on a
-- flash that works and if NimBLE takes the services.
pub token_is_discovered :
    {S : Type 0} (nvs : NvsFlash S) (decode : Decoders) (entry : S → List ℕ → Option Entry)
    (IsOpen : OpenMode → ℕ → S → Type 0)
    → NvsWorks nvs encryption_namespace entry IsOpen
    → ReadsBlobs nvs entry IsOpen
    → (server : GattServer) → TakesServices server
    → (guid_of : List ℕ → Guid) → GivesUuid guid_of
    → (m : Memory) (private_key client_key : List ℕ) (s : S)
    → entry s key_server_private ≡ some (blob private_key)
    → entry s key_client_public ≡ some (blob client_key)
    → IsKey decode.private_key private_key
    → IsKey decode.public_key client_key
    → (build : Build) (address : ℕ) → Discovers nvs decode server guid_of m s build address
unfolding characteristic apply_custom_id uuid_service_whoami uuid_characteristic_whoami_authenticate
    uuid_service_whereami uuid_characteristic_whereami_demand_rssi
    uuid_characteristic_whereami_rssi_notification
token_is_discovered nvs decode entry IsOpen works reads server takes guid_of same m private_key
      client_key s p c is_private is_public build address =
    let (cache, b, makes, finds, whoami_there, whereami_there) =
      token-Registers nvs decode entry IsOpen works reads server takes m private_key client_key s p
        c is_private is_public in
    let n = length m in
    (
      cache,
      b,
      on_token n (whereami_at n),
      device n (whereami_at n) address,
      makes,
      finds,
      discovers guid_of same n (whereami_at n) build address,
      refl,
      refl,
      refl,
    )
