-- ===== src/Services/Identifiers.antt =====
-- `UUID`, the base UUID and the identifiers of the services and characteristics.
use ubiquitous_chainsaw.Base.{ℕ, ◌+◌, ◌*◌, ◌/◌, ◌%◌, ◌^◌, List, [], ◌∷◌, set}

-- `UUID`: sixteen bytes.
abbrev pub Uuid : Type 0
Uuid = List ℕ

abbrev pub base_uuid : Uuid
base_uuid =
    0x00 ∷ 0x00 ∷ 0x00 ∷ 0x00 ∷ 0x00 ∷ 0x00 ∷ 0x10 ∷ 0x00 ∷ 0x80 ∷ 0x00 ∷ 0x00 ∷ 0x80 ∷ 0x5F ∷ 0x9b
    ∷ 0x34 ∷ 0xFB ∷ []

-- `(id & 0xFF00) >> 8` and `id & 0x00FF` of a `uint16_t`.
unfoldable pub apply_custom_id : Uuid → ℕ → Uuid
apply_custom_id uuid id = set (set uuid 2 (id / 256 % 256)) 3 (id % 256)

abbrev pub id_client_characteristic_configuration : ℕ
id_client_characteristic_configuration = 0x2902

abbrev pub id_service_whoami : ℕ
id_service_whoami = 0xBABE

abbrev pub id_characteristic_whoami_authenticate : ℕ
id_characteristic_whoami_authenticate = 0xB00B

abbrev pub id_service_whereami : ℕ
id_service_whereami = 0xFEED

abbrev pub id_characteristic_whereami_demand_rssi : ℕ
id_characteristic_whereami_demand_rssi = 0xBEEF

abbrev pub id_characteristic_whereami_rssi_notification : ℕ
id_characteristic_whereami_rssi_notification = 0xCAFE

unfoldable pub uuid_descriptor_client_characteristic_configuration_descriptor : Uuid
unfolding apply_custom_id
uuid_descriptor_client_characteristic_configuration_descriptor =
    apply_custom_id base_uuid id_client_characteristic_configuration

unfoldable pub uuid_service_whoami : Uuid
unfolding apply_custom_id
uuid_service_whoami = apply_custom_id base_uuid id_service_whoami

unfoldable pub uuid_characteristic_whoami_authenticate : Uuid
unfolding apply_custom_id
uuid_characteristic_whoami_authenticate =
    apply_custom_id base_uuid id_characteristic_whoami_authenticate

unfoldable pub uuid_service_whereami : Uuid
unfolding apply_custom_id
uuid_service_whereami = apply_custom_id base_uuid id_service_whereami

unfoldable pub uuid_characteristic_whereami_demand_rssi : Uuid
unfolding apply_custom_id
uuid_characteristic_whereami_demand_rssi =
    apply_custom_id base_uuid id_characteristic_whereami_demand_rssi

unfoldable pub uuid_characteristic_whereami_rssi_notification : Uuid
unfolding apply_custom_id
uuid_characteristic_whereami_rssi_notification =
    apply_custom_id base_uuid id_characteristic_whereami_rssi_notification

-- `UUID::Hasher`, over a `std::hash<uint8_t>` that the standard library gives.
unfoldable pub hash_uuid : (ℕ → ℕ) → ℕ → List ℕ → ℕ
hash_uuid hasher hash [] = hash
hash_uuid hasher hash (byte ∷ bytes) = hash_uuid hasher ((hash + hasher byte) * 31 % 2 ^ 64) bytes

-- A Windows GUID; `data4` holds eight bytes.
pub record Guid : Type 0 where
  pub data1 : ℕ
  pub data2 : ℕ
  pub data3 : ℕ
  pub data4 : List ℕ

-- `make_uuid` of client/src/bluetoothLE/ble_common.hpp, without its list of known UUIDs.
unfoldable pub uuid_bytes : Guid → Uuid
uuid_bytes g =
    (g.data1 / 2 ^ 24 % 256)
    ∷ (g.data1 / 2 ^ 16 % 256)
    ∷ (g.data1 / 2 ^ 8 % 256)
    ∷ (g.data1 % 256)
    ∷ (g.data2 / 2 ^ 8 % 256)
    ∷ (g.data2 % 256)
    ∷ (g.data3 / 2 ^ 8 % 256)
    ∷ (g.data3 % 256)
    ∷ g.data4
