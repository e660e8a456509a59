-- ===== src/Gatt/Discovery.antt =====
-- How the client fills its maps when it connects with a token: query_services, query_characteristics
-- and query_descriptors of client/src/bluetoothLE/windows/, with make_uuid of
-- client/src/bluetoothLE/ble_common.hpp. What WinRT gives is the data `Answer`.
use Prim.Native.String.{String}
use ubiquitous_chainsaw.Base.{
  ℕ, Bool, true, false, List, [], ◌∷◌, ◌++◌, ◌||◌, none, some, Outcome, ok, ◌>>=◌, ◌>>◌, assert,
}
use ubiquitous_chainsaw.Services.{
  Uuid, Guid, uuid_bytes, uuid_service_whoami, uuid_characteristic_whoami_authenticate,
  uuid_service_whereami, uuid_characteristic_whereami_demand_rssi,
  uuid_characteristic_whereami_rssi_notification,
  uuid_descriptor_client_characteristic_configuration_descriptor,
}
use ubiquitous_chainsaw.Characteristic.Properties.{property_line, to_props_from_winrt}
use ubiquitous_chainsaw.Gatt.{Service, Device, uuid_eq, find}

-- Whether `NDEBUG` is defined: an `ASSERT` of a release build only evaluates its expression.
pub data Build : Type 0 where
  debug release : Build

unfoldable pub known_uuid : Uuid → Bool
unfolding uuid_eq
known_uuid uuid =
    uuid_eq uuid uuid_service_whoami
    || uuid_eq uuid uuid_characteristic_whoami_authenticate
    || uuid_eq uuid uuid_service_whereami
    || uuid_eq uuid uuid_characteristic_whereami_rssi_notification
    || uuid_eq uuid uuid_characteristic_whereami_demand_rssi
    || uuid_eq uuid uuid_descriptor_client_characteristic_configuration_descriptor

unfoldable pub make_uuid : Build → Guid → Outcome Uuid
unfolding known_uuid
make_uuid debug guid = assert (known_uuid (uuid_bytes guid)) >> ok (uuid_bytes guid)
make_uuid release guid = ok (uuid_bytes guid)

-- What a query answers: a list, a status other than success, or a list whose reading an exception
-- of WinRT ends; that of the query itself ends an empty one.
pub data Answer {ℓ} (A : Type ℓ) : Type ℓ where
  listed : List A → Answer A
  refused : Answer A
  cut_short : List A → Answer A

-- `try_emplace` of the unordered maps: a key that is there keeps its value.
unfoldable pub try_emplace {ℓ} : {A : Type ℓ} → Uuid → A → List (Uuid × A) → List (Uuid × A) × Bool
unfolding find
try_emplace uuid a container = elim (find uuid container) [
  | some old ↦ (container, false)
  | none ↦ (container ++ ((uuid, a) ∷ []), true)
]

-- The loop of `query_descriptors`; `make_descriptor` keeps WinRT's object, here its GUID.
unfoldable pub emplace_descriptors :
    Build → List Guid → List (Uuid × Guid) → Outcome (List (Uuid × Guid))
unfolding try_emplace
emplace_descriptors build [] container = ok container
emplace_descriptors build (guid ∷ rest) container = make_uuid build guid >>= λ uuid.
    emplace_descriptors build rest (try_emplace uuid guid container).0

unfoldable pub query_descriptors : Build → Answer Guid → Outcome (List (Uuid × Guid))
unfolding emplace_descriptors
query_descriptors build (listed guids) = emplace_descriptors build guids []
query_descriptors build refused = ok []
query_descriptors build (cut_short guids) = emplace_descriptors build guids []

-- A characteristic that WinRT lists, and one that the client has made of it. `handle` is what is
-- read from and written to.
pub record Listed {ℓ} (C : Type ℓ) : Type ℓ where
  pub guid : Guid
  pub properties : ℕ
  pub descriptors : Answer Guid
  pub handle : C

pub record Discovered {ℓ} (C : Type ℓ) : Type ℓ where
  pub handle : C
  pub descriptors : List (Uuid × Guid)

-- The line that a debug build logs of a characteristic's properties.
abbrev pub logged_line : Build → ℕ → Outcome (List String)
logged_line debug properties = property_line (to_props_from_winrt properties)
logged_line release properties = ok []

-- `ASSERT_FMT(emplaced, ...)`
abbrev pub assert_emplaced : Build → Bool → Outcome (Unit {0})
assert_emplaced debug emplaced = assert emplaced
assert_emplaced release emplaced = ok tt

module _ {ℓ} {C : Type ℓ} (build : Build) where
  -- `CCharacteristic::make`
  unfoldable pub make_discovered : Listed C → Outcome (Discovered C)
  unfolding query_descriptors
  make_discovered characteristic = do
    logged ← logged_line build characteristic.properties
    descriptors ← query_descriptors build characteristic.descriptors
    ok (record { handle = characteristic.handle; descriptors = descriptors })

  -- The loop of `query_characteristics`.
  unfoldable pub emplace_characteristics :
      List (Listed C) → Service (Discovered C) → Outcome (Service (Discovered C))
  unfolding make_discovered try_emplace
  emplace_characteristics [] container = ok container
  emplace_characteristics (c ∷ rest) container = do
    uuid ← make_uuid build c.guid
    made ← make_discovered c
    emplace_characteristics rest (try_emplace uuid made container).0

  unfoldable pub query_characteristics : Answer (Listed C) → Outcome (Service (Discovered C))
  unfolding emplace_characteristics
  query_characteristics (listed cs) = emplace_characteristics cs []
  query_characteristics refused = ok []
  query_characteristics (cut_short cs) = emplace_characteristics cs []

  -- The loop of `query_services`; `CService::make` queries the characteristics of the service.
  unfoldable pub emplace_services :
      List (Guid × Answer (Listed C))
      → List (Uuid × Service (Discovered C))
      → Outcome (List (Uuid × Service (Discovered C)))
  unfolding query_characteristics try_emplace
  emplace_services [] container = ok container
  emplace_services ((guid, characteristics) ∷ rest) container = do
    uuid ← make_uuid build guid
    service ← query_characteristics characteristics
    let (container', emplaced) = try_emplace uuid service container
    assert_emplaced build emplaced
    emplace_services rest container'

  -- `CDevice::query_services`: the map of the services, and whether the query has succeeded.
  unfoldable pub query_services :
      Answer (Guid × Answer (Listed C)) → Outcome (List (Uuid × Service (Discovered C)) × Bool)
  unfolding emplace_services
  query_services (listed services) =
      emplace_services services [] >>= λ container. ok (container, true)
  query_services refused = ok ([], false)
  query_services (cut_short services) =
      emplace_services services [] >>= λ container. ok (container, false)

-- `CDevice::Error`
pub data DeviceError : Type 0 where
  invalid_address failed_to_query_services constructor_error : DeviceError

-- What `FromBluetoothAddressAsync` gives.
pub data Lookup : Type 0 where
  found missing thrown : Lookup

pub data Made {ℓ} (C : Type ℓ) : Type ℓ where
  made : Device (Discovered C) → Made C
  failed : DeviceError → Made C

abbrev pub made_if {ℓ} : {C : Type ℓ} → ℕ → List (Uuid × Service (Discovered C)) × Bool → Made C
made_if address (services, true) = made (record { address = address; services = services })
made_if address (services, false) = failed failed_to_query_services

-- `CDevice::make`
unfoldable pub make_device {ℓ} :
    {C : Type ℓ} → Build → ℕ → Lookup → Answer (Guid × Answer (Listed C)) → Outcome (Made C)
unfolding query_services
make_device build address found answer =
    query_services build answer >>= λ result. ok (made_if address result)
make_device build address missing answer = ok (failed invalid_address)
make_device build address thrown answer = ok (failed constructor_error)
