-- ===== src/Gatt.antt =====
-- The services of a connected device and how the client finds a characteristic in them:
-- client/src/bluetoothLE/windows/CDevice.cpp and CService.cpp. A caller holds the device, which owns
-- its services, which own their characteristics, so `lock` of the weak pointers succeeds.
pub mod Discovery
pub mod Lookup
pub mod Finds
pub mod Release
mod Tests
use ubiquitous_chainsaw.Base.{ℕ, Bool, List, [], ◌∷◌, Option, none, some, if◌then◌else◌}
use ubiquitous_chainsaw.Security.Hash.{same_bytes}
use ubiquitous_chainsaw.Services.{Uuid}

-- `operator==` of `UUID`; both arrays hold sixteen bytes.
unfoldable pub uuid_eq : Uuid → Uuid → Bool
unfolding same_bytes
uuid_eq lhs rhs = same_bytes lhs rhs

-- `find` of the unordered maps, keyed by UUID.
unfoldable pub find {ℓ} : {A : Type ℓ} → Uuid → List (Uuid × A) → Option A
unfolding uuid_eq
find uuid [] = none
find uuid ((key, value) ∷ rest) = if uuid_eq key uuid then some value else find uuid rest

abbrev pub Service {ℓ} : Type ℓ → Type ℓ
Service C = List (Uuid × C)

pub record Device {ℓ} (C : Type ℓ) : Type ℓ where
  pub address : ℕ
  pub services : List (Uuid × Service C)

-- `CDevice::service`
unfoldable pub service {ℓ} : {C : Type ℓ} → Device C → Uuid → Option (Service C)
unfolding find
service device uuid = find uuid device.services

-- `CDevice::characteristic`
unfoldable pub characteristic {ℓ} : {C : Type ℓ} → Device C → Uuid → Uuid → Option C
unfolding find
characteristic device service_uuid characteristic_uuid = elim (find service_uuid device.services) [
  | none ↦ none
  | some found ↦ find characteristic_uuid found
]
