-- ===== src/Profiles/Service.antt =====
-- server/main/ble/profiles/CGattService.cpp
use ubiquitous_chainsaw.Base.{
  ℕ, suc, List, [], ◌∷◌, ◌++◌, length, Option, none, some, Outcome, ok, stop, undefined, ◌>>=◌,
}
use ubiquitous_chainsaw.Profiles.Memory.{
  Memory, ChrDef, GattService, uuid128, chr_defs, read_uuid, read_chr_defs,
}
use ubiquitous_chainsaw.Profiles.Characteristic.{make_ble_uuid128, to_chr_def}

abbrev pub end_of_array : ChrDef
end_of_array = record {
  uuid = none;
  access_cb = none;
  arg = none;
  descriptors = none;
  flags = 0;
  min_key_size = 0;
  val_handle = none;
}

-- The loop of `make_nimble_characteristics_arr`.
unfoldable pub emplace_chr_defs : List ℕ → Memory → Outcome (List ChrDef)
emplace_chr_defs [] memory = ok []
emplace_chr_defs (c ∷ cs) memory = do
  def ← to_chr_def c memory
  defs ← emplace_chr_defs cs memory
  ok (def ∷ defs)

unfoldable pub make_nimble_characteristics_arr : List ℕ → Memory → Outcome (List ChrDef)
make_nimble_characteristics_arr characteristics memory =
    emplace_chr_defs characteristics memory >>= λ defs. ok (defs ++ (end_of_array ∷ []))

-- `CGattService::CGattService(uint16_t, std::vector<CCharacteristic>&)`
unfoldable pub make_gatt_service : ℕ → List ℕ → Memory → Outcome (GattService × Memory)
make_gatt_service uuid characteristics memory = do
  let with_uuid = uuid128 (make_ble_uuid128 uuid) ∷ memory
  defs ← make_nimble_characteristics_arr characteristics with_uuid
  ok (
    record { uuid = some (length memory); characteristics = some (suc (length memory)) },
    chr_defs defs ∷ with_uuid,
  )

-- `CGattService::CGattService()`
abbrev pub empty_service : GattService
empty_service = record { uuid = none; characteristics = none }

-- `ble_gatt_svc_def`, without `includes`, which is always null.
pub data SvcType : Type 0 where
  primary end : SvcType

pub record SvcDef : Type 0 where
  pub type : SvcType
  pub uuid : Option ℕ
  pub characteristics : Option ℕ

-- `operator ble_gatt_svc_def`: without a UUID it takes the address of a member of nothing.
unfoldable pub to_svc_def : GattService → Outcome SvcDef
to_svc_def service = elim service.uuid [
  | none ↦ stop undefined
  | some at ↦
      ok record { type = primary; uuid = some at; characteristics = service.characteristics }
]

-- Both lists of a service that was made.
unfoldable pub copied_service : Option ℕ → Option ℕ → Memory → Outcome (GattService × Memory)
copied_service (some uuid) (some characteristics) memory = do
  bytes ← read_uuid uuid memory
  defs ← read_chr_defs characteristics memory
  ok (
    record { uuid = some (length memory); characteristics = some (suc (length memory)) },
    chr_defs defs ∷ uuid128 bytes ∷ memory,
  )
copied_service (some uuid) none memory = do
  bytes ← read_uuid uuid memory
  ok (record { uuid = some (length memory); characteristics = none }, uuid128 bytes ∷ memory)
copied_service none _ memory = stop undefined

-- `CGattService::copy`: the UUID is copied, and the array with the pointers that it holds.
unfoldable pub copy_service : GattService → Memory → Outcome (GattService × Memory)
unfolding copied_service
copy_service source memory = copied_service source.uuid source.characteristics memory
