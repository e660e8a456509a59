-- ===== src/Profiles/Copied.antt =====
-- A copy of a registered profile, once the profile that was copied is destroyed.
use ubiquitous_chainsaw.Base.{
  ℕ, suc, ◌≡◌, refl, List, [], ◌∷◌, ◌++◌, length, some, ok, stop, undefined,
}
use ubiquitous_chainsaw.Security.Decode.{Decoders}
use ubiquitous_chainsaw.Nvs.Flash.{NvsFlash}
use ubiquitous_chainsaw.KeyTransfer.Token.{key_server_private}
use ubiquitous_chainsaw.Services.{id_service_whoami, id_characteristic_whoami_authenticate}
use ubiquitous_chainsaw.WhoAmI.Token.{WhoAmI}
use ubiquitous_chainsaw.Profiles.Memory.{
  Memory, ChrDef, Profile, whoami, authenticate, profile, model, characteristic_data, uuid128,
  chr_defs, destroyed, read_model, read_data, read_profile, read_uuid, read_chr_defs,
}
use ubiquitous_chainsaw.Profiles.Characteristic.{
  CharsPropertyFlag, make_ble_uuid128, make_data, copy_characteristic,
}
use ubiquitous_chainsaw.Profiles.Service.{
  SvcDef, primary, end_of_array, copied_service, copy_service, to_svc_def,
}
use ubiquitous_chainsaw.Profiles.Profile.{
  load_key, copy_characteristics, copy_profile, as_nimble_service, destroy_characteristics,
  destroy_service, destroy_profile,
}
use ubiquitous_chainsaw.Profiles.Found.{found_characteristic, found_characteristics, found_service}
use ubiquitous_chainsaw.Profiles.Live.{read_at, write_at}
use ubiquitous_chainsaw.Profiles.Offered.{offered_whoami, found_under}
use ubiquitous_chainsaw.Profiles.Registered.{def_at, registered_whoami, whoami_memory}

-- The array of a registered `CWhoAmI` at the address `n`.
abbrev defs_of : ℕ → List ChrDef
defs_of n = def_at (suc n) CharsPropertyFlag.read ∷ end_of_array ∷ []

abbrev after_profile : ℕ → ℕ
after_profile n = suc (suc (suc (suc (suc n))))

-- The objects of a registered profile and those of its copy, but for the profiles: the array is that
-- of the profile at `n`, the data of the characteristic stand at `d`.
abbrev objects : ℕ → ℕ → Memory
objects n d =
    chr_defs (defs_of n)
    ∷ uuid128 (make_ble_uuid128 id_service_whoami)
    ∷ model (record { own_data = d; callback = authenticate; profile = n })
    ∷ characteristic_data
        (make_data id_characteristic_whoami_authenticate CharsPropertyFlag.read [])
    ∷ []

abbrev copied_whoami : WhoAmI → ℕ → Profile
copied_whoami self n = whoami self (record {
  characteristics = suc (after_profile n) ∷ [];
  service = record {
    uuid = some (suc (suc (after_profile n)));
    characteristics = some (suc (suc (suc (after_profile n))));
  };
})

abbrev copied_memory : WhoAmI → Memory → Memory
copied_memory self m = objects (length m) (after_profile (length m)) ++ whoami_memory self m

copies :
    {S : Type 0} (nvs : NvsFlash S) (decode : Decoders) (self : WhoAmI) (m : Memory) (s s' : S)
    (key : List ℕ)
    → load_key nvs decode.private_key key_server_private s ≡ ok (key, s')
    → copy_profile nvs decode (registered_whoami self (length m)) (whoami_memory self m) s
      ≡ ok (copied_whoami (record self { private_key = key }) (length m), copied_memory self m, s')
unfolding copy_profile copy_characteristics copy_characteristic copy_service copied_service
    read_model read_data read_uuid read_chr_defs
copies nvs decode self m s s' key loads =
    let n = length m in
    let own = chr_defs (defs_of n) ∷ uuid128 (make_ble_uuid128 id_service_whoami) ∷ [] in
    let base = profile (registered_whoami self n) ∷ m in
    let made = model (record { own_data = suc n; callback = authenticate; profile = n }) in
    let data_cell =
      characteristic_data
        (make_data id_characteristic_whoami_authenticate CharsPropertyFlag.read []) in
    let copied_model =
      model (record { own_data = after_profile n; callback = authenticate; profile = n }) in
    let copied_pair : Memory = copied_model ∷ data_cell ∷ [] in
    let with_model : Memory = made ∷ data_cell ∷ base in
    rw (
      loads,
      copy_characteristics,
      read_at own made (data_cell ∷ base),
      read_at (own ++ (made ∷ [])) data_cell base,
      read_at (copied_pair ++ (chr_defs (defs_of n) ∷ []))
          (uuid128 (make_ble_uuid128 id_service_whoami)) with_model,
      read_at copied_pair (chr_defs (defs_of n))
          (uuid128 (make_ble_uuid128 id_service_whoami) ∷ with_model),
    )

abbrev gone : Memory → Memory
gone m = destroyed ∷ destroyed ∷ destroyed ∷ destroyed ∷ destroyed ∷ m

abbrev left_memory : Memory → Memory
left_memory m = objects (length m) (after_profile (length m)) ++ gone m

destroys :
    (self : WhoAmI) (m : Memory)
    → destroy_profile (length m) (copied_memory self m) ≡ ok (left_memory m)
unfolding destroy_profile destroy_characteristics destroy_service read_profile read_model
destroys self m =
    let n = length m in
    let copy = objects n (after_profile n) in
    let own_uuid = uuid128 (make_ble_uuid128 id_service_whoami) in
    let owner = profile (registered_whoami self n) in
    let made = model (record { own_data = suc n; callback = authenticate; profile = n }) in
    let data_cell =
      characteristic_data
        (make_data id_characteristic_whoami_authenticate CharsPropertyFlag.read []) in
    let one : Memory = destroyed ∷ [] in
    let two : Memory = destroyed ∷ destroyed ∷ [] in
    rw (
      read_at (copy ++ (chr_defs (defs_of n) ∷ own_uuid ∷ made ∷ data_cell ∷ [])) owner m,
      write_at copy destroyed (chr_defs (defs_of n)) (own_uuid ∷ made ∷ data_cell ∷ owner ∷ m),
      write_at (copy ++ one) destroyed own_uuid (made ∷ data_cell ∷ owner ∷ m),
      read_at (copy ++ two) made (data_cell ∷ owner ∷ m),
      write_at (copy ++ (destroyed ∷ destroyed ∷ made ∷ [])) destroyed data_cell (owner ∷ m),
      write_at (copy ++ two) destroyed made (destroyed ∷ owner ∷ m),
      write_at (copy ++ (two ++ two)) destroyed owner m,
    )

abbrev copied_service_def : ℕ → SvcDef
copied_service_def n = record {
  type = primary;
  uuid = some (suc (suc (after_profile n)));
  characteristics = some (suc (suc (suc (after_profile n))));
}

dangles :
    (m : Memory) → found_service (copied_service_def (length m)) (left_memory m) ≡ stop undefined
unfolding found_service found_characteristics found_characteristic read_uuid read_chr_defs
dangles m =
    let n = length m in
    let copied_model =
      model (record { own_data = after_profile n; callback = authenticate; profile = n }) in
    let data_cell =
      characteristic_data
        (make_data id_characteristic_whoami_authenticate CharsPropertyFlag.read []) in
    let own_uuid = uuid128 (make_ble_uuid128 id_service_whoami) in
    let below : Memory = copied_model ∷ data_cell ∷ gone m in
    rw (
      read_at (chr_defs (defs_of n) ∷ []) own_uuid below,
      read_at [] (chr_defs (defs_of n)) (own_uuid ∷ below),
      read_at (objects n (after_profile n) ++ (destroyed ∷ destroyed ∷ destroyed ∷ [])) destroyed
          (destroyed ∷ m),
    )

found_before :
    (self : WhoAmI) (m : Memory)
    → found_service (copied_service_def (length m)) (copied_memory self m)
      ≡ ok (make_ble_uuid128 id_service_whoami, offered_whoami (length m))
unfolding found_service found_characteristics read_uuid read_chr_defs
found_before self m =
    let n = length m in
    let copied_model =
      model (record { own_data = after_profile n; callback = authenticate; profile = n }) in
    let data_cell =
      characteristic_data
        (make_data id_characteristic_whoami_authenticate CharsPropertyFlag.read []) in
    let own_uuid = uuid128 (make_ble_uuid128 id_service_whoami) in
    let below : Memory = copied_model ∷ data_cell ∷ whoami_memory self m in
    rw (
      read_at (chr_defs (defs_of n) ∷ []) own_uuid below,
      read_at [] (chr_defs (defs_of n)) (own_uuid ∷ below),
      found_under (objects n (after_profile n)) (chr_defs (defs_of n) ∷ own_uuid ∷ [])
          (profile (registered_whoami self n) ∷ m) id_characteristic_whoami_authenticate
          CharsPropertyFlag.read authenticate n,
    )

-- The service of a copy of the profile at `length m`, before and after that profile is destroyed.
abbrev pub Dangles :
    {S : Type 0} (nvs : NvsFlash S) (decode : Decoders) (self : WhoAmI) (m : Memory) (s s' : S)
    → Type 0
Dangles nvs decode self m s s' =
    (copy : Profile) × (with_copy : Memory) × (left : Memory) × (def : SvcDef) × (copy_profile nvs
        decode (registered_whoami self (length m)) (whoami_memory self m) s
      ≡ ok (copy, with_copy, s'))
    × (as_nimble_service copy ≡ ok def)
    × (found_service def with_copy
        ≡ ok (make_ble_uuid128 id_service_whoami, offered_whoami (length m)))
    × (destroy_profile (length m) with_copy ≡ ok left)
    × (found_service def left ≡ stop undefined)

-- The array of a copied `CWhoAmI` points into the profile that was copied: its service is found with
-- the characteristic of that profile, and once that profile is destroyed, reading the service of the
-- copy, which is still there, is undefined. So it is for every registered profile, whatever else is in
-- memory, if the key can be loaded again.
pub copied_profile-Dangles :
    {S : Type 0} (nvs : NvsFlash S) (decode : Decoders) (self : WhoAmI) (m : Memory) (s s' : S)
    (key : List ℕ)
    → load_key nvs decode.private_key key_server_private s ≡ ok (key, s')
    → Dangles nvs decode self m s s'
unfolding as_nimble_service to_svc_def
copied_profile-Dangles nvs decode self m s s' key loads = (
  copied_whoami (record self { private_key = key }) (length m),
  copied_memory self m,
  left_memory m,
  copied_service_def (length m),
  copies nvs decode self m s s' key loads,
  refl,
  found_before self m,
  destroys self m,
  dangles m,
)
