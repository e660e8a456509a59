-- ===== src/Gatt/Release.antt =====
-- The discovery of a release build, which no listed UUID stops.
use ubiquitous_chainsaw.Base.{ℕ, ◌≡◌, refl, List, [], ◌∷◌, length, ok}
use ubiquitous_chainsaw.Services.{Uuid, Guid, uuid_bytes}
use ubiquitous_chainsaw.Gatt.{Service, Device, characteristic}
use ubiquitous_chainsaw.Gatt.Discovery.{
  release, Answer, listed, refused, cut_short, Listed, Discovered, found, made, make_uuid,
  try_emplace, emplace_descriptors, query_descriptors, make_discovered, emplace_characteristics,
  query_characteristics, emplace_services, query_services, make_device,
}
use ubiquitous_chainsaw.Gatt.Lookup.{AreServices, handle_of}
use ubiquitous_chainsaw.Gatt.Finds.{listed_characteristic, finds_first_listed}

descriptors_returned :
    (guids : List Guid) (container : List (Uuid × Guid))
    → (result : List (Uuid × Guid)) × (emplace_descriptors release guids container ≡ ok result)
unfolding emplace_descriptors make_uuid
descriptors_returned [] container = (container, refl)
descriptors_returned (guid ∷ rest) container =
    descriptors_returned rest (try_emplace (uuid_bytes guid) guid container).0

descriptors_queried :
    (answer : Answer Guid)
    → (result : List (Uuid × Guid)) × (query_descriptors release answer ≡ ok result)
unfolding query_descriptors
descriptors_queried (listed guids) = descriptors_returned guids []
descriptors_queried refused = ([], refl)
descriptors_queried (cut_short guids) = descriptors_returned guids []

characteristics_returned {ℓ} :
    {C : Type ℓ} (cs : List (Listed C)) (container : Service (Discovered C))
    → (result : Service (Discovered C)) × (emplace_characteristics release cs container ≡ ok result)
unfolding emplace_characteristics make_uuid make_discovered
characteristics_returned [] container = (container, refl)
characteristics_returned (c ∷ rest) container =
    let (descriptors, e) = descriptors_queried c.descriptors in
    let (result, returned) =
      characteristics_returned rest
        (try_emplace (uuid_bytes c.guid) (record { handle = c.handle; descriptors = descriptors })
          container).0 in
    (result, rw (e) returned)

characteristics_queried {ℓ} :
    {C : Type ℓ} (answer : Answer (Listed C))
    → (result : Service (Discovered C)) × (query_characteristics release answer ≡ ok result)
unfolding query_characteristics
characteristics_queried (listed cs) = characteristics_returned cs []
characteristics_queried refused = ([], refl)
characteristics_queried (cut_short cs) = characteristics_returned cs []

services_returned {ℓ} :
    {C : Type ℓ} (services : List (Guid × Answer (Listed C)))
    (container : List (Uuid × Service (Discovered C)))
    → (result : List (Uuid × Service (Discovered C))) × (emplace_services release services container
        ≡ ok result)
unfolding emplace_services make_uuid
services_returned [] container = (container, refl)
services_returned ((guid, answer) ∷ rest) container =
    let (service, e) = characteristics_queried answer in
    let (result, returned) =
      services_returned rest (try_emplace (uuid_bytes guid) service container).0 in
    (result, rw (e) returned)

-- A release build makes a device of whatever services Windows lists, once the address is found. In it
-- a pair of UUIDs finds exactly the characteristic that is listed first by the second UUID in the
-- service that is listed first by the first UUID, however many are listed and if one is listed twice:
-- nothing that is not listed, and nothing if the first such service does not have it.
pub release_finds_first_listed {ℓ} :
    {C : Type ℓ} (address : ℕ) (services : List (Guid × Answer (Listed C)))
    → AreServices services
    → (s c : Uuid) → length s ≡ 16
    → length c ≡ 16
    → (device : Device (Discovered C)) × (make_device release address found (listed services)
        ≡ ok (made device))
      × (device.address ≡ address)
      × (handle_of (characteristic device s c) ≡ listed_characteristic services s c)
release_finds_first_listed {C} address services are s c s16 c16 =
    let (result, e) = services_returned services [] in
    let device : Device (Discovered C) = record { address = address; services = result } in
    let makes : make_device release address found (listed services) ≡ ok (made device) =
      unfold make_device query_services in rw (e) in
    let (_, here, finds) =
      finds_first_listed release address found services device are makes s c s16 c16 in
    (device, makes, here, finds)
