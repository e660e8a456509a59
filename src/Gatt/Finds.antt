-- ===== src/Gatt/Finds.antt =====
-- `CDevice::characteristic` after `CDevice::make`.
use ubiquitous_chainsaw.Base.{
  ℕ, ◌≡◌, refl, sym, ap, ◌∙◌, Bool, true, false, List, [], ◌∷◌, Option, none, some, length,
  if◌then◌else◌, Option-cases, Outcome-cases, Outcome, ok, inl, inr, >>=-returned, >>-returned,
  ok_injective,
}
use ubiquitous_chainsaw.Services.{Uuid, Guid, uuid_bytes}
use ubiquitous_chainsaw.Gatt.{Service, Device, uuid_eq, find, characteristic}
use ubiquitous_chainsaw.Gatt.Discovery.{
  Build, Answer, listed, refused, cut_short, Listed, Discovered, Lookup, found, missing, thrown,
  Made, made, assert_emplaced, try_emplace, query_characteristics, emplace_services, query_services,
  make_device,
}
use ubiquitous_chainsaw.Gatt.Lookup.{
  entries, first_characteristic, first_service, handle_of, before_or, before_or-none, AreListed,
  AreServices, make_uuid_cases, find-try_emplace, stop≢ok, characteristics_found,
}

queried {ℓ} :
    {C : Type ℓ} (build : Build) (uuid : Uuid) (answer : Answer (Listed C))
    (result : Service (Discovered C))
    → length uuid ≡ 16
    → AreListed (entries answer)
    → query_characteristics build answer ≡ ok result
    → handle_of (find uuid result) ≡ first_characteristic uuid (entries answer)
unfolding query_characteristics find first_characteristic
queried build uuid (listed cs) result sixteen are h =
    characteristics_found build uuid cs [] result sixteen are h
queried build uuid refused result sixteen are h = rw (← ok_injective h)
queried build uuid (cut_short cs) result sixteen are h =
    characteristics_found build uuid cs [] result sixteen are h

-- What a service answers when it is asked for a characteristic: nothing without the service.
abbrev asked {ℓ} : {C : Type ℓ} → Uuid → Option (Service (Discovered C)) → Option (Option C)
asked uuid none = none
asked uuid (some service) = some (handle_of (find uuid service))

abbrev asked_listed {ℓ} : {C : Type ℓ} → Uuid → Option (Answer (Listed C)) → Option (Option C)
asked_listed uuid none = none
asked_listed uuid (some answer) = some (first_characteristic uuid (entries answer))

asked-before_or {ℓ} :
    {C : Type ℓ} (uuid : Uuid) (o : Option (Service (Discovered C))) (test : Bool)
    (service : Service (Discovered C)) (answer : Answer (Listed C))
    (rest : Option (Answer (Listed C)))
    → handle_of (find uuid service) ≡ first_characteristic uuid (entries answer)
    → before_or
        (asked uuid (before_or o (if test then some service else none)))
        (asked_listed uuid rest)
      ≡ before_or (asked uuid o) (asked_listed uuid (if test then some answer else rest))
asked-before_or uuid none true service answer rest h = ap some h
asked-before_or uuid none false service answer rest h = refl
asked-before_or uuid (some a) test service answer rest h = refl

-- A turn of the loop that has returned.
service_taken {ℓ} :
    {C : Type ℓ} (build : Build) (guid : Guid) (answer : Answer (Listed C))
    (rest : List (Guid × Answer (Listed C)))
    (container result : List (Uuid × Service (Discovered C)))
    → emplace_services build ((guid, answer) ∷ rest) container ≡ ok result
    → (service : Service (Discovered C)) × (query_characteristics build answer ≡ ok service)
      × (emplace_services build rest (try_emplace (uuid_bytes guid) service container).0
          ≡ ok result)
unfolding emplace_services
service_taken build guid answer rest container result h = elim (make_uuid_cases build guid) [
  | inl e ↦
      let (service, is_queried, emplaced) =
        >>=-returned (query_characteristics build answer) _ (rw (e, emplace_services) at h) in
      (service, is_queried, >>-returned (assert_emplaced build _) _ emplaced)
  | inr e ↦ absurd (stop≢ok (rw (e, emplace_services) at h))
]

services_found {ℓ} :
    {C : Type ℓ} (build : Build) (s c : Uuid) (services : List (Guid × Answer (Listed C)))
    (container result : List (Uuid × Service (Discovered C)))
    → length s ≡ 16
    → length c ≡ 16
    → AreServices services
    → emplace_services build services container ≡ ok result
    → asked c (find s result)
      ≡ before_or (asked c (find s container)) (asked_listed c (first_service s services))
unfolding emplace_services first_service
services_found build s c [] container result s16 c16 are h =
    rw (← ok_injective h) (sym (before_or-none (asked c (find s container))))
services_found build s c ((guid, answer) ∷ rest) container result s16 c16 (eight, of_service, are)
      h =
    let (service, is_queried, taken) = service_taken build guid answer rest container result h in
    services_found build s c rest (try_emplace (uuid_bytes guid) service container).0 result s16 c16
      are taken
    ∙ rw (find-try_emplace s guid service container eight s16) (
        asked-before_or c (find s container) (uuid_eq (uuid_bytes guid) s) service answer
          (first_service s rest) (queried build c answer service c16 of_service is_queried))

-- The characteristic that is listed first by its UUID in the service listed first by its own.
abbrev pub listed_characteristic {ℓ} :
    {C : Type ℓ} → List (Guid × Answer (Listed C)) → Uuid → Uuid → Option C
listed_characteristic services s c = elim (first_service s services) [
  | none ↦ none
  | some answer ↦ first_characteristic c (entries answer)
]

abbrev joined {ℓ} : {A : Type ℓ} → Option (Option A) → Option A
joined none = none
joined (some o) = o

characteristic-asked {ℓ} :
    {C : Type ℓ} (device : Device (Discovered C)) (s c : Uuid)
    → handle_of (characteristic device s c) ≡ joined (asked c (find s device.services))
unfolding characteristic
characteristic-asked device s c = elim (Option-cases (find s device.services)) [
  | inl e ↦ rw (e, characteristic)
  | inr (service, e) ↦ rw (e, characteristic)
]

joined-asked_listed {ℓ} :
    {C : Type ℓ} (services : List (Guid × Answer (Listed C))) (s c : Uuid)
    → joined (asked_listed c (first_service s services)) ≡ listed_characteristic services s c
joined-asked_listed services s c = elim (Option-cases (first_service s services)) [
  | inl e ↦ rw (e, listed_characteristic)
  | inr (answer, e) ↦ rw (e, listed_characteristic)
]

made_injective {ℓ} :
    {C : Type ℓ} {x y : Device (Discovered C)}
    → ◌≡◌ {A = Outcome (Made C)} (ok (made x)) (ok (made y))
    → x ≡ y
made_injective e = cc

made_services {ℓ} :
    {C : Type ℓ} (build : Build) (address : ℕ) (services : List (Guid × Answer (Listed C)))
    (device : Device (Discovered C))
    → make_device build address found (listed services) ≡ ok (made device)
    → (result : List (Uuid × Service (Discovered C))) × (emplace_services build services []
        ≡ ok result)
      × (device ≡ record { address = address; services = result })
unfolding make_device query_services
made_services build address services device h =
    elim (Outcome-cases (emplace_services build services [])) [
      | inl (result, e) ↦
          (result, e, sym (made_injective (rw (e, make_device, query_services) at h)))
      | inr (reason, e) ↦ absurd (stop≢ok (rw (e, make_device, query_services) at h))
    ]

-- In a device that the client has made, of a debug or a release build, it finds by two UUIDs exactly
-- the characteristic that Windows lists first by the second in the service that it lists first by the
-- first, however many it lists and if it lists one twice: nothing that is not listed, and nothing
-- where the first of the services does not have it. A device is made only if the query of the
-- services has succeeded.
pub finds_first_listed {ℓ} :
    {C : Type ℓ} (build : Build) (address : ℕ) (lookup : Lookup)
    (services : List (Guid × Answer (Listed C))) (device : Device (Discovered C))
    → AreServices services
    → make_device build address lookup (listed services) ≡ ok (made device)
    → (s c : Uuid) → length s ≡ 16
    → length c ≡ 16
    → (lookup ≡ found)
      × (device.address ≡ address)
      × (handle_of (characteristic device s c) ≡ listed_characteristic services s c)
unfolding make_device query_services find
finds_first_listed build address found services device are h s c s16 c16 =
    let (result, emplaced, same) = made_services build address services device h in
    (
      refl,
      rw (same),
      rw (same) (
          characteristic-asked (record { address = address; services = result }) s c
          ∙ (ap joined (services_found build s c services [] result s16 c16 are emplaced)
              ∙ joined-asked_listed services s c)),
    )
finds_first_listed build address missing services device are h s c s16 c16 = absurd cc
finds_first_listed build address thrown services device are h s c s16 c16 = absurd cc
