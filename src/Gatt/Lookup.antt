-- ===== src/Gatt/Lookup.antt =====
-- What the client finds in a device, by what WinRT has listed.
use ubiquitous_chainsaw.Base.{
  ◌≡◌, ◌≢◌, ◌⊎◌, Stop, refl, sym, ap, ◌∙◌, Bool, true, false, List, [], ◌∷◌, ◌++◌, Option, none,
  some, length, if◌then◌else◌, Bool-cases, Option-cases, ok, stop, assertion, inl, inr, arith,
  >>=-returned, ok_injective,
}
use ubiquitous_chainsaw.Security.Hash.Laws.{same_bytes→eq}
use ubiquitous_chainsaw.Services.{Uuid, Guid, uuid_bytes}
use ubiquitous_chainsaw.Gatt.{Service, uuid_eq, find}
use ubiquitous_chainsaw.Gatt.Discovery.{
  Build, debug, release, Answer, listed, refused, cut_short, Listed, Discovered, known_uuid,
  logged_line, make_uuid, try_emplace, make_discovered, emplace_characteristics, query_descriptors,
}

-- The entries of an answer that the client takes.
abbrev pub entries {ℓ} : {A : Type ℓ} → Answer A → List A
entries (listed l) = l
entries refused = []
entries (cut_short l) = l

-- The first that is listed by a UUID.
unfoldable pub first_characteristic {ℓ} : {C : Type ℓ} → Uuid → List (Listed C) → Option C
first_characteristic uuid [] = none
first_characteristic uuid (c ∷ rest) =
    if uuid_eq (uuid_bytes c.guid) uuid then some c.handle else first_characteristic uuid rest

unfoldable pub first_service {ℓ} : {A : Type ℓ} → Uuid → List (Guid × A) → Option A
first_service uuid [] = none
first_service uuid ((guid, a) ∷ rest) =
    if uuid_eq (uuid_bytes guid) uuid then some a else first_service uuid rest

-- The handle of what was found.
abbrev pub handle_of {ℓ} : {C : Type ℓ} → Option (Discovered C) → Option C
handle_of none = none
handle_of (some d) = some d.handle

-- What `find` finds after more has been emplaced: what was there before, or the first of the rest.
abbrev pub before_or {ℓ} : {A : Type ℓ} → Option A → Option A → Option A
before_or (some a) rest = some a
before_or none rest = rest

-- `Data4` of a GUID is an array of eight bytes.
abbrev pub IsGuid : Guid → Type 0
IsGuid guid = length guid.data4 ≡ 8

abbrev pub AreListed {ℓ} : {C : Type ℓ} → List (Listed C) → Type 0
AreListed [] = Unit
AreListed (c ∷ rest) = IsGuid c.guid × AreListed rest

abbrev pub AreServices {ℓ} : {C : Type ℓ} → List (Guid × Answer (Listed C)) → Type 0
AreServices [] = Unit
AreServices ((guid, answer) ∷ rest) = IsGuid guid × AreListed (entries answer) × AreServices rest

pub make_uuid_cases :
    (build : Build) (guid : Guid)
    → (make_uuid build guid ≡ ok (uuid_bytes guid)) ⊎ (make_uuid build guid ≡ stop assertion)
unfolding make_uuid
make_uuid_cases debug guid = elim (Bool-cases (known_uuid (uuid_bytes guid))) [
  | inl e ↦ inl (rw (e))
  | inr e ↦ inr (rw (e))
]
make_uuid_cases release guid = inl refl

uuid_eq→eq :
    (guid : Guid) (uuid : Uuid)
    → IsGuid guid
    → length uuid ≡ 16
    → uuid_eq (uuid_bytes guid) uuid ≡ true
    → uuid_bytes guid ≡ uuid
unfolding uuid_eq uuid_bytes
uuid_eq→eq guid uuid eight sixteen h = same_bytes→eq (uuid_bytes guid) uuid (omega arith) h

pub before_or-none {ℓ} : {A : Type ℓ} (o : Option A) → before_or o none ≡ o
before_or-none none = refl
before_or-none (some a) = refl

find-append {ℓ} :
    {A : Type ℓ} (uuid v : Uuid) (a : A) (container : List (Uuid × A))
    → find uuid (container ++ ((v, a) ∷ []))
      ≡ before_or (find uuid container) (if uuid_eq v uuid then some a else none)
unfolding find
find-append uuid v a [] = refl
find-append uuid v a ((k, b) ∷ rest) = elim (Bool-cases (uuid_eq k uuid)) [
  | inl e ↦ rw (e)
  | inr e ↦ rw (e) (find-append uuid v a rest)
]

pub find-try_emplace {ℓ} :
    {A : Type ℓ} (uuid : Uuid) (guid : Guid) (a : A) (container : List (Uuid × A))
    → IsGuid guid
    → length uuid ≡ 16
    → find uuid (try_emplace (uuid_bytes guid) a container).0
      ≡ before_or (find uuid container) (if uuid_eq (uuid_bytes guid) uuid then some a else none)
unfolding try_emplace
find-try_emplace uuid guid a container eight sixteen =
    elim (Option-cases (find (uuid_bytes guid) container)) [
      | inl new ↦ rw (new, try_emplace) (find-append uuid (uuid_bytes guid) a container)
      | inr (old, there) ↦ elim (Bool-cases (uuid_eq (uuid_bytes guid) uuid)) [
        | inl e ↦
            let same = rw (uuid_eq→eq guid uuid eight sixteen e) at there in
            rw (there, try_emplace, same)
        | inr e ↦ rw (there, try_emplace, e) (sym (before_or-none (find uuid container)))
      ]
    ]

pub stop≢ok {ℓ} : {A : Type ℓ} {reason : Stop} {a : A} → stop reason ≢ ok a
stop≢ok e = cc

make_discovered-handle {ℓ} :
    {C : Type ℓ} (build : Build) (c : Listed C) (d : Discovered C)
    → make_discovered build c ≡ ok d
    → d.handle ≡ c.handle
unfolding make_discovered
make_discovered-handle build c d h =
    let (logged, _, after) = >>=-returned (logged_line build c.properties) _ h in
    let (descriptors, _, last) = >>=-returned (query_descriptors build c.descriptors) _ after in
    ap (λ (r : Discovered _). r.handle) (sym (ok_injective last))

-- What is found by one UUID after the rest of the list has been emplaced.
handle-before_or {ℓ} :
    {C : Type ℓ} (o : Option (Discovered C)) (test : Bool) (d : Discovered C) (rest : Option C)
    → before_or (handle_of (before_or o (if test then some d else none))) rest
      ≡ before_or (handle_of o) (if test then some d.handle else rest)
handle-before_or none true d rest = refl
handle-before_or none false d rest = refl
handle-before_or (some a) test d rest = refl

-- A turn of the loop that has returned.
characteristic_taken {ℓ} :
    {C : Type ℓ} (build : Build) (c : Listed C) (rest : List (Listed C))
    (container result : Service (Discovered C))
    → emplace_characteristics build (c ∷ rest) container ≡ ok result
    → (d : Discovered C) × (d.handle ≡ c.handle)
      × (emplace_characteristics build rest (try_emplace (uuid_bytes c.guid) d container).0
          ≡ ok result)
unfolding emplace_characteristics
characteristic_taken build c rest container result h = elim (make_uuid_cases build c.guid) [
  | inl e ↦
      let (d, is_made, taken) =
        >>=-returned (make_discovered build c) _ (rw (e, emplace_characteristics) at h) in
      (d, make_discovered-handle build c d is_made, taken)
  | inr e ↦ absurd (stop≢ok (rw (e, emplace_characteristics) at h))
]

pub characteristics_found {ℓ} :
    {C : Type ℓ} (build : Build) (uuid : Uuid) (cs : List (Listed C))
    (container result : Service (Discovered C))
    → length uuid ≡ 16
    → AreListed cs
    → emplace_characteristics build cs container ≡ ok result
    → handle_of (find uuid result)
      ≡ before_or (handle_of (find uuid container)) (first_characteristic uuid cs)
unfolding emplace_characteristics first_characteristic
characteristics_found build uuid [] container result sixteen are h =
    rw (← ok_injective h) (sym (before_or-none (handle_of (find uuid container))))
characteristics_found build uuid (c ∷ rest) container result sixteen (eight, are) h =
    let (d, same, taken) = characteristic_taken build c rest container result h in
    characteristics_found build uuid rest (try_emplace (uuid_bytes c.guid) d container).0 result
      sixteen are taken
    ∙ rw (
      find-try_emplace uuid c.guid d container eight sixteen,
      handle-before_or (find uuid container) (uuid_eq (uuid_bytes c.guid) uuid) d
          (first_characteristic uuid rest),
      same,
    )
