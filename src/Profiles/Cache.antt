-- ===== src/Profiles/Cache.antt =====
-- server/main/ble/profiles/CProfileCache.hpp, CProfileCache.cpp and CProfileCacheBuilder.cpp. The
-- calls of NimBLE's GATT server are the record `GattServer`.
use ubiquitous_chainsaw.Base.{
  ℕ, Bool, true, false, List, [], ◌∷◌, ◌++◌, length, Option, none, some, ltb, if◌then◌else◌,
  Outcome, ok, stop, fatal, assertion, ◌>>=◌,
}
use ubiquitous_chainsaw.Security.Decode.{Decoders}
use ubiquitous_chainsaw.Nimble.{
  NimbleErrorCode, nimble_error_to_string, success, invalid_arguments, resource_exhaustion,
}
use ubiquitous_chainsaw.Nvs.Flash.{NvsFlash}
use ubiquitous_chainsaw.Profiles.Memory.{Memory, Profile, profile, read_profile}
use ubiquitous_chainsaw.Profiles.Service.{SvcDef, end}
use ubiquitous_chainsaw.Profiles.Profile.{
  make_whoami, make_whereami, register_with_nimble, as_nimble_service,
}

-- The texts of `KEY_WHOAMI` and `KEY_WHEREAMI`.
abbrev pub key_whoami : List ℕ
key_whoami = b'w' ∷ b'h' ∷ b'o' ∷ b'a' ∷ b'm' ∷ b'i' ∷ []

abbrev pub key_whereami : List ℕ
key_whereami = b'w' ∷ b'h' ∷ b'e' ∷ b'r' ∷ b'e' ∷ b'a' ∷ b'm' ∷ b'i' ∷ []

-- `operator<` of `std::string_view`
unfoldable pub text_lt : List ℕ → List ℕ → Bool
text_lt [] [] = false
text_lt [] (y ∷ ys) = true
text_lt (x ∷ xs) [] = false
text_lt (x ∷ xs) (y ∷ ys) =
    let rest = text_lt xs ys in if ltb x y then true else if ltb y x then false else rest

-- The map of the profiles, in the order of its keys: the address of each.
abbrev pub Profiles : Type 0
Profiles = List (List ℕ × ℕ)

-- `try_emplace` of `std::map`, with whether it has emplaced.
unfoldable pub try_emplace : List ℕ → ℕ → Profiles → Profiles × Bool
unfolding text_lt
try_emplace key p [] = ((key, p) ∷ [], true)
try_emplace key p ((k, q) ∷ rest) =
    let (rest', emplaced) = try_emplace key p rest in
    if text_lt key k
    then ((key, p) ∷ (k, q) ∷ rest, true)
    else if text_lt k key
    then ((k, q) ∷ rest', emplaced)
    else ((k, q) ∷ rest, false)

-- The builder with the memory and the flash that its calls change.
pub record Builder (S : Type 0) : Type 0 where
  pub profiles : Profiles
  pub memory : Memory
  pub flash : S

-- A profile that was emplaced registers itself.
unfoldable pub register_emplaced :
    {S : Type 0} → Bool → ℕ → Profile × S → Profiles → Memory → Outcome (Bool × Builder S)
register_emplaced true at (made, s) profiles memory = do
  registered ← register_with_nimble at made memory
  ok (true, record { profiles = profiles; memory = registered; flash = s })
register_emplaced false at (made, s) profiles memory =
    ok (false, record { profiles = profiles; memory = memory; flash = s })

-- `try_emplace_profile`, with the profile that `make_profile` made.
unfoldable pub try_emplace_profile :
    {S : Type 0} → List ℕ → Profile × S → Builder S → Outcome (Bool × Builder S)
unfolding try_emplace register_emplaced
try_emplace_profile key made builder =
    let at = length builder.memory in
    let (profiles, emplaced) = try_emplace key at builder.profiles in
    register_emplaced emplaced at made profiles (profile made.0 ∷ builder.memory)

abbrev emplaced_or_fatal : {S : Type 0} → Bool × Builder S → Outcome (Builder S)
emplaced_or_fatal (true, builder) = ok builder
emplaced_or_fatal (false, builder) = stop fatal

module _ {S : Type 0} (nvs : NvsFlash S) (decode : Decoders) where
  unfoldable pub add_whoami : Builder S → Outcome (Builder S)
  unfolding try_emplace_profile
  add_whoami builder = do
    made ← make_whoami nvs decode builder.flash
    emplaced ← try_emplace_profile key_whoami made builder
    emplaced_or_fatal emplaced

  unfoldable pub add_whereami : Builder S → Outcome (Builder S)
  unfolding try_emplace_profile
  add_whereami builder = do
    made ← make_whereami nvs decode builder.flash
    emplaced ← try_emplace_profile key_whereami made builder
    emplaced_or_fatal emplaced

-- NimBLE's answers to `ble_gatts_count_cfg` and `ble_gatts_add_svcs`.
pub record GattServer : Type 0 where
  pub count_cfg : List SvcDef → Memory → NimbleErrorCode
  pub add_svcs : List SvcDef → Memory → NimbleErrorCode

pub data CacheError : Type 0 where
  no_error out_of_heap_memory invalid_resource : CacheError

pub record CProfileCache : Type 0 where
  pub profiles : Profiles
  pub services : List SvcDef

abbrev pub end_of_services : SvcDef
end_of_services = record { type = end; uuid = none; characteristics = none }

-- The loop of the constructor over the profiles.
unfoldable pub emplace_services : Profiles → Memory → Outcome (List SvcDef)
emplace_services [] memory = ok []
emplace_services ((key, at) ∷ rest) memory = do
  p ← read_profile at memory
  service ← as_nimble_service p
  services ← emplace_services rest memory
  ok (service ∷ services)

-- What the constructor throws for a code of the first and of the second call: `none` is nothing.
unfoldable pub counted : NimbleErrorCode → Outcome (Option CacheError)
counted success = ok none
counted invalid_arguments = ok (some invalid_resource)
counted code = nimble_error_to_string code >>= λ text. stop fatal

unfoldable pub added : NimbleErrorCode → Outcome (Option CacheError)
added success = ok none
added resource_exhaustion = ok (some out_of_heap_memory)
added code = nimble_error_to_string code >>= λ text. stop fatal

-- `CProfileCache::CProfileCache`: the cache, or the error that is thrown.
pub data Constructed : Type 0 where
  constructed : CProfileCache → Constructed
  thrown : CacheError → Constructed

module _ (server : GattServer) where
  unfoldable pub make_cache : Profiles → Memory → Outcome Constructed
  unfolding emplace_services counted added
  make_cache profiles memory = do
    listed ← emplace_services profiles memory
    let services = listed ++ (end_of_services ∷ [])
    not_counted ← counted (server.count_cfg services memory)
    elim not_counted [
      | some e ↦ ok (thrown e)
      | none ↦ do
        not_added ← added (server.add_svcs services memory)
        ok (elim not_added [
          | some e ↦ thrown e
          | none ↦ constructed (record { profiles = profiles; services = services })
        ])
    ]

  -- `Result<CProfileCache, Error>`, whose value is there if the error is `no_error`.
  unfoldable pub make_profile_cache :
      Profiles → Memory → Outcome (Option CProfileCache × CacheError)
  unfolding make_cache
  make_profile_cache profiles memory = make_cache profiles memory >>= λ made. elim made [
    | constructed cache ↦ ok (some cache, no_error)
    | thrown invalid_resource ↦ ok (none, invalid_resource)
    | thrown out_of_heap_memory ↦ ok (none, out_of_heap_memory)
    | thrown no_error ↦ stop fatal
  ]

  -- `CProfileCacheBuilder::build`
  abbrev pub built : Option CProfileCache × CacheError → Outcome CProfileCache
  built (some cache, no_error) = ok cache
  built (none, no_error) = stop assertion
  built (result, out_of_heap_memory) = stop fatal
  built (result, invalid_resource) = stop fatal

  unfoldable pub build : {S : Type 0} → Builder S → Outcome CProfileCache
  unfolding make_profile_cache
  build builder = make_profile_cache builder.profiles builder.memory >>= built

-- `CProfileCacheBuilder().add_whoami().add_whereami().build()` of the constructor of `CNimble`.
unfoldable pub make_profiles :
    {S : Type 0}
    → NvsFlash S
    → Decoders
    → GattServer
    → Memory
    → S
    → Outcome (CProfileCache × Builder S)
unfolding add_whoami add_whereami build
make_profiles nvs decode server memory flash = do
  b1 ← add_whoami nvs decode (record { profiles = []; memory = memory; flash = flash })
  b2 ← add_whereami nvs decode b1
  cache ← build server b2
  ok (cache, b2)
