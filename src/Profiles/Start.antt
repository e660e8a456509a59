-- ===== src/Profiles/Start.antt =====
-- The start of a token whose keys are stored.
use ubiquitous_chainsaw.Base.{ℕ, ◌≡◌, ◌∙◌, List, length, Option, some, ok, arith}
use ubiquitous_chainsaw.Security.Decode.{Decoders, IsKey}
use ubiquitous_chainsaw.Nimble.{success}
use ubiquitous_chainsaw.Nvs.Flash.{NvsFlash, NvsWorks, OpenMode, Entry, blob}
use ubiquitous_chainsaw.KeyTransfer.Token.{
  encryption_namespace, key_server_private, key_client_public,
}
use ubiquitous_chainsaw.Profiles.Memory.{Memory, read_profile}
use ubiquitous_chainsaw.Profiles.Service.{SvcDef}
use ubiquitous_chainsaw.Profiles.Cache.{GattServer, CProfileCache, Builder, make_profiles}
use ubiquitous_chainsaw.Profiles.Found.{found_services}
use ubiquitous_chainsaw.Profiles.Loaded.{ReadsBlobs, after_load, entry-after_load, load_key_works}
use ubiquitous_chainsaw.Profiles.Registered.{registered_whoami, registered_whereami}
use ubiquitous_chainsaw.Profiles.Registry.{
  new_whoami, new_whereami, whereami_at, profiles_are_registered, profiles_are_there,
}
use ubiquitous_chainsaw.Profiles.Offered.{on_token}

-- NimBLE takes the services, whatever they are.
abbrev pub TakesServices : GattServer → Type 0
TakesServices server =
    (defs : List SvcDef) (m : Memory)
    → (server.count_cfg defs m ≡ success) × (server.add_svcs defs m ≡ success)

-- The profiles are made; NimBLE finds the two services at the pointers that it is given; and the
-- profiles that serve them hold the two keys.
abbrev pub Registers :
    {S : Type 0} (nvs : NvsFlash S) (decode : Decoders) (server : GattServer) (m : Memory)
    (private_key client_key : List ℕ) (s : S)
    → Type 0
Registers {S} nvs decode server m private_key client_key s =
    (cache : CProfileCache) × (b : Builder S) × (make_profiles nvs decode server m s
      ≡ ok (cache, b))
    × (found_services cache.services b.memory ≡ ok (on_token (length m) (whereami_at (length m))))
    × (read_profile (length m) b.memory
        ≡ ok (registered_whoami (new_whoami private_key) (length m)))
    × (read_profile (whereami_at (length m)) b.memory
        ≡ ok (registered_whereami (new_whereami private_key client_key) (whereami_at (length m))))

-- A token in whose flash the keys are stored makes its profiles, and NimBLE finds at the pointers
-- that it is given exactly the two services with their three characteristics, each with the callback
-- and the profile that serve it; these profiles hold the stored keys. So it is if wolfCrypt decodes the keys, on a flash that works
-- and if NimBLE takes the services, whatever else is in memory.
pub token-Registers :
    {S : Type 0} (nvs : NvsFlash S) (decode : Decoders) (entry : S → List ℕ → Option Entry)
    (IsOpen : OpenMode → ℕ → S → Type 0)
    → NvsWorks nvs encryption_namespace entry IsOpen
    → ReadsBlobs nvs entry IsOpen
    → (server : GattServer) → TakesServices server
    → (m : Memory) (private_key client_key : List ℕ) (s : S)
    → entry s key_server_private ≡ some (blob private_key)
    → entry s key_client_public ≡ some (blob client_key)
    → IsKey decode.private_key private_key
    → IsKey decode.public_key client_key
    → Registers nvs decode server m private_key client_key s
token-Registers {S} nvs decode entry IsOpen works reads server takes m private_key client_key s p c
      is_private is_public =
    let after = after_load nvs entry IsOpen works reads in
    let load = load_key_works nvs entry IsOpen works reads in
    let kept = entry-after_load nvs entry IsOpen works reads in
    let first =
      load decode.private_key key_server_private private_key s (omega arith) p is_private in
    let second =
      load decode.private_key key_server_private private_key (after s) (omega arith)
        (kept s key_server_private ∙ p) is_private in
    let third =
      load decode.public_key key_client_public client_key (after (after s)) (omega arith)
        (kept (after s) key_client_public ∙ (kept s key_client_public ∙ c)) is_public in
    let (made, finds) =
      profiles_are_registered nvs decode server m private_key client_key s (after s)
        (after (after s)) (after (after (after s))) first second third (takes _ _).0
        (takes _ _).1 in
    let (at_whoami, at_whereami) =
      profiles_are_there nvs decode server m private_key client_key s (after s) (after (after s))
        (after (after (after s))) first second third in
    (_, _, made, finds, at_whoami, at_whereami)
