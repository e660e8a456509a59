-- ===== src/KeyFiles/Tests.antt =====
-- New keys in an empty directory.
use ubiquitous_chainsaw.Base.{
  ℕ, ◌≡◌, refl, Bool, true, false, List, [], ◌∷◌, none, some, ok, arith, if◌then◌else◌,
}
use ubiquitous_chainsaw.Server.State.{CServer, reload_public_key}
use ubiquitous_chainsaw.KeyFiles.Files.{
  KeyFiles, client_public, client_private, server_public, same_name, load_key, load_file,
  make_ecc_key, erase_stored_ecc_keys, erase_file, keys_exists,
}
use ubiquitous_chainsaw.KeyFiles.Actions.{
  KeyPair, Ports, reload, generate_keys_action, erase_keys_action,
}
use ubiquitous_chainsaw.KeyFiles.Saved.{Key}
use ubiquitous_chainsaw.KeyFiles.Kept.{
  generated_keys_are_kept, old_private_key_stays, unwritten_keys_are_lost,
}

abbrev decodes : List ℕ → Bool
decodes key = true

abbrev token : KeyPair
token = record { public = 1 ∷ 2 ∷ []; private = 3 ∷ [] }

abbrev client : KeyPair
client = record { public = 4 ∷ []; private = 5 ∷ 6 ∷ [] }

-- No token is plugged in.
abbrev ports : Ports
ports = record { first = none; second = none; third = none }

-- An empty directory, for a process that has not the rights of an administrator.
abbrev directory : Bool → KeyFiles
directory writable = record {
  located = true;
  writable = λ name. writable;
  file = λ name. none;
  restrictable = λ name. true;
  restricted = λ name. false;
  elevated = false;
}

-- The same with a private key that is restricted.
abbrev with_old : Bool → KeyFiles
with_old writable = record (directory writable) {
  file = λ name. if same_name name client_private then some (8 ∷ []) else none;
  restricted = λ name. same_name name client_private;
}

abbrev server : CServer ℕ
server = record { server = none; server_key = none; devices = [] }

token_public-Key : Key decodes token.public
token_public-Key = record { some_bytes = omega arith; one_byte = omega arith; decoded = refl }

token_private-Key : Key decodes token.private
token_private-Key = record { some_bytes = omega arith; one_byte = omega arith; decoded = refl }

client_public-Key : Key decodes client.public
client_public-Key = record { some_bytes = omega arith; one_byte = omega arith; decoded = refl }

client_private-Key : Key decodes client.private
client_private-Key = record { some_bytes = omega arith; one_byte = omega arith; decoded = refl }

generated_keys_are_kept_example :
    (files' : KeyFiles) × (generate_keys_action decodes ports token client (directory true) server
      ≡ ok (files', record server { server_key = some (1 ∷ 2 ∷ []) }))
    × (keys_exists files' ≡ true)
    × (load_key decodes client_public files' ≡ ok (some (4 ∷ [])))
    × (load_key decodes client_private files' ≡ ok none)
    × ((erased : KeyFiles) × (erase_keys_action decodes files'
            (record server { server_key = some (1 ∷ 2 ∷ []) })
          ≡ ok (erased, server))
        × (keys_exists erased ≡ false))
generated_keys_are_kept_example =
    generated_keys_are_kept decodes ports token client token_public-Key token_private-Key
      client_public-Key client_private-Key (directory true) server refl refl (λ name. refl)
      (λ name. refl)

old_private_key_stays_example :
    (files' : KeyFiles) × (generate_keys_action decodes ports token client (with_old true) server
      ≡ ok (files', record server { server_key = some (1 ∷ 2 ∷ []) }))
    × (files'.file client_public ≡ some (4 ∷ []))
    × (files'.file client_private ≡ some (8 ∷ []))
old_private_key_stays_example =
    old_private_key_stays decodes ports token client token_public-Key token_private-Key
      client_public-Key client_private-Key (with_old true) server refl refl (8 ∷ []) refl refl
      (λ name. refl) refl refl

unwritten_keys_are_lost_example :
    (files' : KeyFiles) × (generate_keys_action decodes ports token client (with_old false) server
      ≡ ok (files', server))
    × (files'.file ≡ (with_old false).file)
unwritten_keys_are_lost_example =
    unwritten_keys_are_lost decodes ports token client token_public-Key token_private-Key
      client_public-Key client_private-Key (with_old false) server refl refl (8 ∷ []) (λ name. refl)
      refl refl

abbrev one_key : KeyFiles
one_key = record (directory true) {
  file = λ name. if same_name name server_public then some (1 ∷ []) else none;
}

erases :
    (files' : KeyFiles) × (erase_keys_action decodes one_key server ≡ ok (files', server))
    × (keys_exists files' ≡ false)
unfolding erase_keys_action reload erase_stored_ecc_keys erase_file load_key load_file make_ecc_key
    reload_public_key keys_exists
erases = (_, refl, refl)
