-- ===== src/KeyFiles/Erased.antt =====
-- What the client's files hold when the keys are erased.
use ubiquitous_chainsaw.Base.{
  ℕ, ◌≡◌, refl, ap, ◌∙◌, Bool, true, false, List, none, if◌then◌else◌, ok, Bool-cases, Option-cases,
  inl, inr,
}
use ubiquitous_chainsaw.Server.State.{CServer, reload_public_key}
use ubiquitous_chainsaw.KeyFiles.Files.{
  KeyFiles, KeyName, client_public, client_private, server_public, server_private, same_name,
  load_file, make_ecc_key, load_key, keys_exists, erase_file, erase_stored_ecc_keys,
}
use ubiquitous_chainsaw.KeyFiles.Actions.{reload, erase_keys_action}

same_name_sound : (a b : KeyName) → same_name a b ≡ true → a ≡ b
same_name_sound client_public client_public h = refl
same_name_sound client_private client_private h = refl
same_name_sound server_public server_public h = refl
same_name_sound server_private server_private h = refl
same_name_sound a b h = absurd cc

-- A file that does not exist need not be removed.
absent :
    (name other : KeyName) (files : KeyFiles)
    → files.file name ≡ none
    → files.file other ≡ (if same_name other name then none else files.file other)
absent name other files missing = elim (Bool-cases (same_name other name)) [
  | inl e ↦ rw (e) (ap files.file (same_name_sound other name e) ∙ missing)
  | inr e ↦ rw (e)
]

erased_file :
    (name other : KeyName) (files : KeyFiles)
    → (erase_file name files).file other ≡ (if same_name other name then none else files.file other)
unfolding erase_file
erased_file name other files = elim (Option-cases (files.file name)) [
  | inl e ↦ rw (e) (absent name other files e)
  | inr (bytes, e) ↦ rw (e)
]

erased_located :
    (name : KeyName) (files : KeyFiles) → (erase_file name files).located ≡ files.located
unfolding erase_file
erased_located name files = elim (Option-cases (files.file name)) [
  | inl e ↦ rw (e)
  | inr (bytes, e) ↦ rw (e)
]

module _ (files : KeyFiles) (located : files.located ≡ true) where
  abbrev first : KeyFiles
  first = erase_file client_public files

  abbrev second : KeyFiles
  second = erase_file client_private first

  abbrev third : KeyFiles
  third = erase_file server_public second

  abbrev last : KeyFiles
  last = erase_file server_private third

  still_located : last.located ≡ true
  still_located =
      erased_located server_private third
      ∙ erased_located server_public second
      ∙ erased_located client_private first
      ∙ erased_located client_public files
      ∙ located

  no_server_key : last.file server_public ≡ none
  no_server_key =
      erased_file server_private server_public third
      ∙ erased_file server_public server_public second

  no_client_key : last.file client_public ≡ none
  no_client_key =
      erased_file server_private client_public third
      ∙ erased_file server_public client_public second
      ∙ erased_file client_private client_public first
      ∙ erased_file client_public client_public files

  erased_lem : erase_stored_ecc_keys files ≡ last
  unfolding erase_stored_ecc_keys
  erased_lem = rw (located)

  no_keys : keys_exists last ≡ false
  unfolding keys_exists
  no_keys = rw (still_located, no_client_key)

  no_key_loads : (decodes : List ℕ → Bool) → load_key decodes server_public last ≡ ok none
  unfolding load_key load_file make_ecc_key
  no_key_loads decodes = rw (still_located, no_server_key)

  -- The action that erases the keys leaves no key and the server without one.
  pub erased_keys :
      {C : Type 0} (decodes : List ℕ → Bool) (server : CServer C)
      → (files' : KeyFiles) × (erase_keys_action decodes files server
          ≡ ok (files', record server { server_key = none }))
        × (keys_exists files' ≡ false)
  unfolding erase_keys_action reload reload_public_key
  erased_keys decodes server = (last, rw (erased_lem, no_key_loads decodes), no_keys)
