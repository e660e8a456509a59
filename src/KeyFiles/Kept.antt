-- ===== src/KeyFiles/Kept.antt =====
-- What the client's files hold after its actions.
use ubiquitous_chainsaw.Base.{
  ℕ, ◌≡◌, refl, sym, ap, ◌∙◌, Bool, true, false, ◌&&◌, List, none, some, if◌then◌else◌, ok, stop,
  assertion, inl, inr, Bool-cases,
}
use ubiquitous_chainsaw.KeyTransfer.Client.{KeyType}
use ubiquitous_chainsaw.Server.State.{CServer, reload_public_key}
use ubiquitous_chainsaw.KeyFiles.Files.{
  with_file, with_restriction, may_open, KeyFiles, KeyName, client_public, client_private,
  server_public, load_file, make_ecc_key, load_key, keys_exists,
}
use ubiquitous_chainsaw.KeyFiles.Actions.{
  KeyPair, Ports, reload, generate_keys_action, erase_keys_action,
}
use ubiquitous_chainsaw.KeyFiles.Erased.{erased_keys}
use ubiquitous_chainsaw.KeyFiles.Saved.{
  Key, sends, loads, barred, saves, loses, saves_private, loses_private, breaks,
}

module _ {C : Type 0} (decodes : List ℕ → Bool) (ports : Ports) (token client : KeyPair)
    (token_public : Key decodes token.public) (token_private : Key decodes token.private)
    (client_public_key : Key decodes client.public)
    (client_private_key : Key decodes client.private) (files : KeyFiles) (server : CServer C)
    (located : files.located ≡ true) (restrictable : files.restrictable client_private ≡ true) where
  abbrev with_public : KeyFiles
  with_public =
      with_file client_public (some client.public)
        (with_file server_public (some token.public) files)

  abbrev kept : KeyFiles
  kept =
      with_restriction client_private true
        (with_file client_private (some client.private) with_public)

  kept_lem :
      ((name : KeyName) → files.writable name ≡ true)
      → ((name : KeyName) → may_open name files ≡ true)
      → generate_keys_action decodes ports token client files server
        ≡ ok (kept, record server { server_key = some token.public })
  unfolding generate_keys_action reload reload_public_key
  kept_lem writable opens = rw (
    saves server_public token.public files located (writable server_public) (opens server_public),
    (sends ports.first KeyType.server_public token.public token_public.one_byte).1,
    (sends ports.second KeyType.server_private token.private token_private.one_byte).1,
    saves client_public client.public (with_file server_public (some token.public) files) located
        (writable client_public) (opens client_public),
    saves_private client.private with_public located (writable client_private) restrictable
        (opens client_private),
    (sends ports.third KeyType.client_public client.public client_public_key.one_byte).1,
    loads decodes server_public token.public kept token_public located refl (opens server_public),
  )

  loads_private :
      load_key decodes client_private kept
      ≡ ok (if files.elevated then some client.private else none)
  loads_private = elim (Bool-cases files.elevated) [
    | inl e ↦
        loads decodes client_private client.private kept client_private_key located refl e
        ∙ ap (λ b. ok (if b then some client.private else none)) (sym e)
    | inr e ↦
        barred decodes client_private client.private kept located refl e
        ∙ ap (λ b. ok (if b then some client.private else none)) (sym e)
  ]

  -- Where the key directory is found and its files can be opened and written, and Windows restricts the
  -- file of the private key, the new keys have a size that one byte holds and wolfCrypt decodes them:
  -- the action that makes new keys leaves the server with the token's public key, and the client's keys
  -- in files that exist. The public key is loaded again from its file, the private key exactly by a
  -- process with the rights of an administrator. The action that erases the keys then leaves no key,
  -- and the server without one.
  pub generated_keys_are_kept :
      ((name : KeyName) → files.writable name ≡ true)
      → ((name : KeyName) → may_open name files ≡ true)
      → (files' : KeyFiles) × (generate_keys_action decodes ports token client files server
          ≡ ok (files', record server { server_key = some token.public }))
        × (keys_exists files' ≡ true)
        × (load_key decodes client_public files' ≡ ok (some client.public))
        × (load_key decodes client_private files'
            ≡ ok (if files.elevated then some client.private else none))
        × ((erased : KeyFiles) × (erase_keys_action decodes files'
                (record server { server_key = some token.public })
              ≡ ok (erased, record server { server_key = none }))
            × (keys_exists erased ≡ false))
  unfolding keys_exists
  generated_keys_are_kept writable opens = (
    kept,
    kept_lem writable opens,
    rw (located),
    loads decodes client_public client.public kept client_public_key located refl
        (opens client_public),
    loads_private,
    erased_keys kept located decodes (record server { server_key = some token.public }),
  )

  -- Where the files of the public keys can be opened and written, but that of the private key exists and
  -- cannot be opened, as it is restricted and the process has not the rights of an administrator: the
  -- action that makes new keys returns all the same, with the new public key in its file, the old
  -- private key in its own, and the server with the token's new public key.
  pub old_private_key_stays :
      (old : List ℕ)
      → files.file client_private ≡ some old
      → may_open client_private files ≡ false
      → ((name : KeyName) → files.writable name ≡ true)
      → may_open server_public files ≡ true
      → may_open client_public files ≡ true
      → (files' : KeyFiles) × (generate_keys_action decodes ports token client files server
          ≡ ok (files', record server { server_key = some token.public }))
        × (files'.file client_public ≡ some client.public)
        × (files'.file client_private ≡ some old)
  unfolding generate_keys_action reload reload_public_key
  old_private_key_stays old there shut writable open_server open_client = (
    with_restriction client_private true with_public,
    rw (
      saves server_public token.public files located (writable server_public) open_server,
      (sends ports.first KeyType.server_public token.public token_public.one_byte).1,
      (sends ports.second KeyType.server_private token.private token_private.one_byte).1,
      saves client_public client.public (with_file server_public (some token.public) files) located
          (writable client_public) open_client,
      loses_private client.private old with_public located
          (ap (λ t. t && may_open client_private files) (writable client_private) ∙ shut)
          restrictable there,
      (sends ports.third KeyType.client_public client.public client_public_key.one_byte).1,
      loads decodes server_public token.public (with_restriction client_private true with_public)
          token_public located refl open_server,
    ),
    refl,
    there,
  )

  -- Where the directory is found but none of its files can be written, there is no file of the token's
  -- public key and one of the private key: the action returns all the same, has kept no new key, and
  -- leaves the server without one.
  pub unwritten_keys_are_lost :
      (old : List ℕ)
      → ((name : KeyName) → files.writable name ≡ false)
      → files.file server_public ≡ none
      → files.file client_private ≡ some old
      → (files' : KeyFiles) × (generate_keys_action decodes ports token client files server
          ≡ ok (files', record server { server_key = none }))
        × (files'.file ≡ files.file)
  unfolding generate_keys_action reload reload_public_key load_key load_file make_ecc_key
  unwritten_keys_are_lost old locked missing there = (
    with_restriction client_private true files,
    rw (
      loses server_public token.public files located (locked server_public),
      (sends ports.first KeyType.server_public token.public token_public.one_byte).1,
      (sends ports.second KeyType.server_private token.private token_private.one_byte).1,
      loses client_public client.public files located (locked client_public),
      loses_private client.private old files located
          (ap (λ t. t && may_open client_private files) (locked client_private)) restrictable there,
      (sends ports.third KeyType.client_public client.public client_public_key.one_byte).1,
      located,
      missing,
    ),
    refl,
  )

  -- If there is no file of the private key either, the program breaks at the restriction of that file,
  -- behind the transfer of the token's keys.
  unwritten_keys_break :
      ((name : KeyName) → files.writable name ≡ false)
      → files.file client_private ≡ none
      → generate_keys_action decodes ports token client files server ≡ stop assertion
  unfolding generate_keys_action
  unwritten_keys_break locked missing = rw (
    loses server_public token.public files located (locked server_public),
    (sends ports.first KeyType.server_public token.public token_public.one_byte).1,
    (sends ports.second KeyType.server_private token.private token_private.one_byte).1,
    loses client_public client.public files located (locked client_public),
    breaks client.private files located (locked client_private) missing,
  )
