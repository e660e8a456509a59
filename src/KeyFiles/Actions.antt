-- ===== src/KeyFiles/Actions.antt =====
-- The actions of client/src/main.cpp that make new keys and that erase them. `wait_for_all` lets the
-- coroutines end before; what happens to the plot and the list of devices is left to them.
use ubiquitous_chainsaw.Base.{ℕ, Bool, List, Option, Outcome, ok, ◌>>=◌}
use ubiquitous_chainsaw.KeyTransfer.Client.{KeyType, send_key}
use ubiquitous_chainsaw.Server.State.{CServer, reload_public_key}
use ubiquitous_chainsaw.KeyFiles.Files.{
  KeyFiles, public_key, private_key, client_public, client_private, server_public, load_key,
  save_ecc_key, erase_stored_ecc_keys,
}

-- A public key and its private key, from `make_ecc_keys`.
pub record KeyPair : Type 0 where
  pub public : List ℕ
  pub private : List ℕ

-- A serial port at each of the three times that one is opened.
pub record Ports : Type 0 where
  pub first : Option (ℕ → List ℕ → ℕ)
  pub second : Option (ℕ → List ℕ → ℕ)
  pub third : Option (ℕ → List ℕ → ℕ)

module _ {C : Type 0} (decodes : List ℕ → Bool) where
  -- `reload_public_key` with its call of `load_key`; what it returns is not used.
  unfoldable pub reload : KeyFiles → CServer C → Outcome (CServer C)
  reload files server = do
    loaded ← load_key decodes server_public files
    ok (reload_public_key loaded server).1

  -- A key that could not be sent is only logged.
  unfoldable pub generate_keys_action :
      Ports → KeyPair → KeyPair → KeyFiles → CServer C → Outcome (KeyFiles × CServer C)
  generate_keys_action ports token client files server = do
    files₁ ← save_ecc_key public_key server_public token.public files
    sent₁ ← send_key ports.first KeyType.server_public token.public
    sent₂ ← send_key ports.second KeyType.server_private token.private
    files₂ ← save_ecc_key public_key client_public client.public files₁
    files₃ ← save_ecc_key private_key client_private client.private files₂
    sent₃ ← send_key ports.third KeyType.client_public client.public
    server' ← reload files₃ server
    ok (files₃, server')

  unfoldable pub erase_keys_action : KeyFiles → CServer C → Outcome (KeyFiles × CServer C)
  erase_keys_action files server = do
    server' ← reload (erase_stored_ecc_keys files) server
    ok (erase_stored_ecc_keys files, server')
