-- ===== src/KeyTransfer/Tests.antt =====
-- The transfer of keys on a flash in memory.
use ubiquitous_chainsaw.Base.{ℕ, ◌≡◌, refl, List, [], ◌∷◌, some, ok, arith}
use ubiquitous_chainsaw.Base.Int.{pos}
use ubiquitous_chainsaw.Nvs.Flash.{int8, blob, updated}
use ubiquitous_chainsaw.Nvs.Sample.{Store, find_entry, flash, flash-NvsWorks}
use ubiquitous_chainsaw.KeyTransfer.Client.{server_public, messages}
use ubiquitous_chainsaw.KeyTransfer.Token.{
  encryption_namespace, key_num_stored_enc_keys, key_server_public, key_server_private,
  key_client_public, nvs_key, fresh, rx_callbacks,
}
use ubiquitous_chainsaw.KeyTransfer.Boot.{app_main, serve_ble}
use ubiquitous_chainsaw.KeyTransfer.Transfer.{collecting, transfer_key}
use ubiquitous_chainsaw.KeyTransfer.Overflow.{overflow_is_kept}
use ubiquitous_chainsaw.KeyTransfer.Provisioning.{provision}
use ubiquitous_chainsaw.Security.Hash.{same_bytes}

abbrev empty : Store
empty = (key_num_stored_enc_keys, int8 (pos 0)) ∷ []

transfer_key_example :
    (messages server_public (1 ∷ 2 ∷ 3 ∷ []) ≡ ok ((1 ∷ []) ∷ (3 ∷ []) ∷ (1 ∷ 2 ∷ 3 ∷ []) ∷ []))
    × (s' : Store) × (rx_callbacks flash
          ((1 ∷ []) ∷ (3 ∷ []) ∷ (1 ∷ 2 ∷ []) ∷ (3 ∷ []) ∷ [])
          fresh
          empty
        ≡ ok (fresh, s'))
    × ((k : List ℕ)
        → find_entry s' k
          ≡ updated
              (updated (find_entry empty) key_server_public (blob (1 ∷ 2 ∷ 3 ∷ [])))
              key_num_stored_enc_keys
              (int8 (pos 1))
              k)
unfolding find_entry same_bytes nvs_key
transfer_key_example =
    transfer_key flash find_entry (λ mode h s. h ≡ 1) (flash-NvsWorks encryption_namespace)
      server_public ((1 ∷ 2 ∷ []) ∷ []) (3 ∷ []) key_server_public 0 empty refl (omega arith)
      (omega arith) (omega arith) refl

provision_example :
    (s' : Store) × (rx_callbacks flash
        ((1 ∷ [])
          ∷ (1 ∷ [])
          ∷ (7 ∷ [])
          ∷ (2 ∷ [])
          ∷ (1 ∷ [])
          ∷ (8 ∷ [])
          ∷ (0 ∷ [])
          ∷ (1 ∷ [])
          ∷ (9 ∷ [])
          ∷ [])
        fresh
        empty
      ≡ ok (fresh, s'))
    × (find_entry s' key_server_public ≡ some (blob (7 ∷ [])))
    × (find_entry s' key_server_private ≡ some (blob (8 ∷ [])))
    × (find_entry s' key_client_public ≡ some (blob (9 ∷ [])))
    × (app_main flash s' ≡ ok serve_ble)
unfolding find_entry same_bytes
provision_example =
    provision flash find_entry (λ mode h s. h ≡ 1) (flash-NvsWorks encryption_namespace) (7 ∷ [])
      (8 ∷ []) (9 ∷ []) empty (omega arith, omega arith) (omega arith, omega arith)
      (omega arith, omega arith) refl

overflow_is_kept_example :
    rx_callbacks flash ((5 ∷ []) ∷ (6 ∷ 7 ∷ []) ∷ []) (collecting flash 1 2 (1 ∷ 2 ∷ 3 ∷ [])) empty
    ≡ ok (collecting flash 1 2 (1 ∷ 2 ∷ 3 ∷ 5 ∷ 6 ∷ 7 ∷ []), empty)
overflow_is_kept_example =
    overflow_is_kept flash ((5 ∷ []) ∷ (6 ∷ 7 ∷ []) ∷ []) 1 2 (1 ∷ 2 ∷ 3 ∷ []) empty (ground arith)
      (omega arith) (omega arith) (omega arith, (omega arith, tt))
