-- ===== src/KeyTransfer/Provisioning.antt =====
-- From a token with no keys to one that serves BLE.
use ubiquitous_chainsaw.Base.{
  ℕ, ◌+◌, ◌≤◌, ◌<◌, ◌≡◌, refl, ap, ◌∙◌, List, [], ◌∷◌, ◌++◌, length, Option, none, some, Outcome,
  ok, stop, Stop, arith, ltb, ◌==◌, if◌then◌else◌, assertion, Outcome-cases, inl, inr,
}
use ubiquitous_chainsaw.Base.Int.{ℤ, pos}
use ubiquitous_chainsaw.Security.Hash.{same_bytes}
use ubiquitous_chainsaw.Nvs.Flash.{
  NvsFlash, NvsWorks, OpenMode, Entry, int8, blob, updated, namespace_not_found, reading,
}
use ubiquitous_chainsaw.Nvs.Handle.{
  make_handle, make_reader, handle_of_code, throw_read_write_constructor_error,
}
use ubiquitous_chainsaw.Nvs.Laws.{make_reader_works, read_int8_works, destroy_opened}
use ubiquitous_chainsaw.KeyTransfer.Client.{
  KeyType, to_underlying, client_public, server_public, server_private,
}
use ubiquitous_chainsaw.KeyTransfer.Token.{
  encryption_namespace, key_num_stored_enc_keys, key_client_public, key_server_public,
  key_server_private, nvs_key, Session, fresh, rx_callback, rx_callbacks,
}
use ubiquitous_chainsaw.KeyTransfer.Boot.{
  num_stored_encryption_keys, count_of_reader, count_of_result, keep_listening, app_main, serve_ble,
  listen, restart, boot_of_count, or_restart,
}
use ubiquitous_chainsaw.KeyTransfer.Transfer.{transfer_key}

module _ {S : Type 0} (nvs : NvsFlash S) (s : S)
    (missing : (nvs.open_namespace reading encryption_namespace s).0 ≡ namespace_not_found) where
  abbrev after : S
  after = (nvs.open_namespace reading encryption_namespace s).2

  no_handle : make_handle nvs reading encryption_namespace s ≡ (ok none, after)
  unfolding make_handle handle_of_code throw_read_write_constructor_error
  no_handle = rw (make_handle, missing)

  no_reader : make_reader nvs encryption_namespace s ≡ ok (none, after)
  unfolding make_reader
  no_reader = rw (no_handle, make_reader, ap (λ r. r.1) no_handle)

  -- On a token whose flash has no namespace for the keys yet, which `nvs_open` reports for a handle
  -- that only reads, `app_main` restarts.
  first_boot_restarts : app_main nvs s ≡ ok restart
  unfolding app_main num_stored_encryption_keys count_of_reader or_restart
  first_boot_restarts = rw (no_reader)

rx_callbacks-append :
    {S : Type 0} (nvs : NvsFlash S) (xs ys : List (List ℕ)) (a b : Session) (s s' : S)
    → rx_callbacks nvs xs a s ≡ ok (b, s')
    → rx_callbacks nvs (xs ++ ys) a s ≡ rx_callbacks nvs ys b s'
unfolding rx_callbacks
rx_callbacks-append nvs [] ys a b s s' h = cc
rx_callbacks-append nvs (x ∷ xs) ys a b s s' h =
    elim (Outcome-cases (rx_callback nvs (some x) a s)) [
      | inl ((a', s1), e) ↦
          rw (e) (rx_callbacks-append nvs xs ys a' b s1 s' (rw (e, rx_callbacks) at h))
      | inr (r, e) ↦ absurd (not_ok (rw (e, rx_callbacks) at h))
    ]
  where
    not_ok : {A : Type 0} {r : Stop} {v : A} → ◌≡◌ {A = Outcome A} (stop r) (ok v) → ⊥
    not_ok e = cc

module _ {S : Type 0} (nvs : NvsFlash S) (entry : S → List ℕ → Option Entry)
    (IsOpen : OpenMode → ℕ → S → Type 0)
    (works : NvsWorks nvs encryption_namespace entry IsOpen) where
  num_stored_encryption_keys_works :
      (s : S) (v : ℤ)
      → entry s key_num_stored_enc_keys ≡ some (int8 v)
      → num_stored_encryption_keys nvs s
        ≡ ok (v, (nvs.open_namespace reading encryption_namespace s).2)
  unfolding num_stored_encryption_keys count_of_reader count_of_result
  num_stored_encryption_keys_works s v e =
      let (n, is_open) = works.open_handle reading s in
      rw (
        make_reader_works nvs encryption_namespace entry IsOpen works s,
        read_int8_works nvs encryption_namespace entry IsOpen works reading _
            key_num_stored_enc_keys v _ (omega arith) is_open (works.open_entry reading s _ ∙ e),
        destroy_opened nvs _ (nvs.open_namespace reading encryption_namespace s).2 n,
      )

  app_main_works :
      (s : S) (v : ℤ)
      → entry s key_num_stored_enc_keys ≡ some (int8 v)
      → app_main nvs s ≡ boot_of_count v
  unfolding app_main or_restart
  app_main_works s v e = rw (num_stored_encryption_keys_works s v e)

  -- A token with a stored count serves BLE exactly when it has three keys, waits for keys when it has
  -- none and fails an assertion for any other count; while it waits it stops waiting at three keys.
  app_main-keep_listening :
      (s : S) (n : ℕ)
      → entry s key_num_stored_enc_keys ≡ some (int8 (pos n))
      → (app_main nvs s
          ≡ (if n == 3 then ok serve_ble else if n == 0 then ok listen else stop assertion))
        × (keep_listening nvs s
            ≡ ok (ltb n 3, (nvs.open_namespace reading encryption_namespace s).2))
  unfolding boot_of_count keep_listening
  app_main-keep_listening s n e =
      (app_main_works s (pos n) e, rw (num_stored_encryption_keys_works s (pos n) e) (ground arith))

  abbrev transfer : KeyType → List ℕ → List (List ℕ)
  transfer type key = (to_underlying type ∷ []) ∷ (length key ∷ []) ∷ key ∷ []

  one_key :
      (type : KeyType) (key name : List ℕ) (n : ℕ) (s : S)
      → nvs_key (to_underlying type) ≡ ok name
      → 0 < length key
      → length key ≤ 255
      → n < 127
      → entry s key_num_stored_enc_keys ≡ some (int8 (pos n))
      → (s' : S) × (rx_callbacks nvs (transfer type key) fresh s ≡ ok (fresh, s'))
        × ((k : List ℕ)
            → entry s' k
              ≡ updated
                  (updated (entry s) name (blob key))
                  key_num_stored_enc_keys
                  (int8 (pos (n + 1)))
                  k)
  one_key type key name n s named some_left short small count =
      let (_, s', done, holds) =
        transfer_key nvs entry IsOpen works type [] key name n s named some_left short small
          count in
      (s', done, holds)

  -- On a flash that works, the three keys that `generateKeysAction` sends, in its order, each of 1 to
  -- 255 bytes, take a token that has stored none to
  -- one that has stored each under its own name and serves BLE when it starts again.
  pub provision :
      (public private client : List ℕ) (s : S)
      → ((0 < length public) × (length public ≤ 255))
      → ((0 < length private) × (length private ≤ 255))
      → ((0 < length client) × (length client ≤ 255))
      → entry s key_num_stored_enc_keys ≡ some (int8 (pos 0))
      → (s' : S) × (rx_callbacks nvs
            (transfer server_public public
              ++ (transfer server_private private ++ transfer client_public client))
            fresh
            s
          ≡ ok (fresh, s'))
        × (entry s' key_server_public ≡ some (blob public))
        × (entry s' key_server_private ≡ some (blob private))
        × (entry s' key_client_public ≡ some (blob client))
        × (app_main nvs s' ≡ ok serve_ble)
  unfolding same_bytes nvs_key boot_of_count
  provision public private client s (p0, p1) (q0, q1) (r0, r1) count =
      let (s1, done1, holds1) =
        one_key server_public public key_server_public 0 s refl p0 p1 (omega arith) count in
      let (s2, done2, holds2) =
        one_key server_private private key_server_private 1 s1 refl q0 q1 (omega arith)
          (holds1 key_num_stored_enc_keys) in
      let (s3, done3, holds3) =
        one_key client_public client key_client_public 2 s2 refl r0 r1 (omega arith)
          (holds2 key_num_stored_enc_keys) in
      (
        s3,
        rx_callbacks-append nvs (transfer server_public public)
              (transfer server_private private ++ transfer client_public client) fresh fresh s s1
              done1
            ∙ rx_callbacks-append nvs (transfer server_private private)
                (transfer client_public client) fresh fresh s1 s2 done2
            ∙ done3,
        holds3 key_server_public ∙ holds2 key_server_public ∙ holds1 key_server_public,
        holds3 key_server_private ∙ holds2 key_server_private,
        holds3 key_client_public,
        app_main_works s3 (pos 3) (holds3 key_num_stored_enc_keys),
      )
