-- ===== src/KeyTransfer/Boot.antt =====
-- server/main/main.cpp: how the token starts, depending on the number of keys that it has stored.
use ubiquitous_chainsaw.Base.{
  ℕ, Bool, ◌==◌, if◌then◌else◌, Option, none, some, Outcome, ok, stop, fatal, assertion, undefined,
  ◌>>=◌, ◌>>◌, assert,
}
use ubiquitous_chainsaw.Base.Int.{ℤ, pos, negsuc, ltb_ℤ}
use ubiquitous_chainsaw.Nvs.Flash.{NvsFlash, namespace_not_found, is_success}
use ubiquitous_chainsaw.Nvs.Handle.{make_reader, make_writer, destroy}
use ubiquitous_chainsaw.Nvs.Access.{Expected, value, error, read_int8, write_int8}
use ubiquitous_chainsaw.KeyTransfer.Token.{encryption_namespace, key_num_stored_enc_keys, expect}

module _ {S : Type 0} (nvs : NvsFlash S) where
  -- One turn of the loop of `reset_stored_key_count`, up to the restart.
  unfoldable pub reset_stored_key_count : S → Outcome S
  reset_stored_key_count s = do
    (writer, s1) ← make_writer nvs encryption_namespace s
    handle ← expect writer
    (code, s2) ← write_int8 nvs handle key_num_stored_enc_keys (pos 0) s1
    assert (is_success code)
    ok s2

  unfoldable pub write_zero : Option ℕ → S → Outcome S
  write_zero none s = stop fatal
  write_zero (some handle) s = do
    (code, s') ← write_int8 nvs handle key_num_stored_enc_keys (pos 0) s
    assert (is_success code)
    ok (destroy nvs handle s')

  unfoldable pub create_nvs_encryption_namespace : S → Outcome S
  create_nvs_encryption_namespace s = do
    (writer, s1) ← make_writer nvs encryption_namespace s
    write_zero writer s1

  unfoldable pub count_of_result : ℕ → Expected ℤ → S → Outcome (ℤ × S)
  count_of_result handle (value count) s = ok (count, destroy nvs handle s)
  count_of_result handle (error namespace_not_found) s = do
    s' ← create_nvs_encryption_namespace s
    ok (pos 0, destroy nvs handle s')
  count_of_result handle (error _) s = stop fatal

  unfoldable pub count_of_reader : Option ℕ → S → Outcome (ℤ × S)
  count_of_reader none s = stop fatal
  count_of_reader (some handle) s = do
    result ← read_int8 nvs handle key_num_stored_enc_keys s
    count_of_result handle result s

  unfoldable pub num_stored_encryption_keys : S → Outcome (ℤ × S)
  num_stored_encryption_keys s = do
    (reader, s1) ← make_reader nvs encryption_namespace s
    count_of_reader reader s1

  -- Whether the loop of `listen_for_serial_communication` waits another second.
  unfoldable pub keep_listening : S → Outcome (Bool × S)
  keep_listening s = do (count, s') ← num_stored_encryption_keys s; ok (ltb_ℤ count (pos 3), s')

-- What `app_main` goes on to do.
pub data Boot : Type 0 where
  serve_ble listen restart : Boot

unfoldable pub boot_of_count : ℤ → Outcome Boot
boot_of_count (pos n) =
    if n == 3 then ok serve_ble else if n == 0 then ok listen else stop assertion
boot_of_count (negsuc n) = stop assertion

-- The fatal error that `app_main` catches.
unfoldable pub or_restart : {S : Type 0} → Outcome (ℤ × S) → Outcome Boot
or_restart (ok (count, s)) = boot_of_count count
or_restart (stop fatal) = ok restart
or_restart (stop assertion) = stop assertion
or_restart (stop undefined) = stop undefined

unfoldable pub app_main : {S : Type 0} → NvsFlash S → S → Outcome Boot
app_main nvs s = or_restart (num_stored_encryption_keys nvs s)
