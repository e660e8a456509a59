-- ===== src/Server/Verified.antt =====
-- A device is not verified without a key.
use ubiquitous_chainsaw.Base.{
  ℕ, zero, suc, ◌+◌, ◌≡◌, refl, Bool, true, false, Option, none, some, List, Outcome, ok, stop,
  Stop, Outcome-cases, Option-cases, inl, inr, arith,
}
use ubiquitous_chainsaw.Security.{Crypto}
use ubiquitous_chainsaw.Gatt.{Device}
use ubiquitous_chainsaw.WhoAmI.Client.{
  Reads, check_buffer, parse_packet, parse_and_verify, read_attempts,
  find_characteristic_authenticate, verify_server_address,
}
use ubiquitous_chainsaw.WhoAmI.Checks.{Vouched, verify_server_address-Vouched}

not_verified : ◌≡◌ {A = Outcome Bool} (ok false) (ok true) → ⊥
not_verified e = cc

not_ok : {s : Stop} → ◌≡◌ {A = Outcome Bool} (stop s) (ok true) → ⊥
not_ok e = cc

no_key_parse :
    (c : Crypto) (address : ℕ) (buffer : List ℕ)
    → parse_and_verify c none address buffer ≡ ok true
    → ⊥
unfolding parse_and_verify
no_key_parse c address buffer h = elim (Outcome-cases (parse_packet c buffer)) [
  | inl (r, e) ↦ not_ok (rw (e, parse_and_verify) at h)
  | inr (s, e) ↦ not_ok (rw (e, parse_and_verify) at h)
]

no_key_check :
    (c : Crypto) (address : ℕ) (buffer : List ℕ) → check_buffer c none address buffer ≡ ok true → ⊥
unfolding check_buffer
no_key_check c address buffer h = ground (arith, no_key_parse c address buffer)

no_key_reads :
    (c : Crypto) (address : ℕ) (reads : Reads) (attempt left : ℕ)
    → read_attempts c none address reads attempt left ≡ ok true
    → ⊥
unfolding read_attempts
no_key_reads c address reads attempt zero h = cc
no_key_reads c address reads attempt (suc left) h = elim (Option-cases (reads attempt)) [
  | inl e ↦ no_key_reads c address reads (attempt + 1) left (rw (e, read_attempts) at h)
  | inr (buffer, e) ↦ no_key_check c address buffer (rw (e, read_attempts) at h)
]

-- What a verification that succeeds says, whatever key is loaded.
pub verified_key :
    (c : Crypto) (server_key : Option (List ℕ)) (device : Device Reads) (address : ℕ)
    → verify_server_address c server_key device address ≡ ok true
    → (key : List ℕ) × (server_key ≡ some key) × Vouched c key address
unfolding verify_server_address
verified_key c (some key) device address h =
    (key, refl, verify_server_address-Vouched c key device address h)
verified_key c none device address h =
    elim (Option-cases (find_characteristic_authenticate device)) [
      | inl e ↦ absurd (not_verified (rw (e, verify_server_address) at h))
      | inr (reads, e) ↦
          absurd (no_key_reads c address reads 0 3 (rw (e, verify_server_address) at h))
    ]
