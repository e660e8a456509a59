-- ===== src/WhoAmI/Checks.antt =====
-- What the client's check of an authentication packet guarantees, and where it fails.
use ubiquitous_chainsaw.Base.{
  ℕ, zero, suc, ◌+◌, ◌≤◌, ◌≡◌, Bool, true, false, Option, none, some, List, ◌∷◌, Outcome, ok, stop,
  undefined, arith, Stop, Outcome-cases, Option-cases, inl, inr,
}
use ubiquitous_chainsaw.Security.{Algorithm, Crypto}
use ubiquitous_chainsaw.Security.Hash
use ubiquitous_chainsaw.Security.Hash.{CHash}
use ubiquitous_chainsaw.Security.Hash.Laws.{ne→bytes}
use ubiquitous_chainsaw.Security.Keys
use ubiquitous_chainsaw.Services.Laws.{size_of_hash_type_unnamed}
use ubiquitous_chainsaw.Address.{hex_addr_to_str}
use ubiquitous_chainsaw.Gatt.{Device}
use ubiquitous_chainsaw.WhoAmI.Client.{
  Reads, buffer_size_mismatch, verify_hash_and_signature, parse_packet, parse_and_verify,
  check_buffer, read_attempts, find_characteristic_authenticate, verify_server_address,
}

-- A packet whose version byte names no algorithm sends the check into `std::unreachable`, since the
-- size is compared before `valid_hash_type` looks at that byte.
check_buffer_unnamed_version :
    (c : Crypto) (key : Option (List ℕ)) (address version : ℕ) (rest : List ℕ)
    → 7 ≤ version
    → check_buffer c key address (version ∷ rest) ≡ stop undefined
unfolding check_buffer buffer_size_mismatch
check_buffer_unnamed_version c key address version rest h =
    rw (size_of_hash_type_unnamed c version h)

-- Someone who holds the private key has signed the digest of the address.
pub record Vouched (c : Crypto) (key : List ℕ) (address : ℕ) : Type 0 where
  pub algorithm : Algorithm
  pub signature : List ℕ
  pub verified : c.verify_hash key signature (c.digest algorithm (hex_addr_to_str address)) ≡ true

signature_verified :
    (c : Crypto) (key : List ℕ) (address : ℕ) (hash : CHash) (signature : List ℕ)
    → verify_hash_and_signature c (hex_addr_to_str address) key hash signature ≡ ok true
    → c.verify_hash key signature (c.digest hash.hash_type (hex_addr_to_str address)) ≡ true
unfolding verify_hash_and_signature Keys.verify_hash Hash.of_buffer
signature_verified c key address hash signature h =
    ground (arith, ne→bytes (Hash.of_buffer c hash.hash_type (hex_addr_to_str address)) hash)

parse_and_verify-Vouched :
    (c : Crypto) (key : List ℕ) (address : ℕ) (buffer : List ℕ)
    → parse_and_verify c (some key) address buffer ≡ ok true
    → Vouched c key address
unfolding parse_and_verify
parse_and_verify-Vouched c key address buffer h = elim (Outcome-cases (parse_packet c buffer)) [
  | inl ((hash, signature), e) ↦ record {
    algorithm = hash.hash_type;
    signature = signature;
    verified = signature_verified c key address hash signature (rw (e, parse_and_verify) at h);
  }
  | inr (s, e) ↦ absurd (not_ok (rw (e, parse_and_verify) at h))
]
  where
    not_ok : {s : Stop} → ◌≡◌ {A = Outcome Bool} (stop s) (ok true) → ⊥
    not_ok e = cc

check_buffer-Vouched :
    (c : Crypto) (key : List ℕ) (address : ℕ) (buffer : List ℕ)
    → check_buffer c (some key) address buffer ≡ ok true
    → parse_and_verify c (some key) address buffer ≡ ok true
unfolding check_buffer
check_buffer-Vouched c key address buffer h = ground arith

read_attempts-Vouched :
    (c : Crypto) (key : List ℕ) (address : ℕ) (reads : Reads) (attempt left : ℕ)
    → read_attempts c (some key) address reads attempt left ≡ ok true
    → Vouched c key address
unfolding read_attempts
read_attempts-Vouched c key address reads attempt zero h = cc
read_attempts-Vouched c key address reads attempt (suc left) h =
    elim (Option-cases (reads attempt)) [
      | inl e ↦
          read_attempts-Vouched c key address reads (attempt + 1) left (rw (e, read_attempts) at h)
      | inr (buffer, e) ↦
          parse_and_verify-Vouched c key address buffer
            (check_buffer-Vouched c key address buffer (rw (e, read_attempts) at h))
    ]

-- If the client accepts a device, then whoever holds the private key of the token has signed the
-- digest of that device's address: no other answer is accepted, at any of the attempts.
pub verify_server_address-Vouched :
    (c : Crypto) (key : List ℕ) (device : Device Reads) (address : ℕ)
    → verify_server_address c (some key) device address ≡ ok true
    → Vouched c key address
unfolding verify_server_address
verify_server_address-Vouched c key device address h =
    elim (Option-cases (find_characteristic_authenticate device)) [
      | inl e ↦ absurd (not_verified (rw (e, verify_server_address) at h))
      | inr (reads, e) ↦
          read_attempts-Vouched c key address reads 0 3 (rw (e, verify_server_address) at h)
    ]
  where
    not_verified : ◌≡◌ {A = Outcome Bool} (ok false) (ok true) → ⊥
    not_verified e = cc

pub verify_first :
    (c : Crypto) (key : Option (List ℕ)) (device : Device Reads) (address : ℕ) (reads : Reads)
    (buffer : List ℕ)
    → find_characteristic_authenticate device ≡ some reads
    → reads 0 ≡ some buffer
    → verify_server_address c key device address ≡ check_buffer c key address buffer
unfolding verify_server_address read_attempts
verify_first c key device address reads buffer found first =
    rw (found, verify_server_address) (rw (first, read_attempts))

-- A read that fails is repeated up to two times: the first of the first three reads to succeed is the
-- one that is checked, and if all three fail the device is not accepted.
pub verify_server_address_attempts :
    (c : Crypto) (key : Option (List ℕ)) (device : Device Reads) (address : ℕ) (reads : Reads)
    → find_characteristic_authenticate device ≡ some reads
    → verify_server_address c key device address ≡ elim (reads 0) [
      | some b ↦ check_buffer c key address b
      | none ↦ elim (reads 1) [
        | some b ↦ check_buffer c key address b
        | none ↦ elim (reads 2) [ some b ↦ check_buffer c key address b | none ↦ ok false ]
      ]
    ]
unfolding verify_server_address read_attempts
verify_server_address_attempts c key device address reads found = rw (found, verify_server_address)
