-- ===== src/WhoAmI/Tests.antt =====
-- The authentication of the token at concrete keys and addresses.
use ubiquitous_chainsaw.Base.{
  ℕ, zero, suc, ◌≡◌, refl, true, none, some, List, [], ◌∷◌, ok, arith, subspan, view,
}
use ubiquitous_chainsaw.Security.Hash
use ubiquitous_chainsaw.Security.Hash.{same_bytes}
use ubiquitous_chainsaw.Security.Keys
use ubiquitous_chainsaw.Security.Sample
use ubiquitous_chainsaw.Services
use ubiquitous_chainsaw.Address
use ubiquitous_chainsaw.WhoAmI.Client
use ubiquitous_chainsaw.Security.Sample.{sample, sample-CryptoLaws}
use ubiquitous_chainsaw.Services.{uuid_service_whoami, uuid_characteristic_whoami_authenticate}
use ubiquitous_chainsaw.Address.{MacAddress, address_value}
use ubiquitous_chainsaw.Gatt.{Device}
use ubiquitous_chainsaw.Gatt
use ubiquitous_chainsaw.Nimble.{success}
use ubiquitous_chainsaw.WhoAmI.Token.{WhoAmI, Surroundings, read, callback_authenticate}
use ubiquitous_chainsaw.WhoAmI.Client.{
  Reads, check_buffer, find_characteristic_authenticate, verify_server_address,
}
use ubiquitous_chainsaw.WhoAmI.Checks.{
  Vouched, verify_server_address_attempts, verify_server_address-Vouched,
}
use ubiquitous_chainsaw.WhoAmI.RoundTrip.{authenticates}

abbrev mac : MacAddress
mac = record { b0 = 16; b1 = 32; b2 = 48; b3 = 64; b4 = 80; b5 = 255 }

abbrev key : List ℕ
key = 9 ∷ 8 ∷ []

abbrev env : Surroundings
env = record { mac = some mac; draw = 0; append = λ bytes. success }

abbrev token : WhoAmI
token = record { private_key = key; signed_mac_data = [] }

abbrev packet : List ℕ
packet = 1 ∷ 5 ∷ 2 ∷ 7 ∷ 2 ∷ 17 ∷ 7 ∷ 17 ∷ 9 ∷ []

-- A device whose first read fails and whose later reads give `bytes`.
abbrev late : List ℕ → Reads
late bytes zero = none
late bytes (suc attempt) = some bytes

abbrev device_of : Reads → Device Reads
device_of reads = record {
  address = address_value mac;
  services = (uuid_service_whoami, (uuid_characteristic_whoami_authenticate, reads) ∷ []) ∷ [];
}

found : (reads : Reads) → find_characteristic_authenticate (device_of reads) ≡ some reads
unfolding find_characteristic_authenticate Gatt.service uuid_service_whoami
    uuid_characteristic_whoami_authenticate
found reads = refl

authenticates_example :
    (callback_authenticate sample env read (some token)
      ≡ ok (success, packet, some (record token { signed_mac_data = packet })))
    × (callback_authenticate sample env read (some (record token { signed_mac_data = packet }))
        ≡ ok (success, packet, some (record token { signed_mac_data = packet })))
    × (verify_server_address sample
          (some key)
          (device_of (λ attempt. some packet))
          (address_value mac)
        ≡ ok true)
unfolding Services.sha_version_id_of Sample.head_and_tag Sample.tag Address.format_mac
    Address.low_nibble_as_char Address.high_nibble_as_char
authenticates_example =
    authenticates sample sample-CryptoLaws key key refl mac
      (omega arith, omega arith, omega arith, omega arith, omega arith, omega arith) (omega arith)
      env refl token (device_of (λ attempt. some packet)) (λ attempt. some packet) env refl refl
      (found (λ attempt. some packet)) refl

verify_server_address-Vouched_example : Vouched sample key (address_value mac)
unfolding verify_server_address Client.read_attempts check_buffer Client.buffer_size_mismatch
    Client.valid_hash_type Client.parse_and_verify Client.parse_packet
    Client.verify_hash_and_signature subspan view Address.hex_addr_to_str Keys.verify_hash
    Hash.of_buffer Hash.ne same_bytes find_characteristic_authenticate Sample.head_and_tag
    Sample.tag Services.make_sha_hash Services.version_of_byte Hash.of_range Gatt.service
    uuid_service_whoami uuid_characteristic_whoami_authenticate
verify_server_address-Vouched_example =
    verify_server_address-Vouched sample key (device_of (late packet)) (address_value mac) refl

verify_server_address_attempts_example :
    verify_server_address sample (some key) (device_of (late packet)) (address_value mac)
    ≡ check_buffer sample (some key) (address_value mac) packet
verify_server_address_attempts_example =
    verify_server_address_attempts sample (some key) (device_of (late packet)) (address_value mac)
      (late packet) (found (late packet))
