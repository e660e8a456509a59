-- ===== src/Server/Tests.antt =====
-- The client finds a token and authenticates it, at concrete keys and addresses.
use ubiquitous_chainsaw.Base.{
  ℕ, ◌≡◌, refl, true, none, some, Option, List, [], ◌∷◌, ok, subspan, view,
}
use ubiquitous_chainsaw.Security.Hash
use ubiquitous_chainsaw.Security.Hash.{same_bytes}
use ubiquitous_chainsaw.Security.Keys
use ubiquitous_chainsaw.Security.Sample
use ubiquitous_chainsaw.Security.Sample.{sample}
use ubiquitous_chainsaw.Services
use ubiquitous_chainsaw.Services.{uuid_service_whoami, uuid_characteristic_whoami_authenticate}
use ubiquitous_chainsaw.Address
use ubiquitous_chainsaw.Address.{MacAddress, address_value}
use ubiquitous_chainsaw.Gatt
use ubiquitous_chainsaw.Gatt.{Device}
use ubiquitous_chainsaw.Scanner.Info.{DeviceInfo, random}
use ubiquitous_chainsaw.WhoAmI.Client
use ubiquitous_chainsaw.WhoAmI.Client.{
  Reads, check_buffer, find_characteristic_authenticate, verify_server_address,
}
use ubiquitous_chainsaw.Server.State.{
  AuthenticatedDevice, CServer, make_server, enqueue_devices, is_authenticated,
  grant_authentication,
}
use ubiquitous_chainsaw.Server.Processed.{enqueue_devices-all}
use ubiquitous_chainsaw.Server.Coroutines.{
  Stage, fired, made, verified, granting, finished, make_device_of, resume, Client, enqueued,
  resumed, Steps, here, step,
}
use ubiquitous_chainsaw.Server.Held.{Known, held_is_Known}
use ubiquitous_chainsaw.Server.Raced.{second_replaces_first}

abbrev key : List ℕ
key = 9 ∷ 8 ∷ []

abbrev mac : MacAddress
mac = record { b0 = 16; b1 = 32; b2 = 48; b3 = 64; b4 = 80; b5 = 255 }

abbrev packet : List ℕ
packet = 1 ∷ 5 ∷ 2 ∷ 7 ∷ 2 ∷ 17 ∷ 7 ∷ 17 ∷ 9 ∷ []

abbrev found : Device Reads
found = record {
  address = address_value mac;
  services =
      (
        uuid_service_whoami,
        (uuid_characteristic_whoami_authenticate, (λ attempt. some packet)) ∷ [],
      )
      ∷ [];
}

abbrev info : DeviceInfo
info = record { address = some (address_value mac); address_type = random }

accepted : verify_server_address sample (some key) found (address_value mac) ≡ ok true
unfolding verify_server_address Client.read_attempts check_buffer Client.buffer_size_mismatch
    Client.valid_hash_type Client.parse_and_verify Client.parse_packet
    Client.verify_hash_and_signature subspan view Address.hex_addr_to_str Keys.verify_hash
    Hash.of_buffer Hash.ne same_bytes find_characteristic_authenticate Sample.head_and_tag
    Sample.tag Services.make_sha_hash Services.version_of_byte Hash.of_range Gatt.service
    uuid_service_whoami uuid_characteristic_whoami_authenticate
accepted = refl

abbrev held : AuthenticatedDevice Reads
held = record { device = found; info = info }

abbrev server : Option (AuthenticatedDevice Reads) → CServer Reads
server device = record { server = device; server_key = some key; devices = [] }

enqueue_devices-all_example :
    enqueue_devices (info ∷ []) (server none) ≡ ok (info ∷ [], server none)
enqueue_devices-all_example = enqueue_devices-all (info ∷ []) (server none)

verifies :
    resume sample none (made info (address_value mac) found) (server none)
    ≡ ok (verified info found, server none)
unfolding resume
verifies = rw (accepted)

abbrev alone : CServer Reads → Stage → Client
alone self stage = record { self = self; coroutines = stage ∷ [] }

authenticates :
    Steps sample
      (λ k. k ≡ key)
      (record { self = make_server (some key); coroutines = [] })
      (alone (server (some held)) finished)
unfolding make_server resume make_device_of is_authenticated grant_authentication
authenticates =
    step
      (step
        (step
          (step
            (step here
              (enqueued (info ∷ []) (info ∷ []) (enqueue_devices-all (info ∷ []) (server none))))
            (resumed (some found) [] [] (fired info) (made info (address_value mac) found) refl))
          (resumed none [] [] (made info (address_value mac) found) (verified info found) verifies))
        (resumed none [] [] (verified info found) (granting info found) refl))
      (resumed none [] [] (granting info found) finished refl)

held_is_Known_example : Known sample (λ k. k ≡ key) info
held_is_Known_example =
    held_is_Known sample (λ k. k ≡ key) (some key) (alone (server (some held)) finished) held
      (λ k e. cc) authenticates refl

second_replaces_first_example :
    (mid last : Client) × Steps sample
      (λ k. k ≡ key)
      (record { self = server none; coroutines = verified info found ∷ verified info found ∷ [] })
      mid
    × (mid.self.server ≡ some held)
    × Steps sample (λ k. k ≡ key) mid last
    × (last.self.server ≡ some held)
second_replaces_first_example = second_replaces_first sample (λ k. k ≡ key) held held (some key) []
