-- ===== src/WhoAmI/RoundTrip.antt =====
-- What the token sends to prove who it is passes the client's check.
use ubiquitous_chainsaw.Base.{
  ℕ, ◌+◌, ◌≤◌, ◌≡◌, refl, ◌∙◌, true, false, some, List, [], ◌∷◌, ◌++◌, length, length-append,
  ==_self, ok, arith, subspan-append, append-nil,
}
use ubiquitous_chainsaw.Security.{Algorithm, Crypto, CryptoLaws}
use ubiquitous_chainsaw.Security.Hash
use ubiquitous_chainsaw.Security.Hash.{CHash}
use ubiquitous_chainsaw.Security.Hash.Laws.{ne_self}
use ubiquitous_chainsaw.Security.Keys
use ubiquitous_chainsaw.Services.{sha_version_id_of}
use ubiquitous_chainsaw.Services.Laws.{
  version_of_byte-sha_version_id_of, size_of_hash_type-sha_to_enum, make_sha_hash-sha_to_enum,
}
use ubiquitous_chainsaw.Address.{MacAddress, format_mac, hex_addr_to_str, address_value, IsMac}
use ubiquitous_chainsaw.Address.Laws.{hex_addr_to_str-address_value}
use ubiquitous_chainsaw.Gatt.{Device}
use ubiquitous_chainsaw.WhoAmI.Token.{
  WhoAmI, Surroundings, read, callback_authenticate, signed, sign_server_mac_address,
}
use ubiquitous_chainsaw.WhoAmI.Client.{
  Reads, buffer_size_mismatch, valid_hash_type, verify_hash_and_signature, parse_packet,
  parse_and_verify, check_buffer, find_characteristic_authenticate, verify_server_address,
}
use ubiquitous_chainsaw.WhoAmI.Checks.{verify_first}
use ubiquitous_chainsaw.WhoAmI.Layout.{layout, make_packet_lem}

module _ (c : Crypto) (hash : CHash) (signature : List ℕ)
    (size : length hash.bytes ≡ c.hash_size hash.hash_type) where
  abbrev packet : List ℕ
  packet = layout hash (hash.bytes ++ signature) signature

  packet_matches : buffer_size_mismatch c packet ≡ ok false
  unfolding buffer_size_mismatch
  packet_matches =
      rw
        (
          version_of_byte-sha_version_id_of hash.hash_type,
          size_of_hash_type-sha_to_enum c hash.hash_type,
        )
        (ground (arith, size, length-append hash.bytes signature))

  packet_valid : valid_hash_type packet ≡ ok true
  unfolding valid_hash_type sha_version_id_of
  packet_valid = ground arith

  packet_parses :
      (key : List ℕ) (address : ℕ)
      → parse_and_verify c (some key) address packet
        ≡ verify_hash_and_signature c (hex_addr_to_str address) key hash signature
  unfolding parse_and_verify parse_packet
  packet_parses key address = rw (
    version_of_byte-sha_version_id_of hash.hash_type,
    subspan-append packet cells hash.bytes signature 5 _ refl refl refl,
    make_sha_hash-sha_to_enum c hash.hash_type hash.bytes size,
    subspan-append packet (cells ++ hash.bytes) signature [] (5 + length hash.bytes)
        (length signature) (rw (append-nil signature)) (omega arith) refl,
  )
    where
      cells : List ℕ
      cells = layout hash [] signature

module _ (c : Crypto) {IsPair : List ℕ → List ℕ → Type 0} (laws : CryptoLaws c IsPair)
    (public private : List ℕ) (pair : IsPair public private) (address : MacAddress)
    (is_mac : IsMac address) where
  abbrev mac_hash : CHash
  mac_hash = record {
    hash_type = Algorithm.sha2_256;
    bytes = c.digest Algorithm.sha2_256 (format_mac address);
  }

  abbrev signature_of : ℕ → List ℕ
  signature_of draw = c.sign_hash private draw mac_hash.bytes

  abbrev answer : ℕ → List ℕ
  answer draw = layout mac_hash (mac_hash.bytes ++ signature_of draw) (signature_of draw)

  verified :
      (draw : ℕ)
      → verify_hash_and_signature c
          (hex_addr_to_str (address_value address))
          public
          mac_hash
          (signature_of draw)
        ≡ ok true
  unfolding verify_hash_and_signature Hash.of_buffer
  verified draw = rw (
    hex_addr_to_str-address_value address is_mac,
    laws.digest_size Algorithm.sha2_256 (format_mac address),
    ==_self (c.hash_size Algorithm.sha2_256),
    ne_self mac_hash mac_hash refl,
    Keys.verify_hash_lem c public (signature_of draw) mac_hash.bytes
        (laws.sign_nonempty private mac_hash.bytes draw),
    laws.sign_verifies public private mac_hash.bytes draw pair,
  )

  answer_checks :
      (draw : ℕ) → check_buffer c (some public) (address_value address) (answer draw) ≡ ok true
  unfolding check_buffer
  answer_checks draw =
      rw
        (
          packet_matches c mac_hash (signature_of draw) size,
          packet_valid c mac_hash (signature_of draw) size,
          packet_parses c mac_hash (signature_of draw) size public (address_value address),
        )
        (verified draw)
    where
      size : length mac_hash.bytes ≡ c.hash_size Algorithm.sha2_256
      size = laws.digest_size Algorithm.sha2_256 (format_mac address)

  module _ (short : c.hash_size Algorithm.sha2_256 ≤ 250) (env : Surroundings)
      (own : env.mac ≡ some address) where
    signs :
        (self : WhoAmI)
        → self.private_key ≡ private
        → sign_server_mac_address c env self
          ≡ ok (record { private_key = private; signed_mac_data = answer env.draw })
    unfolding sign_server_mac_address Hash.of_buffer
    signs self e =
        rw
          (
            own,
            e,
            Keys.sign_hash_lem c private env.draw mac_hash.bytes (omega arith),
            make_packet_lem mac_hash (signature_of env.draw) (omega arith) (omega arith)
                (omega arith),
          )
          (ground arith)

    signs_once :
        (self : WhoAmI) (kept : List ℕ)
        → self.private_key ≡ private
        → kept ≡ []
        → signed c env self kept
          ≡ ok (record { private_key = private; signed_mac_data = answer env.draw })
    unfolding signed
    signs_once self [] e fresh = signs self e
    signs_once self (b ∷ kept) e fresh = cc

    -- Where wolfCrypt keeps its laws, a hash has at most 250 bytes and the address is one of six bytes: a
    -- token that has not signed yet answers a read of its characteristic with a packet for its own
    -- address, gives the same packet at any later read, and a client that holds the matching public
    -- key accepts that packet, read at its first attempt, as coming from that address.
    pub authenticates :
        (self : WhoAmI) (device : Device Reads) (reads : Reads) (later : Surroundings)
        → self.private_key ≡ private
        → self.signed_mac_data ≡ []
        → find_characteristic_authenticate device ≡ some reads
        → reads 0 ≡ some (answer env.draw)
        → let packet = answer env.draw in
          let self' : WhoAmI = record { private_key = private; signed_mac_data = packet } in
          (callback_authenticate c env read (some self)
            ≡ ok (env.append packet, packet, some self'))
          × (callback_authenticate c later read (some self')
              ≡ ok (later.append packet, packet, some self'))
          × (verify_server_address c (some public) device (address_value address) ≡ ok true)
    unfolding callback_authenticate signed
    authenticates self device reads later key fresh found first = (
      rw (signs_once self self.signed_mac_data key fresh),
      refl,
      verify_first c (some public) device (address_value address) reads (answer env.draw) found
            first
          ∙ answer_checks env.draw,
    )
