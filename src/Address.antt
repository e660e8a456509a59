-- ===== src/Address.antt =====
-- Bluetooth addresses as text: `hex_addr_to_str` of client/src/bluetoothLE/ble_common.hpp, and the
-- format of `current_mac_address` of server/main/ble/ble_common.cpp.
pub mod Laws
mod Tests
use ubiquitous_chainsaw.Base.{
  ℕ, zero, suc, ◌+◌, ◌-◌, ◌*◌, ◌/◌, ◌%◌, ◌<◌, List, [], ◌∷◌, ltb, if◌then◌else◌, set, replicate,
}

-- The table `hexValues` of `byte_to_hex_char`.
abbrev pub byte_to_hex_char : ℕ → ℕ
byte_to_hex_char index = if ltb index 10 then b'0' + index else b'A' + index - 10

-- `byte & 0x0F` and `byte >> 4` of a `uint8_t`.
unfoldable pub low_nibble_as_char : ℕ → ℕ
low_nibble_as_char byte = byte_to_hex_char (byte % 16)

unfoldable pub high_nibble_as_char : ℕ → ℕ
high_nibble_as_char byte = byte_to_hex_char (byte / 16)

-- `lsb_of_uint`
unfoldable pub lsb_of_uint : ℕ → ℕ
lsb_of_uint value = value % 256

-- The loop of `hex_addr_to_str`: before a round the index is `3 * rounds - 2`, and at -2 it ends.
unfoldable pub write_address : ℕ → ℕ → List ℕ → List ℕ
unfolding lsb_of_uint low_nibble_as_char high_nibble_as_char
write_address zero addr address = address
write_address (suc rounds) addr address =
    let i = 3 * rounds + 1 in
    let byte = lsb_of_uint addr in
    write_address rounds (addr / 256)
      (set (set address i (low_nibble_as_char byte)) (i - 1) (high_nibble_as_char byte))

-- From index 16 of seventeen colons.
unfoldable pub hex_addr_to_str : ℕ → List ℕ
unfolding write_address
hex_addr_to_str addr = write_address 6 addr (replicate 17 b':')

-- `{:02X}` of a byte.
abbrev pub format_byte : ℕ → List ℕ → List ℕ
format_byte b rest = byte_to_hex_char (b / 16) ∷ byte_to_hex_char (b % 16) ∷ rest

-- The array that `ble_hs_id_copy_addr` fills, least significant byte first.
pub record MacAddress : Type 0 where
  pub b0 : ℕ
  pub b1 : ℕ
  pub b2 : ℕ
  pub b3 : ℕ
  pub b4 : ℕ
  pub b5 : ℕ

-- `FMT("{:02X}:{:02X}:{:02X}:{:02X}:{:02X}:{:02X}", addr[5], …, addr[0])`
unfoldable pub format_mac : MacAddress → List ℕ
format_mac a = format_byte a.b5 (
    b':'
    ∷ format_byte a.b4 (
        b':'
        ∷ format_byte a.b3
            (b':' ∷ format_byte a.b2 (b':' ∷ format_byte a.b1 (b':' ∷ format_byte a.b0 [])))))

-- The number by which Windows names the same address.
abbrev pub address_value : MacAddress → ℕ
address_value a = a.b0 + 256 * (a.b1 + 256 * (a.b2 + 256 * (a.b3 + 256 * (a.b4 + 256 * a.b5))))

abbrev pub IsMac : MacAddress → Type 0
IsMac a = (a.b0 < 256) × (a.b1 < 256) × (a.b2 < 256) × (a.b3 < 256) × (a.b4 < 256) × (a.b5 < 256)
