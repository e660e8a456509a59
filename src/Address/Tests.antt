-- ===== src/Address/Tests.antt =====
-- The two texts at a concrete address.
use ubiquitous_chainsaw.Base.{◌≡◌, refl, [], ◌∷◌, arith}
use ubiquitous_chainsaw.Address.{
  hex_addr_to_str, MacAddress, format_mac, address_value, low_nibble_as_char, high_nibble_as_char,
}
use ubiquitous_chainsaw.Address.Laws.{hex_addr_to_str-address_value}

abbrev mac : MacAddress
mac = record { b0 = 1; b1 = 32; b2 = 48; b3 = 64; b4 = 80; b5 = 255 }

hex_addr_to_str-address_value_example : hex_addr_to_str (address_value mac) ≡ format_mac mac
hex_addr_to_str-address_value_example =
    hex_addr_to_str-address_value mac
      (omega arith, omega arith, omega arith, omega arith, omega arith, omega arith)

text :
    format_mac mac
    ≡ b'F' ∷ b'F' ∷ b':' ∷ b'5' ∷ b'0' ∷ b':' ∷ b'4' ∷ b'0' ∷ b':' ∷ b'3' ∷ b'0' ∷ b':' ∷ b'2'
      ∷ b'0' ∷ b':' ∷ b'0' ∷ b'1' ∷ []
unfolding format_mac low_nibble_as_char high_nibble_as_char
text = refl
