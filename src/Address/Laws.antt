-- ===== src/Address/Laws.antt =====
-- Both ends write one address alike.
use ubiquitous_chainsaw.Base.{ℕ, ◌+◌, ◌*◌, ◌/◌, ◌%◌, ◌<◌, ◌≡◌, arith}
use ubiquitous_chainsaw.Address.{hex_addr_to_str, MacAddress, format_mac, address_value, IsMac}

low_digit : (b m : ℕ) → b < 256 → (b + 256 * m) % 256 ≡ b
low_digit b m h = omega arith

high_digits : (b m : ℕ) → b < 256 → (b + 256 * m) / 256 ≡ m
high_digits b m h = omega arith

last_digit : (b : ℕ) → b < 256 → b % 256 ≡ b
last_digit b h = omega arith

-- The text that the client hashes for an address of six bytes is the text that the token hashes for
-- the same bytes.
pub hex_addr_to_str-address_value :
    (a : MacAddress) → IsMac a → hex_addr_to_str (address_value a) ≡ format_mac a
unfolding hex_addr_to_str format_mac
hex_addr_to_str-address_value a h = rw (
  low_digit a.b0 _ h.0,
  high_digits a.b0 _ h.0,
  low_digit a.b1 _ h.1,
  high_digits a.b1 _ h.1,
  low_digit a.b2 _ h.2,
  high_digits a.b2 _ h.2,
  low_digit a.b3 _ h.3,
  high_digits a.b3 _ h.3,
  low_digit a.b4 _ h.4,
  high_digits a.b4 _ h.4,
  last_digit a.b5 h.5,
)
