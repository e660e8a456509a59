-- ===== src/KeyTransfer/Client.antt =====
-- `send_key` of client/src/main.cpp and shared/common/serial_communication.hpp.
use ubiquitous_chainsaw.Base.{
  ℕ, ◌+◌, List, [], ◌∷◌, length, ◌==◌, Bool, false, Option, none, some, Outcome, ok, ◌>>=◌,
}
use ubiquitous_chainsaw.WhoAmI.Token.{assert_down_cast}

pub data KeyType : Type 0 where
  client_public server_public server_private undefined_key : KeyType

abbrev pub to_underlying : KeyType → ℕ
to_underlying client_public = 0
to_underlying server_public = 1
to_underlying server_private = 2
to_underlying undefined_key = 3

pub record KeyTransferHeader : Type 0 where
  pub key_type : ℕ
  pub key_size : ℕ

abbrev pub sizeof_key_transfer_header : ℕ
sizeof_key_transfer_header = 2

-- The three buffers that `send_key` writes.
unfoldable pub messages : KeyType → List ℕ → Outcome (List (List ℕ))
messages type key = do
  size ← assert_down_cast (length key)
  let header : KeyTransferHeader = record { key_type = to_underlying type; key_size = size }
  ok ((header.key_type ∷ []) ∷ (header.key_size ∷ []) ∷ key ∷ [])

-- `write` gives the number of bytes written of the n-th buffer.
unfoldable pub bytes_written : (ℕ → List ℕ → ℕ) → ℕ → List (List ℕ) → ℕ
bytes_written write n [] = 0
bytes_written write n (m ∷ ms) = let rest = bytes_written write (n + 1) ms in write n m + rest

-- `none` is a serial port that does not open.
unfoldable pub send_key : Option (ℕ → List ℕ → ℕ) → KeyType → List ℕ → Outcome Bool
send_key none type key = ok false
send_key (some write) type key = do
  sent ← messages type key
  ok (bytes_written write 0 sent == length key + sizeof_key_transfer_header)
