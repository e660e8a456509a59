-- ===== src/SerialPort/Search.antt =====
-- The search for the port among the devices that Windows lists: com_port and what it calls. A text is
-- its bytes; enumerate_device_info of CDeviceInfoSet.cpp gives one for each device.
use ubiquitous_chainsaw.Base.{
  ℕ, suc, ◌+◌, ◌-◌, ◌%◌, ◌^◌, Bool, true, false, ◌&&◌, List, [], ◌∷◌, ◌==◌, if◌then◌else◌, take,
  drop, get_elem?, Option, none, some, Outcome, ok, stop, assertion, ◌>>=◌,
}

unfoldable pub starts_with : List ℕ → List ℕ → Bool
starts_with [] text = true
starts_with (p ∷ pattern) [] = false
starts_with (p ∷ pattern) (c ∷ text) = p == c && starts_with pattern text

abbrev pub later : Option ℕ → Option ℕ
later none = none
later (some i) = some (suc i)

-- `std::string::find`, for a text that is not empty.
unfoldable pub find_text : List ℕ → List ℕ → Option ℕ
unfolding starts_with
find_text pattern [] = none
find_text pattern (c ∷ text) =
    if starts_with pattern (c ∷ text) then some 0 else later (find_text pattern text)

abbrev pub later_or : Option ℕ → Bool → Option ℕ
later_or (some i) here = some (suc i)
later_or none here = if here then some 0 else none

-- `std::string::find_last_of`
unfoldable pub find_last_of : ℕ → List ℕ → Option ℕ
find_last_of char [] = none
find_last_of char (c ∷ text) = later_or (find_last_of char text) (c == char)

abbrev pub found : Option ℕ → Bool
found none = false
found (some i) = true

-- "COM" and "VID_DEAD&PID_1337".
abbrev pub com_text : List ℕ
com_text = b'C' ∷ b'O' ∷ b'M' ∷ []

abbrev pub token_id : List ℕ
token_id =
    b'V' ∷ b'I' ∷ b'D' ∷ b'_' ∷ b'D' ∷ b'E' ∷ b'A' ∷ b'D' ∷ b'&' ∷ b'P' ∷ b'I' ∷ b'D' ∷ b'_' ∷ b'1'
    ∷ b'3' ∷ b'3' ∷ b'7' ∷ []

-- A device as Windows describes it.
pub record Described : Type 0 where
  pub hardware_id : List ℕ
  pub friendly_name : List ℕ

-- `access_token_is_connected`: the index that it sets.
unfoldable pub access_token_is_connected : List Described → Option ℕ
unfolding find_text
access_token_is_connected [] = none
access_token_is_connected (d ∷ rest) =
    if found (find_text token_id d.hardware_id)
    then some 0
    else later (access_token_is_connected rest)

-- The value behind an `ASSERT` that it is there.
abbrev pub asserted {ℓ} : {A : Type ℓ} → Option A → Outcome A
asserted none = stop assertion
asserted (some a) = ok a

-- `query_com_port`, of the devices at the second enumeration; `end - begin` is a `size_t`.
unfoldable pub query_com_port : List Described → ℕ → Outcome (List ℕ)
unfolding find_text find_last_of
query_com_port devices token_index = do
  device ← asserted (get_elem? devices token_index)
  begin ← asserted (find_text com_text device.friendly_name)
  last ← asserted (find_last_of b')' device.friendly_name)
  ok (take ((last + 2 ^ 64 - begin) % 2 ^ 64) (drop begin device.friendly_name))

-- `com_port`
unfoldable pub com_port : List Described → Outcome (Option (List ℕ))
unfolding access_token_is_connected query_com_port
com_port devices = elim (access_token_is_connected devices) [
  | none ↦ ok none
  | some i ↦ query_com_port devices i >>= λ port. ok (some port)
]
