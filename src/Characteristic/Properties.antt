-- ===== src/Characteristic/Properties.antt =====
-- The properties of a characteristic as a mask, and their names: client/src/bluetoothLE/ble_common.hpp
-- and client/src/bluetoothLE/windows/CCharacteristic.cpp.
use Prim.Native.Nat.{bit_or}
use Prim.Native.String.{String}
use ubiquitous_chainsaw.Base.{
  ℕ, ◌/◌, ◌%◌, Bool, true, false, List, [], ◌∷◌, ◌==◌, if◌then◌else◌, Outcome, ok, stop, undefined,
  defined, ◌>>=◌, ◌>>◌,
}

-- The enumerators of `CharacteristicProperties`; a value of the type is any mask, a number.
pub data Property : Type 0 where
  none broadcast read write_without_response write notify indicate : Property
  authenticated_signed_writes extended_properties reliable_writes writable_auxiliaries : Property

abbrev pub to_underlying : Property → ℕ
to_underlying none = 0
to_underlying broadcast = 0x1
to_underlying read = 0x2
to_underlying write_without_response = 0x4
to_underlying write = 0x8
to_underlying notify = 0x10
to_underlying indicate = 0x20
to_underlying authenticated_signed_writes = 0x40
to_underlying extended_properties = 0x80
to_underlying reliable_writes = 0x100
to_underlying writable_auxiliaries = 0x200

-- `operator~`
unfoldable pub complement : ℕ → ℕ
complement prop = prop

-- Whether `properties & property` is not zero: an enumerator is one bit, or none.
unfoldable pub includes : ℕ → Property → Bool
includes properties none = false
includes properties property = properties / to_underlying property % 2 == 1

abbrev pub name : Property → String
name none = "None"
name broadcast = "Broadcast"
name read = "Read"
name write_without_response = "Write Without Response"
name write = "Write"
name notify = "Notify"
name indicate = "Indicate"
name authenticated_signed_writes = "Authenticated Signed Writes"
name extended_properties = "Extended Properties"
name reliable_writes = "Reliable Writes"
name writable_auxiliaries = "Writable Auxiliaries"

-- The cases of a switch over the mask; a mask without a case runs into `std::unreachable`.
unfoldable pub switch : List Property → ℕ → Outcome String
switch [] properties = stop undefined
switch (case ∷ cases) properties =
    if properties == to_underlying case then ok (name case) else switch cases properties

unfoldable pub characteristic_properties_to_str : ℕ → Outcome String
characteristic_properties_to_str properties =
    switch
      (none ∷ broadcast ∷ read ∷ write_without_response ∷ write ∷ notify ∷ indicate
        ∷ authenticated_signed_writes ∷ extended_properties ∷ reliable_writes ∷ writable_auxiliaries
        ∷ [])
      properties

-- One name for each of the tests that succeeds, always that of the whole mask.
unfoldable pub emplace_each : List Property → ℕ → Outcome (List String)
emplace_each [] properties = ok []
emplace_each (p ∷ ps) properties =
    let rest = emplace_each ps properties in
    if includes properties p
    then characteristic_properties_to_str properties >>= (λ s. rest >>= (λ l. ok (s ∷ l)))
    else rest

-- The tests of `properties_to_str`, in their order.
abbrev pub tested : List Property
tested =
    authenticated_signed_writes ∷ broadcast ∷ extended_properties ∷ indicate ∷ none ∷ notify ∷ read
    ∷ reliable_writes ∷ writable_auxiliaries ∷ write ∷ write_without_response ∷ []

unfoldable pub properties_to_str : ℕ → Outcome (List String)
properties_to_str properties = emplace_each tested properties

-- The tests of `to_props_from_winrt`, which are made in the same order; WinRT's enumeration has the
-- same values.
unfoldable pub collect : List Property → ℕ → ℕ → ℕ
collect [] properties props = props
collect (p ∷ ps) properties props =
    collect ps properties (if includes properties p then bit_or props (to_underlying p) else props)

unfoldable pub to_props_from_winrt : ℕ → ℕ
unfolding collect
to_props_from_winrt properties = collect tested properties 0

abbrev is_empty : List String → Bool
is_empty [] = true
is_empty (s ∷ l) = false

-- The line that `make` logs in a debug build: the names joined, and two characters taken away again,
-- which leaves the behaviour undefined where there is none.
unfoldable pub property_line : ℕ → Outcome (List String)
property_line properties = do
  names ← properties_to_str properties
  defined (if is_empty names then false else true)
  ok names
