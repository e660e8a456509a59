-- ===== src/Gap/Advertise.antt =====
-- The construction of `CGap` and its advertising: server/main/ble/CGap.cpp.
use ubiquitous_chainsaw.Base.{
  ℕ, ◌%◌, ◌^◌, Bool, true, false, not, List, [], ◌∷◌, length, Option, none, some, leb,
  if◌then◌else◌, Outcome, ok, stop, fatal, assertion, assert, ◌>>=◌, ◌>>◌,
}
use ubiquitous_chainsaw.Nimble.{
  NimbleErrorCode, nimble_error_to_string, success, in_progress_or_completed, unexpected_failure,
  is_busy, to_small_buffer,
}
use ubiquitous_chainsaw.Gap.Host.{Host, AddressType, AdvFields, random_mac}
use ubiquitous_chainsaw.Gap.Connection.{CConnection, moved, move_assign}

-- The state of `CGap`, less the constants `m_Params` and the callback itself.
pub record CGap : Type 0 where
  pub ble_address_type : AddressType
  pub active_connection : CConnection

-- A fatal error whose message has the name of the code.
unfoldable pub fatal_with {ℓ} : {A : Type ℓ} → NimbleErrorCode → Outcome A
fatal_with code = nimble_error_to_string code >>= (λ name. stop fatal)

-- A warning whose message has the name of the code.
unfoldable pub warn_with {ℓ} : {A : Type ℓ} → NimbleErrorCode → A → Outcome A
warn_with code a = nimble_error_to_string code >>= (λ name. ok a)

unfoldable pub make_advertise_fields : {S : Type 0} → Host S → List ℕ → Outcome AdvFields
make_advertise_fields host device_name = do
  assert (leb (length device_name) 255)
  ok (record {
    flags = host.flag_disc_gen_no_bredr;
    name = device_name;
    name_len = length device_name % 2 ^ 8;
    name_is_complete = 1;
    tx_pwr_lvl = host.tx_pwr_lvl_auto;
    tx_pwr_lvl_is_present = 1;
  })

-- What `set_adv_fields` makes of the code of `ble_gap_adv_set_fields`.
unfoldable pub adv_fields_code : NimbleErrorCode → Outcome (Option NimbleErrorCode)
adv_fields_code success = ok none
adv_fields_code is_busy = ok (some is_busy)
adv_fields_code to_small_buffer = ok (some to_small_buffer)
adv_fields_code code = warn_with code (some unexpected_failure)

unfoldable pub set_adv_fields :
    {S : Type 0} → Host S → List ℕ → S → Outcome (Option NimbleErrorCode × S)
set_adv_fields host device_name s = do
  fields ← make_advertise_fields host device_name
  error ← adv_fields_code (host.adv_set_fields fields s).0
  ok (error, (host.adv_set_fields fields s).1)

unfoldable pub check_address : NimbleErrorCode → Outcome (Unit {0})
check_address success = ok tt
check_address code = fatal_with code

unfoldable pub print_ble_address : {S : Type 0} → Host S → S → Outcome (Unit {0})
print_ble_address host s = check_address (host.copy_addr random_mac s)

unfoldable pub is_random : AddressType → Bool
is_random random_mac = true
is_random _ = false

unfoldable pub generate_random_device_address :
    {S : Type 0} → Host S → S → Outcome (AddressType × S)
generate_random_device_address host s = do
  check_address (host.ensure_addr s).0
  let s' = (host.ensure_addr s).1
  check_address (host.infer_auto s').0
  assert (is_random (host.infer_auto s').1)
  print_ble_address host s'
  ok ((host.infer_auto s').1, s')

unfoldable pub start_code : NimbleErrorCode → Option NimbleErrorCode
start_code success = none
start_code _ = some unexpected_failure

unfoldable pub begin_advertise : {S : Type 0} → Host S → CGap → S → Option NimbleErrorCode × S
begin_advertise host self s = (
  start_code (host.adv_start self.ble_address_type s).0,
  (host.adv_start self.ble_address_type s).1,
)

unfoldable pub stop_code : NimbleErrorCode → Option NimbleErrorCode
stop_code success = none
stop_code in_progress_or_completed = some in_progress_or_completed
stop_code _ = some unexpected_failure

unfoldable pub end_advertise : {S : Type 0} → Host S → S → Option NimbleErrorCode × S
end_advertise host s = (stop_code (host.adv_stop s).0, (host.adv_stop s).1)

-- The handling of the error of `set_adv_fields` in the constructor.
unfoldable pub check_adv_fields : Option NimbleErrorCode → Outcome (Unit {0})
check_adv_fields none = ok tt
check_adv_fields (some is_busy) = ok tt
check_adv_fields (some to_small_buffer) = ok tt
check_adv_fields (some unexpected_failure) = stop fatal
check_adv_fields (some _) = stop assertion

unfoldable pub check_name : NimbleErrorCode → Outcome (Unit {0})
check_name success = ok tt
check_name code = warn_with code tt

unfoldable pub check_started : Option NimbleErrorCode → Outcome (Unit {0})
check_started none = ok tt
check_started (some code) = stop fatal

-- The bytes of "Chainsaw-server".
abbrev pub device_name : List ℕ
device_name =
    67 ∷ 104 ∷ 97 ∷ 105 ∷ 110 ∷ 115 ∷ 97 ∷ 119 ∷ 45 ∷ 115 ∷ 101 ∷ 114 ∷ 118 ∷ 101 ∷ 114 ∷ []

-- The last lines of the constructor: advertising is started, or the token does not start.
unfoldable pub start_advertising : {S : Type 0} → Host S → CGap → S → Outcome (CGap × S)
start_advertising host self s = do
  assert (not (host.adv_active s))
  check_started (begin_advertise host self s).0
  ok (self, (begin_advertise host self s).1)

-- The constructor of `CGap` up to the start of the advertising: the address, the name, the fields.
unfoldable pub set_up : {S : Type 0} → Host S → S → Outcome (AddressType × S)
set_up host s = do
  (address_type, s') ← generate_random_device_address host s
  check_name (host.name_set device_name s').0
  (error, s'') ← set_adv_fields host device_name (host.name_set device_name s').1
  check_adv_fields error
  ok (address_type, s'')

-- The constructor.
unfoldable pub make_gap : {S : Type 0} → Host S → S → Outcome (CGap × S)
make_gap host s = do
  (address_type, s') ← set_up host s
  start_advertising host (record { ble_address_type = address_type; active_connection = none }) s'

-- The destructor of `CGap`, where an error is only logged.
unfoldable pub destroy_gap : {S : Type 0} → Host S → S → S
destroy_gap host s = if host.adv_active s then (end_advertise host s).1 else s

-- The move constructor of `CGap`, and the move assignment of two objects: what `self` is, and what is
-- left of `other`.
unfoldable pub gap_moved : CGap → CGap × CGap
gap_moved other =
    let (connection, rest) = moved other.active_connection in
    (record other { active_connection = connection }, record other { active_connection = rest })

unfoldable pub gap_move_assign : CGap → CGap → CGap × CGap
gap_move_assign self other =
    let (connection, rest) = move_assign self.active_connection other.active_connection in
    (record other { active_connection = connection }, record other { active_connection = rest })
