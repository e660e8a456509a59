-- ===== src/Scanner/Watch.antt =====
-- `CScanner`, and the turns of the scan of `CDeviceList` that take what it has found. WinRT's watcher
-- is not part of the repository: it calls the handler for each advertisement that it hears.
use ubiquitous_chainsaw.Base.{
  ℕ, ◌+◌, ◌-◌, Bool, true, false, ◌||◌, List, [], ◌∷◌, ◌++◌, length, take, drop, Option, ◌==◌, ltb,
  leb, if◌then◌else◌, Outcome, ok, assert, defined, ◌>>=◌, ◌>>◌,
}
use Prim.Native.Nat.{min}
use mathlib.Core.Option.{some}
use ubiquitous_chainsaw.Scanner.Info.{AddressType, real, random, none, DeviceInfo}
use ubiquitous_chainsaw.Server.State.{CServer, enqueue_devices}

-- The `BluetoothAddressType` of WinRT.
pub data WinAddressType : Type 0 where
  public_address random_address unspecified : WinAddressType

unfoldable pub address_type : WinAddressType → AddressType
address_type public_address = real
address_type random_address = random
address_type unspecified = none

pub record CScanner : Type 0 where
  pub found_devices : List DeviceInfo
  pub device_cache : List ℕ
  pub count : ℕ

unfoldable pub begin_scan : CScanner → CScanner
begin_scan self = record { found_devices = []; device_cache = []; count = 0 }

unfoldable pub contains : ℕ → List ℕ → Bool
contains address [] = false
contains address (a ∷ cache) = if address == a then true else contains address cache

unfoldable pub info_of : ℕ → AddressType → DeviceInfo
info_of address none = record { address = Option.none; address_type = none }
info_of address type = record { address = some address; address_type = type }

-- The handler of `received_event_handler`.
unfoldable pub received : ℕ → WinAddressType → CScanner → CScanner
received address type self = if contains address self.device_cache then self else record {
  found_devices = self.found_devices ++ (info_of address (address_type type) ∷ []);
  device_cache = address ∷ self.device_cache;
  count = self.count + 1;
}

-- The vector is made of the elements from `index` on; beyond the end that is undefined.
unfoldable pub retrieve_n_devices : ℕ → ℕ → CScanner → Outcome (List DeviceInfo)
retrieve_n_devices index n self = do
  assert (ltb index (length self.found_devices))
  let end = min n (length self.found_devices)
  defined (leb (index + end) (length self.found_devices))
  ok (take end (drop index self.found_devices))

-- What the scan works on: `devices` is `m_Devices`; `prev_found` and `found` are the variables of
-- its loop, of which the second is a copy of the count; `started` are the devices for which the
-- server has started a coroutine.
pub record Scan (C : Type 0) : Type 0 where
  pub scanner : CScanner
  pub server : CServer C
  pub devices : List DeviceInfo
  pub prev_found : ℕ
  pub found : ℕ
  pub started : List DeviceInfo

-- The scan that `recreate_list` starts.
unfoldable pub begin : {C : Type 0} → CScanner → CServer C → Scan C
begin scanner server = record {
  scanner = begin_scan scanner;
  server = server;
  devices = [];
  prev_found = 0;
  found = 0;
  started = [];
}

-- `m_ScanTimer` has run longer than the limit, or a token is authenticated.
unfoldable pub scan_ends : ℕ → ℕ → Bool → Bool
scan_ends limit lap authenticated = ltb limit lap || authenticated

unfoldable pub load_count : {C : Type 0} → Scan C → Scan C
load_count scan = record scan { found = scan.scanner.count }

-- The body of the test `prevFound < foundDevices`.
unfoldable pub take_devices : {C : Type 0} → Scan C → Outcome (Scan C)
take_devices scan = do
  infos ← retrieve_n_devices scan.prev_found (scan.found - scan.prev_found) scan.scanner
  (started, server) ← enqueue_devices infos scan.server
  ok (record {
    scanner = scan.scanner;
    server = server;
    devices = scan.devices ++ infos;
    prev_found = length (scan.devices ++ infos);
    found = scan.found;
    started = scan.started ++ started;
  })

unfoldable pub take_new_devices : {C : Type 0} → Scan C → Outcome (Scan C)
take_new_devices scan = if ltb scan.prev_found scan.found then take_devices scan else ok scan
