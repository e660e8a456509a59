-- ===== src/Scanner/Tests.antt =====
-- A scan that hears three devices, one of them twice.
use ubiquitous_chainsaw.Base.{
  ℕ, true, false, assertion, ◌≤◌, ◌≡◌, refl, [], ◌∷◌, take, Option, ok, stop, undefined,
}
use mathlib.Core.Option.{some}
use ubiquitous_chainsaw.Scanner.Info.{real, random, DeviceInfo}
use ubiquitous_chainsaw.Scanner.Watch.{
  public_address, random_address, CScanner, address_type, info_of, contains, received,
  retrieve_n_devices, Scan, begin, begin_scan, load_count, take_new_devices,
}
use ubiquitous_chainsaw.Scanner.Distinct.{Distinct}
use ubiquitous_chainsaw.Scanner.Bounds.{begun, heard, counted, turn_takes_found}
use ubiquitous_chainsaw.Scanner.Bounds
use ubiquitous_chainsaw.Server.State.{CServer}
use ubiquitous_chainsaw.KeyFiles.Files.{KeyFiles, keys_exists}
use ubiquitous_chainsaw.RssiPlot.Plot.{RssiPlot}
use ubiquitous_chainsaw.Scanner.StopWatch.{running, halted, halt}
use ubiquitous_chainsaw.Scanner.Tasks.{
  spawned, looping, CDeviceList, make_device_list, recreate_list, step, run_task,
}
use ubiquitous_chainsaw.Scanner.OneScan.{OneScan}
use ubiquitous_chainsaw.Scanner.Frame.{Turn, turn}
use ubiquitous_chainsaw.Scanner.Started.{
  Run, made, recreated, stepped, run_tasks, interleaved, Run-OneScan, turns_start_two_scans,
}

abbrev server : CServer ℕ
server = record { server = Option.none; server_key = Option.none; devices = [] }

abbrev scanner : CScanner
scanner = record { found_devices = []; device_cache = 7 ∷ []; count = 1 }

abbrev first : DeviceInfo
first = record { address = some 5; address_type = real }

abbrev second : DeviceInfo
second = record { address = some 6; address_type = random }

abbrev heard_twice : CScanner
heard_twice = record { found_devices = first ∷ second ∷ []; device_cache = 6 ∷ 5 ∷ []; count = 2 }

abbrev scan : Scan ℕ
scan = record {
  scanner = heard_twice;
  server = server;
  devices = [];
  prev_found = 0;
  found = 2;
  started = [];
}

runs : Bounds.Run scanner server scan
unfolding begin begin_scan received contains info_of address_type load_count
runs = counted (heard 5 public_address (heard 6 random_address (heard 5 public_address begun)))

turn_takes_found_example :
    (scan' : Scan ℕ) × (take_new_devices scan ≡ ok scan')
    × (2 ≤ scan'.prev_found)
    × (scan'.devices ≡ take scan'.prev_found (first ∷ second ∷ []))
    × (scan'.started ≡ scan'.devices)
    × Distinct (first ∷ second ∷ [])
turn_takes_found_example = turn_takes_found scanner server scan refl runs

-- Asked for devices beyond the last one, the scanner reads out of bounds.
beyond : retrieve_n_devices 1 2 heard_twice ≡ stop undefined
unfolding retrieve_n_devices
beyond = refl

abbrev idle_list : CDeviceList
idle_list = record {
  devices = [];
  scan_timer = record { timepoint = 0; state = halted };
  scanning = false;
  tasks = [];
}

-- A scan that the executor has begun, after the list was recreated once.
abbrev scanning_list : CDeviceList
scanning_list = record {
  devices = [];
  scan_timer = record { timepoint = 4; state = running };
  scanning = true;
  tasks = looping ∷ [];
}

scans : Run scanning_list
unfolding make_device_list halt recreate_list run_task step
scans = stepped 10 5 false 0 (stepped 10 4 false 0 (recreated (made 0 refl) refl) refl) refl

Run-OneScan_example : OneScan scanning_list
Run-OneScan_example = Run-OneScan scans

abbrev whole : KeyFiles
whole = record {
  located = true;
  file = λ name. some (7 ∷ []);
  writable = λ name. true;
  restrictable = λ name. true;
  restricted = λ name. false;
  elevated = false;
}

are_there : keys_exists whole ≡ true
unfolding keys_exists
are_there = refl

abbrev plot : RssiPlot
plot = record { max_size = 4; values = [] }

turns_start_two_scans_example :
    (later : CDeviceList) × (Turn.list (
        turn
          (λ d. false)
          plot
          whole
          server
          (Turn.list (turn (λ d. false) plot whole server idle_list plot))
          plot)
      ≡ later)
    × (later.tasks ≡ spawned ∷ spawned ∷ [])
    × (run_tasks 10 5 true interleaved later ≡ stop assertion)
turns_start_two_scans_example =
    turns_start_two_scans (λ d. false) plot whole server idle_list plot 10 5 are_there refl refl
      refl
