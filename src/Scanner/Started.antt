-- ===== src/Scanner/Started.antt =====
-- The scans that the loop of client/src/main.cpp starts by recreate_list.
use ubiquitous_chainsaw.Base.{
  ℕ, ◌-◌, ◌≡◌, ap, ◌∙◌, Bool, true, false, List, [], ◌∷◌, Bool-cases, inl, inr, none, Outcome, ok,
  stop, assertion, ◌>>=◌, arith,
}
use ubiquitous_chainsaw.Gatt.{Device}
use ubiquitous_chainsaw.KeyFiles.Files.{KeyFiles, keys_exists}
use ubiquitous_chainsaw.Server.State.{CServer, connected_with, is_authenticated}
use ubiquitous_chainsaw.RssiPlot.Plot.{RssiPlot}
use ubiquitous_chainsaw.Scanner.Frame.{Turn, search_again, turn}
use ubiquitous_chainsaw.Scanner.Watch.{scan_ends}
use ubiquitous_chainsaw.Scanner.StopWatch.{active, halt}
use ubiquitous_chainsaw.Scanner.Tasks.{
  spawned, CDeviceList, make_device_list, recreate_list, end_time_limited_scan, clear_devices, step,
  run_task,
}
use ubiquitous_chainsaw.Scanner.OneScan.{
  OneScan, has_begun, run_task-Newest, recreate_list-Newest, ended-Newest,
}

-- A list with its tasks, from its construction on: the loop of main recreates it, ends its scan or
-- clears it, and the tasks take their steps, in any order, but the executor begins a scan before the
-- list is recreated again.
pub data Run : CDeviceList → Type 0 where
  made : {l : CDeviceList} (now : ℕ) → make_device_list now ≡ ok l → Run l
  recreated : {l : CDeviceList} → Run l → has_begun l.tasks ≡ true → Run (recreate_list l)
  ended : {l l' : CDeviceList} → Run l → end_time_limited_scan l ≡ ok l' → Run l'
  cleared : {l : CDeviceList} → Run l → Run (clear_devices l)
  stepped :
      {l l' : CDeviceList} (limit now : ℕ) (authenticated : Bool) (i : ℕ)
      → Run l
      → run_task limit now authenticated i l ≡ ok l'
      → Run l'

made-OneScan : (now : ℕ) (l : CDeviceList) → make_device_list now ≡ ok l → OneScan l
unfolding make_device_list halt
made-OneScan now l h = ground arith

cleared-OneScan : (l : CDeviceList) → OneScan l → OneScan (clear_devices l)
unfolding clear_devices
cleared-OneScan l fits = elim (Bool-cases l.scanning) [
  | inl e ↦ rw (e, clear_devices) (rw (e) at fits)
  | inr e ↦ rw (e, clear_devices) (rw (e) at fits)
]

-- If the executor begins each scan before the list is recreated again, at most one scan is under way,
-- whatever the order of the steps: every task but the newest has ended. The watcher scans exactly
-- while the newest stands between its begin_scan and its end_scan, and the timer of the list does not
-- run before it has begun and behind its loop.
pub Run-OneScan : {l : CDeviceList} → Run l → OneScan l
Run-OneScan (made {l} now h) = made-OneScan now l h
Run-OneScan (recreated {l} r begun) =
    recreate_list-Newest l.devices l.scan_timer l.scanning l.tasks begun (Run-OneScan r)
Run-OneScan (ended {l} {l'} r h) =
    ended-Newest l.devices l.scan_timer l.scanning l.tasks l' (Run-OneScan r) h
Run-OneScan (cleared {l} r) = cleared-OneScan l (Run-OneScan r)
Run-OneScan (stepped {l} {l'} limit now authenticated i r h) =
    run_task-Newest limit now authenticated i l.devices l.scan_timer l.scanning l.tasks l'
      (Run-OneScan r) h

-- The tasks of a list take steps in a given order.
pub run_tasks : ℕ → ℕ → Bool → List ℕ → CDeviceList → Outcome CDeviceList
run_tasks limit now authenticated [] l = ok l
run_tasks limit now authenticated (i ∷ order) l =
    run_task limit now authenticated i l >>= run_tasks limit now authenticated order

-- Both tasks come to stand behind the test of their loops; the first then stops the timer, and the
-- second.
abbrev pub interleaved : List ℕ
interleaved = 1 ∷ 1 ∷ 1 ∷ 0 ∷ 0 ∷ 0 ∷ 1 ∷ 0 ∷ []

authenticated_ends : (limit elapsed : ℕ) → scan_ends limit elapsed true ≡ true
unfolding scan_ends
authenticated_ends limit elapsed = ground arith

recreated_twice :
    (l : CDeviceList)
    → active l.scan_timer ≡ false
    → l.scanning ≡ false
    → recreate_list (recreate_list l)
      ≡ record l { devices = []; tasks = spawned ∷ spawned ∷ l.tasks }
unfolding recreate_list
recreated_twice l idle quiet = ground arith

-- Two calls of recreate_list start two tasks, and these can stop the program.
second_scan_stops :
    (limit now : ℕ) (l : CDeviceList)
    → active l.scan_timer ≡ false
    → l.scanning ≡ false
    → ((recreate_list (recreate_list l)).tasks ≡ spawned ∷ spawned ∷ l.tasks)
      × (run_tasks limit now true interleaved (recreate_list (recreate_list l)) ≡ stop assertion)
unfolding run_tasks run_task step halt
second_scan_stops limit now l idle quiet = (
  rw (recreated_twice l idle quiet),
  rw (recreated_twice l idle quiet, authenticated_ends limit (now - now))
      (rw (authenticated_ends limit (now - now))),
)

module _ {C : Type 0} (device_connected : Device C → Bool) (new_plot : RssiPlot) (files : KeyFiles)
    (server : CServer C) (keys : keys_exists files ≡ true) (free : server.server ≡ none) where
  turn_searches :
      (list : CDeviceList) (plot : RssiPlot)
      → list.scanning ≡ false
      → turn device_connected new_plot files server list plot
        ≡ record { sleeps = false; list = recreate_list list; plot = new_plot }
  unfolding turn search_again connected_with is_authenticated
  turn_searches list plot quiet =
      rw (keys, turn, connected_with, is_authenticated, free, search_again, quiet)

recreate_list-scanning : (list : CDeviceList) → (recreate_list list).scanning ≡ list.scanning
unfolding recreate_list
recreate_list-scanning list = ground arith

-- Two turns of the loop of main with no step of the executor between them start two scans of the same
-- list, whenever there are keys, no server is held and the list is idle: the test of the second turn
-- sees nothing of the scan that the first has handed to the executor. There is an order of the steps
-- of both scans in which the second fails the assertion of the timer once a token is authenticated.
pub turns_start_two_scans :
    {C : Type 0} (device_connected : Device C → Bool) (new_plot : RssiPlot) (files : KeyFiles)
    (server : CServer C) (list : CDeviceList) (plot : RssiPlot) (limit now : ℕ)
    → keys_exists files ≡ true
    → server.server ≡ none
    → active list.scan_timer ≡ false
    → list.scanning ≡ false
    → (later : CDeviceList) × (Turn.list (
          turn device_connected new_plot files server
            (Turn.list (turn device_connected new_plot files server list plot))
            new_plot)
        ≡ later)
      × (later.tasks ≡ spawned ∷ spawned ∷ list.tasks)
      × (run_tasks limit now true interleaved later ≡ stop assertion)
turns_start_two_scans device_connected new_plot files server list plot limit now keys free idle
      quiet =
    let (two, stops) = second_scan_stops limit now list idle quiet in
    let searches = turn_searches device_connected new_plot files server keys free in
    (
      recreate_list (recreate_list list),
      rw (searches list plot quiet) (
          ap Turn.list
            (searches (recreate_list list) new_plot (recreate_list-scanning list ∙ quiet))),
      two,
      stops,
    )
