-- ===== src/Scanner/Tasks.antt =====
-- How client/src/gui/CDeviceList.cpp starts and ends its scans. A scan is a task of the executor, which
-- runs beside the loop of main; the two share the timer and the scanner's watcher. What a turn of the
-- scan takes from the scanner is in Scanner/Watch.
use ubiquitous_chainsaw.Base.{
  ℕ, Bool, true, false, ◌||◌, List, [], ◌∷◌, if◌then◌else◌, get_elem?, set, none, some, Outcome, ok,
  ◌>>=◌,
}
use ubiquitous_chainsaw.Scanner.Info.{DeviceInfo}
use ubiquitous_chainsaw.Scanner.StopWatch.{StopWatch, active, make_stop_watch, halt, lap}
use ubiquitous_chainsaw.Scanner.Watch.{scan_ends}

-- Where a task stands: handed to the executor; behind the reset of the timer; at the head of its loop;
-- behind the test of that; behind the loop; at its end.
pub data Stage : Type 0 where
  spawned timed looping testing left finished : Stage

-- `scanning` is the status of the watcher. The newest task stands first.
pub record CDeviceList : Type 0 where
  pub devices : List DeviceInfo
  pub scan_timer : StopWatch
  pub scanning : Bool
  pub tasks : List Stage

-- `CDeviceList::CDeviceList(ble::CScanner&, CServer&)`
unfoldable pub make_device_list : ℕ → Outcome CDeviceList
unfolding halt
make_device_list now = halt (make_stop_watch now) >>= λ timer.
    ok (record { devices = []; scan_timer = timer; scanning = false; tasks = [] })

unfoldable pub recreate_list : CDeviceList → CDeviceList
recreate_list self =
    if active self.scan_timer || self.scanning
    then self
    else record self { devices = []; tasks = spawned ∷ self.tasks }

-- `end_time_limited_scan` up to its loop, which waits until the watcher is not scanning.
unfoldable pub end_time_limited_scan : CDeviceList → Outcome CDeviceList
end_time_limited_scan self =
    if self.scanning
    then (if active self.scan_timer
        then halt self.scan_timer >>= (λ timer. ok (record self { scan_timer = timer }))
        else ok self)
    else ok self

-- The rest of `clear_list`, once that loop has ended.
unfoldable pub clear_devices : CDeviceList → CDeviceList
clear_devices self = if self.scanning then self else record self { devices = [] }

-- A step of the task of `time_limited_scan`: what it tests and changes between two calls of the others.
unfoldable pub step : ℕ → ℕ → Bool → Stage → CDeviceList → Outcome (Stage × CDeviceList)
step limit now authenticated spawned self =
    ok (timed, record self { scan_timer = make_stop_watch now })
step limit now authenticated timed self = ok (looping, record self { scanning = true })
step limit now authenticated looping self =
    ok ((if active self.scan_timer then testing else left), self)
step limit now authenticated testing self =
    if scan_ends limit (lap now self.scan_timer) authenticated
    then halt self.scan_timer >>= (λ timer. ok (left, record self { scan_timer = timer }))
    else ok (looping, self)
step limit now authenticated left self = ok (finished, record self { scanning = false })
step limit now authenticated finished self = ok (finished, self)

-- The task with a given number takes a step.
unfoldable pub run_task : ℕ → ℕ → Bool → ℕ → CDeviceList → Outcome CDeviceList
unfolding step
run_task limit now authenticated i self = elim (get_elem? self.tasks i) [
  | none ↦ ok self
  | some stage ↦ step limit now authenticated stage self >>= λ r.
      ok (record r.1 { tasks = set self.tasks i r.0 })
]
