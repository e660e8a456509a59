-- ===== src/Scanner/OneScan.antt =====
-- How many scans run at once.
use ubiquitous_chainsaw.Base.{
  ℕ, zero, suc, ◌≡◌, refl, Bool, true, false, List, [], ◌∷◌, inl, inr, get_elem?, set, some, ok,
  >>=-returned, ok_injective, Option-cases, arith,
}
use ubiquitous_chainsaw.Scanner.Info.{DeviceInfo}
use ubiquitous_chainsaw.Scanner.StopWatch.{StopWatch, active, halt}
use ubiquitous_chainsaw.Scanner.Tasks.{
  Stage, spawned, timed, looping, testing, left, finished, CDeviceList, recreate_list,
  end_time_limited_scan, step, run_task,
}

abbrev pub AllFinished : List Stage → Type 0
AllFinished [] = Unit
AllFinished (s ∷ rest) = (s ≡ finished) × AllFinished rest

-- Whether the timer runs and the watcher scans while the newest task stands at a stage.
abbrev pub Fits : Stage → Bool → Bool → Type 0
Fits spawned timer scanning = (timer ≡ false) × (scanning ≡ false)
Fits timed timer scanning = (timer ≡ true) × (scanning ≡ false)
Fits looping timer scanning = scanning ≡ true
Fits testing timer scanning = scanning ≡ true
Fits left timer scanning = (timer ≡ false) × (scanning ≡ true)
Fits finished timer scanning = (timer ≡ false) × (scanning ≡ false)

abbrev pub Newest : List Stage → Bool → Bool → Type 0
Newest [] timer scanning = Fits finished timer scanning
Newest (s ∷ rest) timer scanning = Fits s timer scanning × AllFinished rest

-- All tasks but the newest have ended.
abbrev pub OneScan : CDeviceList → Type 0
OneScan l = Newest l.tasks (active l.scan_timer) l.scanning

-- Whether the executor has begun the newest task.
abbrev pub has_begun : List Stage → Bool
has_begun (spawned ∷ rest) = false
has_begun _ = true

AllFinished-set : (rest : List Stage) (i : ℕ) → AllFinished rest → AllFinished (set rest i finished)
AllFinished-set [] i h = tt
AllFinished-set (s ∷ rest) zero h = (refl, h.1)
AllFinished-set (s ∷ rest) (suc i) h = (h.0, AllFinished-set rest i h.1)

finished_at :
    (rest : List Stage) (i : ℕ) (s : Stage)
    → AllFinished rest
    → get_elem? rest i ≡ some s
    → s ≡ finished
finished_at [] i s h e = absurd cc
finished_at (t ∷ rest) zero s h e = cc
finished_at (t ∷ rest) (suc i) s h e = finished_at rest i s h.1 e

step-Fits :
    (limit now : ℕ) (authenticated : Bool) (s s' : Stage) (l l' : CDeviceList)
    → Fits s (active l.scan_timer) l.scanning
    → step limit now authenticated s l ≡ ok (s', l')
    → Fits s' (active l'.scan_timer) l'.scanning
unfolding step halt
step-Fits limit now authenticated spawned s' l l' fits h = ground arith
step-Fits limit now authenticated timed s' l l' fits h = ground arith
step-Fits limit now authenticated looping s' l l' fits h = ground arith
step-Fits limit now authenticated testing s' l l' fits h = ground arith
step-Fits limit now authenticated left s' l l' fits h = ground arith
step-Fits limit now authenticated finished s' l l' fits h = ground arith

-- The task that takes a step is the newest, or has ended.
pub run_task-Newest :
    (limit now : ℕ) (authenticated : Bool) (i : ℕ) (ds : List DeviceInfo) (timer : StopWatch)
    (scanning : Bool) (tasks : List Stage) (l' : CDeviceList)
    → Newest tasks (active timer) scanning
    → run_task limit now authenticated i
        (record { devices = ds; scan_timer = timer; scanning = scanning; tasks = tasks })
      ≡ ok l'
    → OneScan l'
unfolding run_task
run_task-Newest limit now authenticated i ds timer scanning [] l' fits h =
    rw (← ok_injective h) fits
run_task-Newest limit now authenticated zero ds timer scanning (s ∷ rest) l' fits h =
    let self : CDeviceList = record {
      devices = ds;
      scan_timer = timer;
      scanning = scanning;
      tasks = s ∷ rest;
    } in
    let ((s', after), stepped, ends) = >>=-returned (step limit now authenticated s self) _ h in
    let kept = step-Fits limit now authenticated s s' self after fits.0 stepped in
    rw (← ok_injective ends) (kept, fits.1)
run_task-Newest limit now authenticated (suc i) ds timer scanning (s ∷ rest) l' fits h =
    elim (Option-cases (get_elem? rest i)) [
      | inl e ↦ rw (← ok_injective (rw (e, run_task) at h)) fits
      | inr (t, e) ↦
          let ended = finished_at rest i t fits.1 e in
          rw (← ok_injective (rw (e, run_task, ended, step) at h))
            (fits.0, AllFinished-set rest i fits.1)
    ]

pub recreate_list-Newest :
    (ds : List DeviceInfo) (timer : StopWatch) (scanning : Bool) (tasks : List Stage)
    → has_begun tasks ≡ true
    → Newest tasks (active timer) scanning
    → OneScan (
        recreate_list
          (record { devices = ds; scan_timer = timer; scanning = scanning; tasks = tasks }))
unfolding recreate_list
recreate_list-Newest ds timer scanning [] begun fits = ground arith
recreate_list-Newest ds timer scanning (spawned ∷ rest) begun fits = absurd cc
recreate_list-Newest ds timer scanning (finished ∷ rest) begun fits = ground arith
recreate_list-Newest ds timer scanning (timed ∷ rest) begun fits = ground arith
recreate_list-Newest ds timer scanning (looping ∷ rest) begun fits = ground arith
recreate_list-Newest ds timer scanning (testing ∷ rest) begun fits = ground arith
recreate_list-Newest ds timer scanning (left ∷ rest) begun fits = ground arith

pub ended-Newest :
    (ds : List DeviceInfo) (timer : StopWatch) (scanning : Bool) (tasks : List Stage)
    (l' : CDeviceList)
    → Newest tasks (active timer) scanning
    → end_time_limited_scan
        (record { devices = ds; scan_timer = timer; scanning = scanning; tasks = tasks })
      ≡ ok l'
    → OneScan l'
unfolding end_time_limited_scan halt
ended-Newest ds timer scanning [] l' fits h = ground arith
ended-Newest ds timer scanning (spawned ∷ rest) l' fits h = ground arith
ended-Newest ds timer scanning (timed ∷ rest) l' fits h = ground arith
ended-Newest ds timer scanning (looping ∷ rest) l' fits h = ground arith
ended-Newest ds timer scanning (testing ∷ rest) l' fits h = ground arith
ended-Newest ds timer scanning (left ∷ rest) l' fits h = ground arith
ended-Newest ds timer scanning (finished ∷ rest) l' fits h = ground arith
