-- ===== src/Scanner/Bounds.antt =====
-- The scan takes each device once, and reads nothing out of bounds.
use ubiquitous_chainsaw.Base.{
  ℕ, zero, suc, ◌+◌, ◌-◌, ◌≤◌, ◌<◌, ◌≡◌, refl, sym, ap, ◌∙◌, false, List, [], ◌∷◌, ◌++◌, length,
  length-append, length-take, take, drop, ltb, lt→ltb, le→leb, ltb→lt, Bool-cases, inl, inr, ok,
  ok_injective, arith, suc_add,
}
use Prim.Native.Nat.{min}
use mathlib.Core.Path.{subst}
use ubiquitous_chainsaw.Scanner.Watch.{
  WinAddressType, CScanner, begin_scan, contains, info_of, address_type, received,
  retrieve_n_devices, Scan, begin, load_count, take_devices, take_new_devices,
}
use ubiquitous_chainsaw.Scanner.Distinct.{Distinct, Cached, received-Cached}
use ubiquitous_chainsaw.Server.State.{CServer}
use ubiquitous_chainsaw.Server.Processed.{enqueue_devices-all}

take-prefix {ℓ} :
    {A : Type ℓ} (n : ℕ) (xs ys : List A) → n ≤ length xs → take n (xs ++ ys) ≡ take n xs
take-prefix zero xs ys h = refl
take-prefix (suc n) [] ys h = absurd (omega (arith, h))
take-prefix (suc n) (x ∷ xs) ys h = ap (λ t. x ∷ t) (take-prefix n xs ys (omega (arith, h)))

take-add {ℓ} :
    {A : Type ℓ} (m n : ℕ) (xs : List A) → take m xs ++ take n (drop m xs) ≡ take (m + n) xs
take-add zero n xs = ap (λ k. take k xs) (omega arith)
take-add (suc m) zero [] = sym (ap (λ k. take k []) (suc_add m zero))
take-add (suc m) (suc n) [] = sym (ap (λ k. take k []) (suc_add m (suc n)))
take-add (suc m) n (x ∷ xs) =
    ap (λ t. x ∷ t) (take-add m n xs) ∙ ap (λ k. take k (x ∷ xs)) (sym (suc_add m n))

module _ {C : Type 0} (scanner : CScanner) (server : CServer C) where
  -- A scan, while devices are heard and no other scan of the scanner is under way.
  pub data Run : Scan C → Type 0 where
    begun : Run (begin scanner server)
    heard :
        {scan : Scan C} (address : ℕ) (type : WinAddressType)
        → Run scan
        → Run (record scan { scanner = received address type scan.scanner })
    counted : {scan : Scan C} → Run scan → Run (load_count scan)
    taken : {scan scan' : Scan C} → Run scan → take_new_devices scan ≡ ok scan' → Run scan'

abbrev Sound : {C : Type 0} → Scan C → Type 0
Sound scan =
    (scan.scanner.count ≡ length scan.scanner.found_devices)
    × (scan.found ≤ length scan.scanner.found_devices)
    × (scan.prev_found ≤ length scan.scanner.found_devices)
    × (scan.devices ≡ take scan.prev_found scan.scanner.found_devices)
    × (scan.started ≡ scan.devices)
    × (scan.server.devices ≡ [])

received-Sound :
    {C : Type 0} (address : ℕ) (type : WinAddressType) (scan : Scan C)
    → Sound scan
    → Sound (record scan { scanner = received address type scan.scanner })
unfolding received
received-Sound address type scan (count, found, prev, devices, started, idle) =
    elim (Bool-cases (contains address scan.scanner.device_cache)) [
      | inl e ↦ rw (e) (count, found, prev, devices, started, idle)
      | inr e ↦ rw (e) (
        omega (arith, count, longer),
        omega (arith, found, longer),
        omega (arith, prev, longer),
        devices ∙ sym (take-prefix scan.prev_found scan.scanner.found_devices _ prev),
        started,
        idle,
      )
    ]
  where
    longer :
        length (scan.scanner.found_devices ++ (info_of address (address_type type) ∷ []))
        ≡ length scan.scanner.found_devices + 1
    longer = length-append scan.scanner.found_devices _

-- What is retrieved, where the bounds hold.
retrieves :
    (self : CScanner) (index n : ℕ)
    → 0 < n
    → index + n ≤ length self.found_devices
    → retrieve_n_devices index n self ≡ ok (take n (drop index self.found_devices))
unfolding retrieve_n_devices
retrieves self index n some bounds = rw (
  lt→ltb index (length self.found_devices) (omega (arith, some, bounds)),
  least,
  le→leb (index + n) (length self.found_devices) bounds,
)
  where
    least : min n (length self.found_devices) ≡ n
    least = omega (arith, bounds)

-- The devices up to `found` are taken.
abbrev caught_up : {C : Type 0} → Scan C → Scan C
caught_up scan = record {
  scanner = scan.scanner;
  server = record scan.server { devices = [] };
  devices = take scan.found scan.scanner.found_devices;
  prev_found = scan.found;
  found = scan.found;
  started = take scan.found scan.scanner.found_devices;
}

takes :
    {C : Type 0} (scan : Scan C)
    → Sound scan
    → scan.prev_found < scan.found
    → take_devices scan ≡ ok (caught_up scan)
unfolding take_devices
takes scan (count, found, prev, devices, started, idle) new = rw (
  retrieves scan.scanner scan.prev_found (scan.found - scan.prev_found) (omega (arith, new))
      (omega (arith, new, found)),
  enqueue_devices-all
      (take (scan.found - scan.prev_found) (drop scan.prev_found scan.scanner.found_devices))
      scan.server,
  idle,
  started,
  devices,
  joined,
  size,
)
  where
    joined :
        take scan.prev_found scan.scanner.found_devices
          ++ take (scan.found - scan.prev_found) (drop scan.prev_found scan.scanner.found_devices)
        ≡ take scan.found scan.scanner.found_devices
    joined =
        take-add scan.prev_found (scan.found - scan.prev_found) scan.scanner.found_devices
        ∙ ap (λ k. take k scan.scanner.found_devices) (omega (arith, new))

    size : length (take scan.found scan.scanner.found_devices) ≡ scan.found
    size = length-take scan.found scan.scanner.found_devices ∙ (omega (arith, found))

caught_up-Sound : {C : Type 0} (scan : Scan C) → Sound scan → Sound (caught_up scan)
caught_up-Sound scan (count, found, prev, devices, started, idle) =
    (count, found, found, refl, refl, refl)

-- A turn: the devices that it leaves taken.
turn :
    {C : Type 0} (scan : Scan C)
    → Sound scan
    → (scan' : Scan C) × (take_new_devices scan ≡ ok scan')
      × Sound scan'
      × (scan.found ≤ scan'.prev_found)
      × (scan'.scanner ≡ scan.scanner)
unfolding take_new_devices
turn scan sound = elim (Bool-cases (ltb scan.prev_found scan.found)) [
  | inl e ↦ (
    caught_up scan,
    rw (e) (takes scan sound (ltb→lt scan.prev_found scan.found e)),
    caught_up-Sound scan sound,
    omega arith,
    refl,
  )
  | inr e ↦ (scan, rw (e), sound, late e, refl)
]
  where
    late : ltb scan.prev_found scan.found ≡ false → scan.found ≤ scan.prev_found
    late e = ground arith

module _ {C : Type 0} (scanner : CScanner) (server : CServer C) where
  Run-Sound : (scan : Scan C) → server.devices ≡ [] → Run scanner server scan → Sound scan
  unfolding begin begin_scan load_count
  Run-Sound _ idle begun = (refl, omega arith, omega arith, refl, refl, idle)
  Run-Sound _ idle (heard {scan} address type run) =
      received-Sound address type scan (Run-Sound scan idle run)
  Run-Sound _ idle (counted {scan} run) =
      let (count, found, prev, devices, started, empty) = Run-Sound scan idle run in
      (count, omega (arith, count), prev, devices, started, empty)
  Run-Sound _ idle (taken {scan} {scan'} run e) =
      let (last, e', sound, all, same) = turn scan (Run-Sound scan idle run) in
      subst Sound (ok_injective (sym e' ∙ e)) sound

  Run-Cached : (scan : Scan C) → server.devices ≡ [] → Run scanner server scan → Cached scan.scanner
  unfolding begin begin_scan load_count
  Run-Cached _ idle begun = (λ a h. cc, tt)
  Run-Cached _ idle (heard {scan} address type run) =
      received-Cached address type scan.scanner (Run-Cached scan idle run)
  Run-Cached _ idle (counted {scan} run) = Run-Cached scan idle run
  Run-Cached _ idle (taken {scan} {scan'} run e) =
      let (last, e', sound, all, same) = turn scan (Run-Sound scan idle run) in
      subst (λ s. Cached s.scanner) (ok_injective (sym e' ∙ e))
        (subst Cached (sym same) (Run-Cached scan idle run))

  -- While no other scan of the scanner begins or ends, every turn of a scan returns, with no read out of
  -- bounds, however many devices are heard on the way. It leaves taken at least the devices of the count that it has loaded; and a coroutine has
  -- then been started for exactly the taken devices, which are the first of those found, once for each
  -- and in their order. No two of the devices found have one address. The server's queue is empty when
  -- the scan starts.
  pub turn_takes_found :
      (scan : Scan C)
      → server.devices ≡ []
      → Run scanner server scan
      → (scan' : Scan C) × (take_new_devices scan ≡ ok scan')
        × (scan.found ≤ scan'.prev_found)
        × (scan'.devices ≡ take scan'.prev_found scan.scanner.found_devices)
        × (scan'.started ≡ scan'.devices)
        × Distinct scan.scanner.found_devices
  turn_takes_found scan idle run =
      let (scan', e, (count, found, prev, devices, started, empty), all, same) =
        turn scan (Run-Sound scan idle run) in
      (
        scan',
        e,
        all,
        devices ∙ ap (λ s. take scan'.prev_found s.found_devices) same,
        started,
        (Run-Cached scan idle run).1,
      )
