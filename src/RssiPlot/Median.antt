-- ===== src/RssiPlot/Median.antt =====
-- The median that decides on hibernation.
use ubiquitous_chainsaw.Base.{
  ℕ, zero, suc, ◌*◌, ◌/◌, ◌<◌, ◌≡◌, refl, sym, ap, ◌∙◌, Bool, true, false, ltb, if◌then◌else◌, ◌&&◌,
  Option, some, List, [], ◌∷◌, length, get_elem?, arith, Bool-cases, inl, inr,
}
use ubiquitous_chainsaw.Base.Int.{ℤ, ltb_ℤ, ◌≤ℤ◌}
use ubiquitous_chainsaw.RssiPlot.Plot.{
  RssiPlot, insert, sort, rssi_median, half_full, hibernation_threshold, below_threshold,
  hibernates,
}

-- How many of the values lie below `t`.
abbrev pub below : ℤ → List ℤ → ℕ
below t [] = 0
below t (x ∷ xs) = let n = below t xs in if ltb_ℤ x t then suc n else n

abbrev From : ℤ → List ℤ → Type 0
From x [] = Unit {0}
From x (y ∷ ys) = (x ≤ℤ y) × From x ys

abbrev Sorted : List ℤ → Type 0
Sorted [] = Unit {0}
Sorted (x ∷ xs) = From x xs × Sorted xs

below-insert : (t x : ℤ) (ys : List ℤ) → below t (insert x ys) ≡ below t (x ∷ ys)
unfolding insert
below-insert t x [] = refl
below-insert t x (y ∷ ys) = elim (Bool-cases (ltb_ℤ y x)) [
  | inl e ↦ rw (e, below-insert t x ys) (swapped (ltb_ℤ y t) (ltb_ℤ x t) (below t ys))
  | inr e ↦ rw (e)
]
  where
    swapped :
        (a b : Bool) (n : ℕ)
        → (if a then suc (if b then suc n else n) else if b then suc n else n)
          ≡ (if b then suc (if a then suc n else n) else if a then suc n else n)
    swapped true true n = refl
    swapped true false n = refl
    swapped false true n = refl
    swapped false false n = refl

below-sort : (t : ℤ) (xs : List ℤ) → below t (sort xs) ≡ below t xs
unfolding sort
below-sort t [] = refl
below-sort t (x ∷ xs) = below-insert t x (sort xs) ∙ (rw (below-sort t xs))

length-insert : (x : ℤ) (ys : List ℤ) → length (insert x ys) ≡ suc (length ys)
unfolding insert
length-insert x [] = refl
length-insert x (y ∷ ys) = elim (Bool-cases (ltb_ℤ y x)) [
  | inl e ↦ rw (e) (ap suc (length-insert x ys))
  | inr e ↦ rw (e)
]

length-sort : (xs : List ℤ) → length (sort xs) ≡ length xs
unfolding sort
length-sort [] = refl
length-sort (x ∷ xs) = length-insert x (sort xs) ∙ ap suc (length-sort xs)

From-insert : (a x : ℤ) (ys : List ℤ) → a ≤ℤ x → From a ys → From a (insert x ys)
unfolding insert
From-insert a x [] h from = (h, tt)
From-insert a x (y ∷ ys) h (first, from) = elim (Bool-cases (ltb_ℤ y x)) [
  | inl e ↦ rw (e) (first, From-insert a x ys h from)
  | inr e ↦ rw (e) (h, (first, from))
]

From-trans : (a b : ℤ) (ys : List ℤ) → a ≤ℤ b → From b ys → From a ys
From-trans a b [] h from = tt
From-trans a b (y ∷ ys) h (first, from) = (omega (arith, h, first), From-trans a b ys h from)

insert-Sorted : (x : ℤ) (ys : List ℤ) → Sorted ys → Sorted (insert x ys)
unfolding insert
insert-Sorted x [] sorted = (tt, tt)
insert-Sorted x (y ∷ ys) (from, sorted) = elim (Bool-cases (ltb_ℤ y x)) [
  | inl e ↦ rw (e) (From-insert y x ys (above e) from, insert-Sorted x ys sorted)
  | inr e ↦ rw (e) ((not_above e, From-trans x y ys (not_above e) from), (from, sorted))
]
  where
    above : ltb_ℤ y x ≡ true → y ≤ℤ x
    above e = ground arith

    not_above : ltb_ℤ y x ≡ false → x ≤ℤ y
    not_above e = ground arith

sort-Sorted : (xs : List ℤ) → Sorted (sort xs)
unfolding sort
sort-Sorted [] = tt
sort-Sorted (x ∷ xs) = insert-Sorted x (sort xs) (sort-Sorted xs)

none_below : (t x : ℤ) (xs : List ℤ) → ltb_ℤ x t ≡ false → From x xs → below t xs ≡ 0
none_below t x [] h from = refl
none_below t x (y ∷ ys) h (first, from) = rw (still, none_below t x ys h from)
  where
    still : ltb_ℤ y t ≡ false
    still = ground arith

some_injective : {x y : ℤ} → ◌≡◌ {A = Option ℤ} (some x) (some y) → x ≡ y
some_injective e = cc

-- In a sorted list, the element at `k` lies below `t` exactly when more than `k` elements do.
get_elem?-Sorted :
    (t m : ℤ) (xs : List ℤ) (k : ℕ)
    → Sorted xs
    → get_elem? xs k ≡ some m
    → ltb_ℤ m t ≡ ltb k (below t xs)
get_elem?-Sorted t m [] k sorted found = cc
get_elem?-Sorted t m (x ∷ xs) zero (from, sorted) found =
    rw (sym (some_injective found)) (elim (Bool-cases (ltb_ℤ x t)) [
      | inl e ↦ rw (e) (ground arith)
      | inr e ↦ rw (e, none_below t x xs e from)
    ])
get_elem?-Sorted t m (x ∷ xs) (suc k) (from, sorted) found =
    let side = get_elem?-Sorted t m xs k sorted found in
    elim (Bool-cases (ltb_ℤ x t)) [
      | inl e ↦ rw (e) (ground (arith, side))
      | inr e ↦
          rw (e, none_below t x xs e from) (side ∙ rw (none_below t x xs e from) (ground arith))
    ]

get_elem?-lt : (xs : List ℤ) (k : ℕ) → k < length xs → (m : ℤ) × (get_elem? xs k ≡ some m)
get_elem?-lt [] k h = absurd (omega arith)
get_elem?-lt (x ∷ xs) zero h = (x, refl)
get_elem?-lt (x ∷ xs) (suc k) h = get_elem?-lt xs k (omega arith)

-- A plot with values has a median, and the median lies below a threshold exactly when more than half
-- of the values do, half of their number being rounded down.
pub rssi_median-below :
    (plot : RssiPlot)
    → 0 < length plot.values
    → (m : ℤ) × (rssi_median plot ≡ some m)
      × ((t : ℤ) → ltb_ℤ m t ≡ ltb (length plot.values / 2) (below t plot.values))
unfolding rssi_median
rssi_median-below plot h =
    let (m, found) =
      get_elem?-lt (sort plot.values) (length plot.values / 2)
        (omega (arith, length-sort plot.values)) in
    (
      m,
      found,
      λ t.
          get_elem?-Sorted t m (sort plot.values) (length plot.values / 2) (sort-Sorted plot.values)
            found
          ∙ ap (ltb (length plot.values / 2)) (below-sort t plot.values),
    )

-- The machine is sent to sleep exactly when there are keys, the token is connected, more than half of
-- the values lie below -77 and the plot is more than half full.
pub hibernates_iff :
    (keys_exist connected : Bool) (plot : RssiPlot)
    → 0 < length plot.values
    → hibernates keys_exist connected plot ≡ (
        keys_exist
        && (connected
            && (ltb (length plot.values / 2) (below hibernation_threshold plot.values)
                && ltb plot.max_size (2 * length plot.values))))
unfolding hibernates below_threshold half_full
hibernates_iff keys_exist connected plot h =
    let (m, found, side) = rssi_median-below plot h in rw (found, side hibernation_threshold)
