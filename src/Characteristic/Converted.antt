-- ===== src/Characteristic/Converted.antt =====
-- The conversion of WinRT's properties.
use ubiquitous_chainsaw.Base.{
  ℕ, zero, suc, ◌%◌, ◌<◌, ◌≡◌, refl, ap, ◌∙◌, Bool, true, ◌&&◌, List, [], ◌∷◌, ◌==◌, ==_iff, arith,
}
use ubiquitous_chainsaw.Characteristic.Properties.{
  Property, none, includes, collect, tested, to_props_from_winrt,
}

-- Bits below the tenth are those of the remainder.
includes-mod : (m : ℕ) (p : Property) → includes m p ≡ includes (m % 1024) p
unfolding includes
includes-mod m none = refl
includes-mod m p = ap (λ (b : ℕ). b == 1) (omega arith)

collect-mod : (ps : List Property) (m props : ℕ) → collect ps m props ≡ collect ps (m % 1024) props
unfolding collect
collect-mod [] m props = refl
collect-mod (p ∷ ps) m props = rw (includes-mod m p) (collect-mod ps m _)

all_below : ℕ → (ℕ → Bool) → Bool
all_below zero test = true
all_below (suc n) test = test n && all_below n test

all_below_sound :
    (n : ℕ) (test : ℕ → Bool) (x : ℕ) → all_below n test ≡ true → x < n → test x ≡ true
unfolding all_below
all_below_sound zero test x h lt = absurd (omega arith)
all_below_sound (suc n) test x h lt = ground (arith, all_below_sound n test x)

each_mask : all_below 1024 (λ m. to_props_from_winrt m == m) ≡ true
unfolding all_below to_props_from_winrt includes
each_mask = refl

-- The conversion keeps the ten properties that the enumeration has, and drops all else of the mask.
pub to_props_from_winrt-mod : (m : ℕ) → to_props_from_winrt m ≡ m % 1024
unfolding to_props_from_winrt
to_props_from_winrt-mod m =
    collect-mod tested m 0
    ∙ (==_iff (to_props_from_winrt (m % 1024)) (m % 1024)).0
        (all_below_sound 1024 (λ m. to_props_from_winrt m == m) (m % 1024) each_mask (omega arith))
