-- ===== src/RssiPlot/Window.antt =====
-- Which values the plot shows.
use ubiquitous_chainsaw.Base.{
  ℕ, zero, suc, ◌+◌, ◌-◌, ◌≤◌, ◌<◌, ◌≡◌, refl, sym, ap, ◌∙◌, true, false, ltb, List, [], ◌∷◌, ◌++◌,
  length, drop, length-append, length-drop, append_assoc, append-nil, arith, Bool-cases, inl, inr,
}
use ubiquitous_chainsaw.Base.Int.{ℤ}
use ubiquitous_chainsaw.RssiPlot.Plot.{
  RssiPlot, make_plot, is_zero, add, add_rssi_value, add_rssi_values,
}

-- A value of a radio that hears the token: not zero.
abbrev pub AllHeard : List ℤ → Type 0
AllHeard [] = Unit {0}
AllHeard (x ∷ xs) = (is_zero x ≡ false) × AllHeard xs

-- The last `k` elements.
abbrev pub last : ℕ → List ℤ → List ℤ
last k xs = drop (length xs - k) xs

drop-AllHeard : (n : ℕ) (xs : List ℤ) → AllHeard xs → AllHeard (drop n xs)
drop-AllHeard zero xs heard = heard
drop-AllHeard (suc n) [] heard = tt
drop-AllHeard (suc n) (x ∷ xs) (h, heard) = drop-AllHeard n xs heard

append-AllHeard : (xs ys : List ℤ) → AllHeard xs → AllHeard ys → AllHeard (xs ++ ys)
append-AllHeard [] ys hx hy = hy
append-AllHeard (x ∷ xs) ys (h, hx) hy = (h, append-AllHeard xs ys hx hy)

drop-within : (n : ℕ) (xs ys : List ℤ) → n ≤ length xs → drop n (xs ++ ys) ≡ drop n xs ++ ys
drop-within zero xs ys h = refl
drop-within (suc n) [] ys h = absurd (omega arith)
drop-within (suc n) (x ∷ xs) ys h = drop-within n xs ys (omega arith)

drop-nil : (n : ℕ) → drop {A = ℤ} n [] ≡ []
drop-nil zero = refl
drop-nil (suc n) = refl

drop-drop : (n k : ℕ) (xs : List ℤ) → drop n (drop k xs) ≡ drop (k + n) xs
drop-drop n zero xs = ap (λ j. drop j xs) same
  where
    same : n ≡ 0 + n
    same = omega arith
drop-drop n (suc k) [] = drop-nil n ∙ sym (drop-nil (suc k + n))
drop-drop n (suc k) (x ∷ xs) = drop-drop n k xs ∙ ap (λ j. drop j (x ∷ xs)) one_more
  where
    one_more : suc (k + n) ≡ suc k + n
    one_more = omega arith

last-append :
    (max : ℕ) (seen : List ℤ) (v : ℤ)
    → 0 < max
    → last max (last max seen ++ (v ∷ [])) ≡ last max (seen ++ (v ∷ []))
last-append max seen v h =
    rw
      (
        sym (drop-within (length seen - max) seen (v ∷ []) (omega arith)),
        drop-drop (length (drop (length seen - max) (seen ++ (v ∷ []))) - max) (length seen - max)
            (seen ++ (v ∷ [])),
        length-drop (length seen - max) (seen ++ (v ∷ [])),
        length-append seen (v ∷ []),
      )
      (ap (λ j. drop j (seen ++ (v ∷ []))) (omega arith))

add-last :
    (max : ℕ) (v : ℤ) (values : List ℤ)
    → AllHeard values
    → 0 < length values
    → length values ≤ max
    → add max v values ≡ last max (values ++ (v ∷ []))
unfolding add
add-last max v [] heard some_values small = absurd (omega arith)
add-last max v (f ∷ rest) (h, heard) some_values small =
    rw (h) (elim (Bool-cases (ltb (length (f ∷ rest)) max)) [
      | inl e ↦ rw (e) (ap (λ j. drop j (f ∷ (rest ++ (v ∷ [])))) (none_left e))
      | inr e ↦ rw (e) (ap (λ j. drop j (f ∷ (rest ++ (v ∷ [])))) (one_left e))
    ])
  where
    none_left : ltb (length (f ∷ rest)) max ≡ true → 0 ≡ length (f ∷ (rest ++ (v ∷ []))) - max
    none_left e = ground (arith, length-append rest (v ∷ []))

    one_left : ltb (length (f ∷ rest)) max ≡ false → 1 ≡ length (f ∷ (rest ++ (v ∷ []))) - max
    one_left e = ground (arith, length-append rest (v ∷ []))

abbrev showing : ℕ → List ℤ → RssiPlot
showing max values = record { max_size = max; values = values }

shows_last :
    (max : ℕ) (seen vs : List ℤ)
    → 0 < max
    → AllHeard seen
    → 0 < length seen
    → AllHeard vs
    → add_rssi_values vs (showing max (last max seen)) ≡ showing max (last max (seen ++ vs))
unfolding add_rssi_values add_rssi_value
shows_last max seen [] h heard some_seen tail = rw (append-nil seen)
shows_last max seen (v ∷ vs) h heard some_seen (first, tail) =
    rw
      (
        add-last max v (last max seen) (drop-AllHeard (length seen - max) seen heard)
            (omega (arith, length-drop (length seen - max) seen))
            (omega (arith, length-drop (length seen - max) seen)),
        last-append max seen v h,
      )
      (shows_last max (seen ++ (v ∷ [])) vs h (append-AllHeard seen (v ∷ []) heard (first, tt))
          (omega (arith, length-append seen (v ∷ []))) tail
        ∙ ap (λ xs. showing max (last max xs)) (append_assoc seen (v ∷ []) vs))

-- After at least one value, none of them being zero, a plot with room for one or more shows the last values that came in, in
-- their order and at most as many as it has room for; its first zero is gone.
pub shows_last_values :
    (max : ℕ) (v : ℤ) (vs : List ℤ)
    → 0 < max
    → is_zero v ≡ false
    → AllHeard vs
    → (add_rssi_values (v ∷ vs) (make_plot max)).values ≡ last max (v ∷ vs)
unfolding add_rssi_values add_rssi_value add
shows_last_values max v vs h first heard =
    ap (λ xs. (add_rssi_values vs (showing max xs)).values) (ap (λ j. drop j (v ∷ [])) none_left)
    ∙ ap (λ plot. plot.values) (shows_last max (v ∷ []) vs h (first, tt) (omega arith) heard)
  where
    none_left : 0 ≡ 1 - max
    none_left = omega arith
