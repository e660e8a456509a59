-- ===== src/RssiPlot/Plot.antt =====
-- `CRSSIPlot`. Its `float`s hold values of `int8_t`, which they do exactly.
use ubiquitous_chainsaw.Base.{
  ℕ, ◌*◌, ◌/◌, ◌==◌, ◌&&◌, Bool, false, ltb, if◌then◌else◌, Option, none, some, List, [], ◌∷◌, ◌++◌,
  length, get_elem?,
}
use ubiquitous_chainsaw.Base.Int.{ℤ, pos, negsuc, ltb_ℤ}

pub record RssiPlot : Type 0 where
  pub max_size : ℕ
  pub values : List ℤ

-- The constructor: one value, zero.
abbrev pub make_plot : ℕ → RssiPlot
make_plot size = record { max_size = size; values = pos 0 ∷ [] }

abbrev pub is_zero : ℤ → Bool
is_zero (pos n) = n == 0
is_zero (negsuc n) = false

-- `add_rssi_value`; `front` of an empty vector is undefined, and the vector is never empty.
unfoldable pub add : ℕ → ℤ → List ℤ → List ℤ
add max_size value [] = []
add max_size value (front ∷ rest) =
    if is_zero front
    then value ∷ rest
    else if ltb (length (front ∷ rest)) max_size
    then (front ∷ rest) ++ (value ∷ [])
    else rest ++ (value ∷ [])

unfoldable pub add_rssi_value : ℤ → RssiPlot → RssiPlot
add_rssi_value value self = record self { values = add self.max_size value self.values }

-- The loop of `plot` over the values that the demander has received.
unfoldable pub add_rssi_values : List ℤ → RssiPlot → RssiPlot
add_rssi_values [] self = self
add_rssi_values (value ∷ rest) self = add_rssi_values rest (add_rssi_value value self)

-- `std::sort`
unfoldable pub insert : ℤ → List ℤ → List ℤ
insert x [] = x ∷ []
insert x (y ∷ ys) = let rest = insert x ys in if ltb_ℤ y x then y ∷ rest else x ∷ y ∷ ys

unfoldable pub sort : List ℤ → List ℤ
sort [] = []
sort (x ∷ xs) = insert x (sort xs)

-- `std::nth_element` leaves a sorted range as it is.
unfoldable pub rssi_median : RssiPlot → Option ℤ
rssi_median self = get_elem? (sort self.values) (length self.values / 2)

-- Whether `median_buffer_ratio`, a quotient of two sizes, is above 0.5.
unfoldable pub half_full : RssiPlot → Bool
half_full self = ltb self.max_size (2 * length self.values)

-- `HIBERNATION_THRESHOLD`, -77.
abbrev pub hibernation_threshold : ℤ
hibernation_threshold = negsuc 76

unfoldable pub below_threshold : Option ℤ → Bool
below_threshold none = false
below_threshold (some median) = ltb_ℤ median hibernation_threshold

-- Whether one turn of the loop in `main` sends the machine to sleep.
unfoldable pub hibernates : Bool → Bool → RssiPlot → Bool
hibernates keys_exist connected plot =
    keys_exist && (connected && (below_threshold (rssi_median plot) && half_full plot))
