-- ===== src/RssiPlot/Tests.antt =====
-- The plot at concrete values.
use ubiquitous_chainsaw.Base.{◌≡◌, refl, true, ◌&&◌, ltb, [], ◌∷◌, some, arith}
use ubiquitous_chainsaw.Base.Int.{pos, negsuc}
use ubiquitous_chainsaw.RssiPlot.Plot.{
  RssiPlot, make_plot, add, add_rssi_value, add_rssi_values, sort, insert, rssi_median,
  hibernation_threshold, hibernates,
}
use ubiquitous_chainsaw.RssiPlot.Median.{below, hibernates_iff}
use ubiquitous_chainsaw.RssiPlot.Window.{shows_last_values}

-- -80, -50, -90
abbrev plot : RssiPlot
plot = record { max_size = 4; values = negsuc 79 ∷ negsuc 49 ∷ negsuc 89 ∷ [] }

median : rssi_median plot ≡ some (negsuc 79)
unfolding rssi_median sort insert
median = refl

hibernates_iff_example :
    hibernates true true plot
    ≡ (true && (true && (ltb 1 (below hibernation_threshold plot.values) && ltb 4 6)))
hibernates_iff_example = hibernates_iff true true plot (omega arith)

shows_last_values_example :
    (add_rssi_values (negsuc 9 ∷ negsuc 19 ∷ negsuc 29 ∷ []) (make_plot 2)).values
    ≡ negsuc 19 ∷ negsuc 29 ∷ []
shows_last_values_example =
    shows_last_values 2 (negsuc 9) (negsuc 19 ∷ negsuc 29 ∷ []) (omega arith) refl
      (refl, (refl, tt))

-- A zero that has come to the front is replaced by the newest value.
replaces_zero :
    (add_rssi_values (negsuc 9 ∷ pos 0 ∷ negsuc 19 ∷ negsuc 29 ∷ []) (make_plot 2)).values
    ≡ negsuc 29 ∷ negsuc 19 ∷ []
unfolding add_rssi_values add_rssi_value add
replaces_zero = refl
