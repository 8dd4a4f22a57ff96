-- ===== src/Timing/Examples.antt =====
-- Tests of core/timing.py on concrete samples, and the theorems at those inputs.
use health_mon.Common.{ℕ, ◌*◌, ◌≡◌, refl, List, [], ◌∷◌}
use health_mon.Timing.{Window, new_window, round_div, summary}
use health_mon.Timing.Newest.{fill, window_of_history}

-- The ranks of eleven samples: 0.5 * 10 is 5, 0.95 * 10 is a tie that goes to 10.
ranks :
    (round_div (500 * 10) 1000 ≡ 5) × (round_div (950 * 10) 1000 ≡ 10) × (round_div 8500 1000 ≡ 8)
unfolding round_div
ranks = (refl, refl, refl)

abbrev samples : List ℕ
samples = 30 ∷ 10 ∷ 20 ∷ 40 ∷ []

window_of_history_example :
    ((fill (new_window 3) samples).samples ≡ 10 ∷ 20 ∷ 40 ∷ [])
    × ((fill (new_window 3) samples).count ≡ 4)
    × ((fill (new_window 3) samples).total ≡ 100)
window_of_history_example = window_of_history 3 samples

abbrev window : Window
window = record { maxlen = 3; samples = 30 ∷ 10 ∷ 20 ∷ []; count = 4; total = 100 }

mean_of_all : (summary window).mean ≡ 25
unfolding summary round_div
mean_of_all = refl
