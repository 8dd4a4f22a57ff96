-- ===== src/Timing/Percentiles.antt =====
-- The order of what `summary` reports.
use mathlib.Core.List.{Perm}
use native.Mathlib.Nat.{mul-le-mul_right}
use health_mon.Common.{ℕ, ◌-◌, ◌*◌, ◌≤◌, max, min, List, [], ◌∷◌, length, arith}
use health_mon.Timing.{round_div, percentile, sorted, greatest, Window, summary}
use health_mon.Timing.Sorted.{
  IsAscending, sorted-IsAscending, sorted-perm, get_or_mono, get_or-le-greatest,
}

-- Rounding thousandths to the nearest whole number, ties to even, is monotone.
round_div_mono : (a b : ℕ) → a ≤ b → round_div a 1000 ≤ round_div b 1000
unfolding round_div
round_div_mono a b h = ground arith

percentile_mono :
    (xs : List ℕ) (p q : ℕ) → IsAscending xs → p ≤ q → percentile xs p ≤ percentile xs q
percentile_mono [] p q h le = unfold percentile in omega arith
percentile_mono (x ∷ []) p q h le = unfold percentile in omega arith
percentile_mono (x ∷ y ∷ rest) p q h le =
    let last = length (x ∷ y ∷ rest) - 1 in
    let ranks = round_div_mono (p * last) (q * last) (mul-le-mul_right last le) in
    unfold percentile in
    get_or_mono (x ∷ y ∷ rest) (max 0 (min (round_div (p * last) 1000) last))
      (max 0 (min (round_div (q * last) 1000) last)) h (omega arith) (omega arith)

percentile-le-greatest : (xs : List ℕ) (q : ℕ) → percentile xs q ≤ greatest xs
unfolding percentile greatest
percentile-le-greatest [] q = omega arith
percentile-le-greatest (x ∷ []) q = omega arith
percentile-le-greatest (x ∷ y ∷ rest) q = get_or-le-greatest (x ∷ y ∷ rest) _

-- The percentiles that a window reports are in order and at most its greatest sample, and the list
-- that they are read from is an ascending permutation of the samples that the window holds.
summary_ordered :
    (w : Window)
    → ((summary w).p50 ≤ (summary w).p95)
      × ((summary w).p95 ≤ (summary w).p99)
      × ((summary w).p99 ≤ (summary w).greatest)
      × IsAscending (sorted w.samples)
      × Perm (sorted w.samples) w.samples
unfolding summary
summary_ordered w =
    let ascending = sorted-IsAscending w.samples in
    (
      percentile_mono (sorted w.samples) 500 950 ascending (omega arith),
      percentile_mono (sorted w.samples) 950 990 ascending (omega arith),
      percentile-le-greatest (sorted w.samples) 990,
      ascending,
      sorted-perm w.samples,
    )
