-- ===== src/Timing.antt =====
-- core/timing.py: rolling windows of durations, and the collection of windows by key. Durations
-- are whole microseconds, so rounding to three decimals of a millisecond is the identity. The
-- ranks 0.50, 0.95 and 0.99 are counted in thousandths. The lock of `Timings` is not modelled:
-- each operation runs as one step.
pub mod Newest
pub mod Sorted
pub mod Percentiles
pub mod Keys
mod Examples
use health_mon.Common.{
  ℕ, zero, suc, ◌+◌, ◌-◌, ◌*◌, ◌/◌, ◌%◌, min, max, String, Option, none, some, List, [], ◌∷◌, ◌++◌,
  length, leb, ltb, ◌==◌, if◌then◌else◌, is_empty, get_or, drop, ◌>>=◌,
}
use health_mon.Common.Dict.{Dict, lookup, insert, keys}

-- `round(a / b)`, which sends a tie to the even neighbour.
unfoldable pub round_div : ℕ → ℕ → ℕ
round_div a b =
    let q = a / b in
    let twice = a % b * 2 in
    if ltb twice b then q else if ltb b twice then q + 1 else if q % 2 == 0 then q else q + 1

-- _percentile
unfoldable pub percentile : List ℕ → ℕ → ℕ
percentile [] q = 0
percentile (x ∷ []) q = x
percentile (x ∷ y ∷ rest) q =
    let ordered = x ∷ y ∷ rest in
    let last = length ordered - 1 in get_or ordered (max 0 (min (round_div (q * last) 1000) last)) 0

pub record Window : Type 0 where
  pub maxlen : ℕ
  pub samples : List ℕ
  pub count : ℕ
  pub total : ℕ

unfoldable pub new_window : ℕ → Window
new_window maxlen = record { maxlen = maxlen; samples = []; count = 0; total = 0 }

-- `append` of a `deque` with a `maxlen`: the oldest sample falls out of a full one.
unfoldable pub push : ℕ → List ℕ → ℕ → List ℕ
push maxlen samples ms =
    let longer = samples ++ ms ∷ [] in if ltb maxlen (length longer) then drop 1 longer else longer

-- Window.add
unfoldable pub add_sample : Window → ℕ → Window
unfolding push
add_sample w ms = record w {
  samples = push w.maxlen w.samples ms;
  count = w.count + 1;
  total = w.total + ms;
}

insert_sorted : ℕ → List ℕ → List ℕ
insert_sorted x [] = x ∷ []
insert_sorted x (y ∷ ys) = let rest = insert_sorted x ys in if leb x y then x ∷ y ∷ ys else y ∷ rest

-- Python's `sorted` on numbers.
unfoldable pub sorted : List ℕ → List ℕ
unfolding insert_sorted
sorted [] = []
sorted (x ∷ xs) = insert_sorted x (sorted xs)

-- Python's `max` of a list, 0 for none.
unfoldable pub greatest : List ℕ → ℕ
greatest [] = 0
greatest (x ∷ xs) = max x (greatest xs)

pub record Summary : Type 0 where
  pub count : ℕ
  pub p50 : ℕ
  pub p95 : ℕ
  pub p99 : ℕ
  pub greatest : ℕ
  pub mean : ℕ

-- Window.summary
unfoldable pub summary : Window → Summary
summary w =
    let ordered = sorted w.samples in
    record {
      count = w.count;
      p50 = percentile ordered 500;
      p95 = percentile ordered 950;
      p99 = percentile ordered 990;
      greatest = greatest ordered;
      mean = if w.count == 0 then 0 else round_div w.total w.count;
    }

-- Window.last
unfoldable pub last_sample : List ℕ → Option ℕ
last_sample [] = none
last_sample (x ∷ []) = some x
last_sample (x ∷ y ∷ rest) = last_sample (y ∷ rest)

pub record Timings : Type 0 where
  pub maxlen : ℕ
  pub windows : Dict Window

unfoldable pub new_timings : ℕ → Timings
new_timings maxlen = record { maxlen = maxlen; windows = [] }

window_or_new : ℕ → Option Window → Window
window_or_new maxlen none = new_window maxlen
window_or_new maxlen (some w) = w

-- Timings.observe
unfoldable pub observe : Timings → String → ℕ → Timings
unfolding window_or_new add_sample new_window
observe t key ms = record t {
  windows = insert key (add_sample (window_or_new t.maxlen (lookup key t.windows)) ms) t.windows;
}

-- Timings.summary and Timings.last
unfoldable pub summary_of : Timings → String → Option Summary
summary_of t key = do w ← lookup key t.windows; some (summary w)

unfoldable pub last_of : Timings → String → Option ℕ
unfolding last_sample
last_of t key = do w ← lookup key t.windows; last_sample w.samples
