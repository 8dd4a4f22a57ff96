-- ===== src/Machine/Schedule.antt =====
-- When a check runs next (core/machine.py, `_schedule` and `next_interval`).
use native.Mathlib.Nat.{
  mul-add, mul-le-mul, mul-le-mul_left, le-div_iff_mul-le, div-mul-le_self, pow-suc, pow-zero,
  one-le-pow, le_refl, le_trans,
}
use health_mon.Common.{ℕ, zero, suc, ◌+◌, ◌-◌, ◌*◌, ◌/◌, ◌^◌, ◌≤◌, ◌≡◌, sym, ap, ◌∙◌, arith}
use health_mon.Machine.Check.{CheckSpec, one, backoff_base, jittered}

split_spread : (base spread : ℕ) → spread ≤ one → base * (one - spread) + base * spread ≡ base * one
split_spread base spread h =
    sym (mul-add base (one - spread) spread) ∙ ap (λ (t : ℕ). base * t) (omega arith)

-- With a spread and a draw of at most 1, the jittered due time lies within the spread of the base
-- interval on both sides, up to the rounding of one microsecond.
pub jittered_bounds :
    (now base spread draw : ℕ)
    → spread ≤ one
    → draw ≤ one
    → (jittered now base spread draw * one ≤ now * one + base * (one + spread))
      × (now * one + base * (one - spread) ≤ jittered now base spread draw * one + one)
unfolding jittered
jittered_bounds now base spread draw s d =
    let low : base * spread * draw ≤ base * spread * one = mul-le-mul_left (base * spread) d in
    omega (arith, split_spread base spread s, low)

-- With a spread of at most the whole interval the next run is at most two intervals away.
pub jittered-le :
    (now base spread draw : ℕ)
    → spread ≤ one
    → draw ≤ one
    → jittered now base spread draw ≤ now + 2 * base
jittered-le now base spread draw s d =
    omega (arith, jittered_bounds now base spread draw s d, mul-le-mul_left base s)

abbrev ladder : ℕ → ℕ → ℕ → ℕ
ladder a m k = a * m ^ k / one ^ k

-- One more step does not lower the exponential part.
ladder_step : (a m k : ℕ) → one ≤ m → ladder a m k ≤ ladder a m (suc k)
ladder_step a m k h =
    rw (pow-suc m k, pow-suc one k)
      ((le-div_iff_mul-le (omega (arith, one-le-pow k one (omega arith)))).1
        (omega (arith, mul-le-mul (div-mul-le_self (a * m ^ k) (one ^ k)) h)))

ladder_mono : (a m i d j : ℕ) → one ≤ m → d + i ≡ j → ladder a m i ≤ ladder a m j
ladder_mono a m i zero j h e = let e' : i ≡ j = omega arith in rw e' (le_refl _)
ladder_mono a m i (suc d) zero h e = absurd (omega arith)
ladder_mono a m i (suc d) (suc j) h e =
    le_trans (ladder_mono a m i d j h (omega arith)) (ladder_step a m j h)

-- With a multiplier of at least 1 the interval between runs never shrinks as the backoff climbs.
pub backoff_base_mono :
    (spec : CheckSpec) (i j : ℕ)
    → one ≤ spec.backoff_multiplier
    → i ≤ j
    → backoff_base spec i ≤ backoff_base spec j
unfolding backoff_base
backoff_base_mono spec i j h le =
    let up : ladder spec.backoff_initial spec.backoff_multiplier (i - 1)
        ≤ ladder spec.backoff_initial spec.backoff_multiplier (j - 1) =
      ladder_mono _ _ (i - 1) (j - 1 - (i - 1)) (j - 1) h (omega arith) in
    omega arith

pub backoff_base-le : (spec : CheckSpec) (i : ℕ) → backoff_base spec i ≤ spec.backoff_max
unfolding backoff_base
backoff_base-le spec i = omega arith

-- The first step of the backoff waits for backoff_initial.
pub backoff_base-one :
    (spec : CheckSpec)
    → spec.backoff_initial ≤ spec.backoff_max
    → backoff_base spec 1 ≡ spec.backoff_initial
unfolding backoff_base
backoff_base-one spec h =
    let plain : spec.backoff_initial * spec.backoff_multiplier ^ (1 - 1) / one ^ (1 - 1)
        ≡ spec.backoff_initial * 1 / 1 =
      ap (λ (t : ℕ). spec.backoff_initial * t / 1) (pow-zero spec.backoff_multiplier) in
    omega (arith, plain)
