-- ===== src/Machine/Hysteresis.antt =====
-- When `StateMachine.apply` lets the effective status of a check change, over any history of the
-- writes to the check.
use health_mon.Common.{
  ℕ, suc, ◌+◌, ◌≤◌, ◌<◌, min, ◌≡◌, ◌≢◌, refl, ◌↔◌, ◌⊎◌, Bool, true, false, List, [], ◌∷◌, arith,
  leb, if◌then◌else◌,
}
use health_mon.Model.{Status, CheckResult}
use health_mon.Machine.Check.{
  CheckSpec, CheckState, new_state, apply_check, mark_check_unknown, enable_check, backoff_limit,
}

-- One call of `apply`: the result, the clock reading and the draw.
pub record Sample : Type 0 where
  pub result : CheckResult
  pub now : ℕ
  pub draw : ℕ

-- A write to the state of a check: `apply`, `mark_unknown` or `set_enabled`.
pub data Write : Type 0 where
  taken : Sample → Write
  marked : ℕ → ℕ → Write
  switched : Bool → ℕ → Write

unfoldable pub write : CheckSpec → Write → CheckState → CheckState
write spec (taken x) st = apply_check spec st x.result x.now x.draw
write spec (marked now draw) st = mark_check_unknown spec st now draw
write spec (switched enabled now) st = enable_check enabled st now

-- The state of a check after a history of writes, the newest first. `enabled` is the one setting
-- that a write changes, and no write reads it.
abbrev pub after : CheckSpec → List Write → CheckState
after spec [] = new_state
after spec (w ∷ older) = write spec w (after spec older)

-- How many failures were seen since the last result that was OK or degraded, and since the check was
-- last switched on.
abbrev pub count_failure : Status → ℕ → ℕ
count_failure Status.failing n = suc n
count_failure Status.ok n = 0
count_failure Status.degraded n = 0
count_failure _ n = n

abbrev pub failures : List Write → ℕ
failures [] = 0
failures (taken x ∷ older) = count_failure x.result.status (failures older)
failures (marked _ _ ∷ older) = failures older
failures (switched true _ ∷ older) = 0
failures (switched false _ ∷ older) = failures older

-- How many successes stand at the end of the history with no other result and no `mark_unknown`
-- between them.
abbrev pub count_success : Status → ℕ → ℕ
count_success Status.ok n = suc n
count_success _ n = 0

abbrev pub successes : List Write → ℕ
successes [] = 0
successes (taken x ∷ older) = count_success x.result.status (successes older)
successes (marked _ _ ∷ older) = 0
successes (switched _ _ ∷ older) = successes older

apply_check_counts :
    (spec : CheckSpec) (st : CheckState) (r : CheckResult) (now draw : ℕ)
    → ((apply_check spec st r now draw).consecutive_fail
        ≡ count_failure r.status st.consecutive_fail)
      × ((apply_check spec st r now draw).consecutive_ok ≡ count_success r.status st.consecutive_ok)
unfolding apply_check
apply_check_counts spec st r now draw = ground arith

mark_check_counts :
    (spec : CheckSpec) (st : CheckState) (now draw : ℕ)
    → let st' = mark_check_unknown spec st now draw in
      (st'.consecutive_fail ≡ st.consecutive_fail)
      × (st'.consecutive_ok ≡ 0)
      × (st'.backoff_step ≡ st.backoff_step)
unfolding mark_check_unknown
mark_check_counts spec st now draw = (ground arith, ground arith, ground arith)

counters_of_history :
    (spec : CheckSpec) (history : List Write)
    → ((after spec history).consecutive_fail ≡ failures history)
      × ((after spec history).consecutive_ok ≡ successes history)
unfolding write enable_check
counters_of_history spec [] = (refl, refl)
counters_of_history spec (taken x ∷ older) =
    let (fails, oks) = apply_check_counts spec (after spec older) x.result x.now x.draw in
    let (fails', oks') = counters_of_history spec older in (cc (fails, fails'), cc (oks, oks'))
counters_of_history spec (marked now draw ∷ older) =
    let (fails, oks, _) = mark_check_counts spec (after spec older) now draw in
    let (fails', oks') = counters_of_history spec older in (cc (fails, fails'), oks)
counters_of_history spec (switched true now ∷ older) = (refl, (counters_of_history spec older).1)
counters_of_history spec (switched false now ∷ older) = counters_of_history spec older

apply_check_fails :
    (spec : CheckSpec) (st : CheckState) (r : CheckResult) (now draw : ℕ)
    → st.effective ≢ Status.failing
    → ((apply_check spec st r now draw).effective ≡ Status.failing)
      ↔ ((r.status ≡ Status.failing) × (spec.failure_threshold ≤ suc st.consecutive_fail))
unfolding apply_check
apply_check_fails spec st r now draw h = ground arith

apply_check_recovers :
    (spec : CheckSpec) (st : CheckState) (r : CheckResult) (now draw : ℕ)
    → (st.effective ≡ Status.failing) ⊎ (st.effective ≡ Status.degraded)
    → ((apply_check spec st r now draw).effective ≡ Status.ok)
      ↔ ((r.status ≡ Status.ok) × (spec.success_threshold ≤ suc st.consecutive_ok))
unfolding apply_check
apply_check_recovers spec st r now draw h = ground arith

-- After any history of `apply`, `mark_unknown` and `set_enabled` on a check that begins with its
-- registration: if its effective status is not failing, the next result makes it failing exactly
-- when that result fails and completes `failure_threshold` failures since the last result that
-- was OK or degraded and since the check was last switched on.
pub confirmed_failure :
    (spec : CheckSpec) (older : List Write) (x : Sample)
    → (after spec older).effective ≢ Status.failing
    → ((after spec (taken x ∷ older)).effective ≡ Status.failing)
      ↔ ((x.result.status ≡ Status.failing) × (spec.failure_threshold ≤ failures (taken x ∷ older)))
unfolding write
confirmed_failure spec older x h =
    let (fails, _) = counters_of_history spec older in
    ground (arith, apply_check_fails spec (after spec older) x.result x.now x.draw h)

-- After any history of `apply`, `mark_unknown` and `set_enabled` on a check that begins with its
-- registration: if its effective status is failing or degraded, the next result makes it OK
-- exactly when that result is OK and completes `success_threshold` OK results with no other
-- result and no `mark_unknown` between them.
pub confirmed_recovery :
    (spec : CheckSpec) (older : List Write) (x : Sample)
    → ((after spec older).effective ≡ Status.failing)
      ⊎ ((after spec older).effective ≡ Status.degraded)
    → ((after spec (taken x ∷ older)).effective ≡ Status.ok)
      ↔ ((x.result.status ≡ Status.ok) × (spec.success_threshold ≤ successes (taken x ∷ older)))
unfolding write
confirmed_recovery spec older x h =
    let (_, oks) = counters_of_history spec older in
    ground (arith, apply_check_recovers spec (after spec older) x.result x.now x.draw h)

-- The step of the backoff ladder that a history leads to: a success or a switch to on goes back to
-- the foot of the ladder, and each result by which the failures stand at the threshold or above
-- climbs one step.
abbrev pub climb : ℕ → Status → ℕ → ℕ → ℕ
climb threshold Status.ok fails step = 0
climb threshold Status.degraded fails step = step
climb threshold _ fails step = if leb threshold fails then min (step + 1) backoff_limit else step

abbrev pub ladder_step_of : ℕ → List Write → ℕ
ladder_step_of threshold [] = 0
ladder_step_of threshold (taken x ∷ older) =
    climb threshold x.result.status (failures (taken x ∷ older)) (ladder_step_of threshold older)
ladder_step_of threshold (marked _ _ ∷ older) = ladder_step_of threshold older
ladder_step_of threshold (switched true _ ∷ older) = 0
ladder_step_of threshold (switched false _ ∷ older) = ladder_step_of threshold older

apply_check_climbs :
    (spec : CheckSpec) (st : CheckState) (r : CheckResult) (now draw : ℕ)
    → 0 < spec.failure_threshold
    → (apply_check spec st r now draw).backoff_step
      ≡ climb spec.failure_threshold r.status
          (count_failure r.status st.consecutive_fail)
          st.backoff_step
unfolding apply_check
apply_check_climbs spec st r now draw h = ground arith

-- With a positive failure threshold the backoff step after any history is the step of that
-- description: a success resets it at once, a degraded result leaves it where it is.
pub backoff_of_history :
    (spec : CheckSpec) (history : List Write)
    → 0 < spec.failure_threshold
    → (after spec history).backoff_step ≡ ladder_step_of spec.failure_threshold history
unfolding write enable_check
backoff_of_history spec [] h = refl
backoff_of_history spec (taken x ∷ older) h =
    let (fails, _) = counters_of_history spec older in
    rw (
      apply_check_climbs spec (after spec older) x.result x.now x.draw h,
      fails,
      backoff_of_history spec older h,
    )
backoff_of_history spec (marked now draw ∷ older) h =
    cc ((mark_check_counts spec (after spec older) now draw).2, backoff_of_history spec older h)
backoff_of_history spec (switched true now ∷ older) h = refl
backoff_of_history spec (switched false now ∷ older) h = backoff_of_history spec older h
