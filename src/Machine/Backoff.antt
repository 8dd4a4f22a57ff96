-- ===== src/Machine/Backoff.antt =====
-- The backoff ladder of core/machine.py over a history of writes.
use health_mon.Common.{
  ℕ, suc, ◌-◌, ◌<◌, min, ◌≡◌, ◌∙◌, ap, List, [], ◌∷◌, ◌++◌, arith, length, All, map,
}
use health_mon.Model.{Status}
use health_mon.Machine.Check.{CheckSpec, CheckState, apply_check, check_interval, backoff_limit}
use health_mon.Machine.Hysteresis.{
  Write, taken, write, Sample, after, failures, ladder_step_of, backoff_of_history,
}

abbrev pub Fails : Sample → Type 0
Fails x = x.result.status ≡ Status.failing

abbrev pub Degrades : Sample → Type 0
Degrades x = x.result.status ≡ Status.degraded

failures_run :
    (run : List Sample) (x : Sample) (older : List Write)
    → All Fails run
    → x.result.status ≡ Status.ok
    → failures (map taken run ++ taken x ∷ older) ≡ length run
failures_run [] x older h e = rw e
failures_run (y ∷ run) x older h e = rw h.0 (ap suc (failures_run run x older h.1 e))

ladder_run :
    (threshold : ℕ) (run : List Sample) (x : Sample) (older : List Write)
    → 0 < threshold
    → All Fails run
    → x.result.status ≡ Status.ok
    → ladder_step_of threshold (map taken run ++ taken x ∷ older)
      ≡ min (suc (length run) - threshold) backoff_limit
ladder_run threshold [] x older t h e = rw e (omega arith)
ladder_run threshold (y ∷ run) x older t h e =
    rw h.0
      (ground (arith, failures_run run x older h.1 e, ladder_run threshold run x older t h.1 e))

-- With a positive failure threshold, after a success and then a run of failures the ladder stands
-- at the number of failures from the one that reached the threshold on, and never above twelve.
backoff_of_failures :
    (spec : CheckSpec) (run : List Sample) (x : Sample) (older : List Write)
    → 0 < spec.failure_threshold
    → All Fails run
    → x.result.status ≡ Status.ok
    → (after spec (map taken run ++ taken x ∷ older)).backoff_step
      ≡ min (suc (length run) - spec.failure_threshold) backoff_limit
backoff_of_failures spec run x older t h e =
    backoff_of_history spec (map taken run ++ taken x ∷ older) t
    ∙ ladder_run spec.failure_threshold run x older t h e

apply_check_degraded :
    (spec : CheckSpec) (st : CheckState) (x : Sample)
    → 0 < spec.failure_threshold
    → Degrades x
    → let st' = apply_check spec st x.result x.now x.draw in
      (st'.effective ≡ Status.degraded) × (st'.backoff_step ≡ st.backoff_step)
unfolding apply_check
apply_check_degraded spec st x t e = ground arith

-- With a positive failure threshold, a run of degraded results after any history reports degraded
-- and leaves the backoff step alone: a check that was backing off goes on at its backed-off
-- interval, however long it is degraded.
degraded_keeps_backoff :
    (spec : CheckSpec) (x : Sample) (run : List Sample) (older : List Write)
    → 0 < spec.failure_threshold
    → All Degrades (x ∷ run)
    → ((after spec (taken x ∷ map taken run ++ older)).effective ≡ Status.degraded)
      × (check_interval spec (after spec (taken x ∷ map taken run ++ older))
          ≡ check_interval spec (after spec older))
unfolding check_interval write
degraded_keeps_backoff spec x [] older t h =
    ground (arith, apply_check_degraded spec (after spec older) x t h.0)
degraded_keeps_backoff spec x (y ∷ run) older t h = ground (
  arith,
  apply_check_degraded spec (after spec (taken y ∷ map taken run ++ older)) x t h.0,
  degraded_keeps_backoff spec y run older t h.1,
)
