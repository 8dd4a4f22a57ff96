-- ===== src/Machine/Freshness.antt =====
-- Reads of core/machine.py: the time to live of a result, which backoff widens.
use health_mon.Common.{ℕ, ◌+◌, ◌*◌, ◌≤◌, ◌<◌, true, ◌≡◌, some, arith}
use health_mon.Model.{CheckResult}
use health_mon.Machine.Check.{
  CheckSpec, CheckState, one, apply_check, check_effective, check_ttl, check_interval, spread_of,
  schedule,
}
use health_mon.Machine.Schedule.{jittered-le}

-- What `apply` leaves behind: the result it was given, and the due time of its schedule.
apply_check_stores :
    (spec : CheckSpec) (st : CheckState) (r : CheckResult) (now draw : ℕ)
    → let st' = apply_check spec st r now draw in
      (st'.last_result ≡ some r) × (st'.next_due ≡ schedule spec st' now draw)
unfolding apply_check schedule check_interval spread_of
apply_check_stores spec st r now draw = ground arith

ttl_covers :
    (spec : CheckSpec) (st : CheckState)
    → 0 < st.backoff_step
    → check_interval spec st * 2 + spec.timeout ≤ check_ttl spec st
unfolding check_ttl
ttl_covers spec st h = ground arith

backoff_due :
    (spec : CheckSpec) (st : CheckState) (now draw : ℕ)
    → spec.backoff_jitter ≤ one
    → draw ≤ one
    → 0 < st.backoff_step
    → schedule spec st now draw ≤ now + 2 * check_interval spec st
unfolding schedule spread_of
backoff_due spec st now draw j d h =
    let e : spread_of spec st ≡ spec.backoff_jitter = ground arith in
    rw e (jittered-le now (check_interval spec st) spec.backoff_jitter draw j d)

-- Backoff hides no status: let a result be applied to an enabled check within the check's timeout of
-- being taken, with a draw and a backoff jitter of at most 1, so that the check backs off
-- afterwards. Then at every time up to the next due time the check reports its effective status,
-- and no result is stale, although the backed-off interval may be longer than the ttl.
pub backoff_stays_visible :
    (spec : CheckSpec) (st : CheckState) (r : CheckResult) (now draw t : ℕ)
    → spec.enabled ≡ true
    → spec.backoff_jitter ≤ one
    → draw ≤ one
    → now ≤ r.checked_at + spec.timeout
    → 0 < (apply_check spec st r now draw).backoff_step
    → t ≤ (apply_check spec st r now draw).next_due
    → check_effective spec (apply_check spec st r now draw) t
      ≡ (apply_check spec st r now draw).effective
unfolding check_effective
backoff_stays_visible spec st r now draw t e j d fresh b due =
    let st' = apply_check spec st r now draw in
    let (stored, scheduled) = apply_check_stores spec st r now draw in
    ground (arith, stored, scheduled, ttl_covers spec st' b, backoff_due spec st' now draw j d b)
