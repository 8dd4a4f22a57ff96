-- ===== src/Machine/Check.antt =====
-- One check of core/machine.py: its settings, its state, and what each operation of `StateMachine`
-- does to them.
use health_mon.Common.{
  ℕ, ◌+◌, ◌-◌, ◌*◌, ◌/◌, ◌^◌, min, max, String, Bool, false, not, ◌||◌, Option, none, some, ltb,
  leb, ◌==◌, if◌then◌else◌,
}
use health_mon.Model.{Status, CheckResult, same_status}

pub record CheckSpec : Type 0 where
  pub name : String
  pub critical : Bool
  pub enabled : Bool
  pub interval : ℕ
  pub timeout : ℕ
  pub ttl : ℕ
  pub failure_threshold : ℕ
  pub success_threshold : ℕ
  pub breaker_threshold : ℕ
  pub jitter : ℕ  -- thousandths
  pub max_silence : ℕ
  pub backoff_initial : ℕ
  pub backoff_max : ℕ
  pub backoff_multiplier : ℕ  -- thousandths
  pub backoff_jitter : ℕ  -- thousandths
  pub max_backoff : Option ℕ

-- CheckSpec.__post_init__
unfoldable pub post_init : CheckSpec → CheckSpec
post_init spec = elim spec.max_backoff [
  | none ↦ record spec { max_backoff = some spec.backoff_max }
  | some m ↦ record spec { backoff_max = m; max_backoff = some m }
]

pub record CheckState : Type 0 where
  pub effective : Status
  pub consecutive_fail : ℕ
  pub consecutive_ok : ℕ
  pub last_result : Option CheckResult
  pub last_ok_at : Option ℕ
  pub backoff_step : ℕ
  pub transitions : ℕ
  pub next_due : ℕ
  pub entered_at : ℕ

abbrev pub new_state : CheckState
new_state = record {
  effective = Status.unknown;
  consecutive_fail = 0;
  consecutive_ok = 0;
  last_result = none;
  last_ok_at = none;
  backoff_step = 0;
  transitions = 0;
  next_due = 0;
  entered_at = 0;
}

abbrev pub one : ℕ
one = 1000

abbrev pub backoff_limit : ℕ
backoff_limit = 12

-- min(backoff_initial * backoff_multiplier ** (backoff_step - 1), backoff_max)
unfoldable pub backoff_base : CheckSpec → ℕ → ℕ
backoff_base spec step =
    min (spec.backoff_initial * spec.backoff_multiplier ^ (step - 1) / one ^ (step - 1))
      spec.backoff_max

-- StateMachine.next_interval
unfoldable pub check_interval : CheckSpec → CheckState → ℕ
check_interval spec st =
    if st.backoff_step == 0 then spec.interval else backoff_base spec st.backoff_step

unfoldable pub spread_of : CheckSpec → CheckState → ℕ
spread_of spec st = if st.backoff_step == 0 then spec.jitter else spec.backoff_jitter

-- `monotonic() + base * (1.0 + uniform(-spread, spread))`, where `uniform(a, b)` is
-- `a + (b - a) * random()` and `draw` is the value of `random()`.
unfoldable pub jittered : ℕ → ℕ → ℕ → ℕ → ℕ
jittered now base spread draw =
    (now * (one * one) + base * (one * one + 2 * spread * draw) - base * spread * one) / (one * one)

-- StateMachine._schedule
unfoldable pub schedule : CheckSpec → CheckState → ℕ → ℕ → ℕ
schedule spec st now draw = jittered now (check_interval spec st) (spread_of spec st) draw

is_bad : Status → Bool
is_bad previous = same_status previous Status.failing || same_status previous Status.degraded

-- The ladder of `apply` on `result.status`, with the state as it was before.
unfoldable pub tally : Status → CheckSpec → CheckState → CheckResult → CheckState
unfolding is_bad
tally Status.failing spec st result =
    let fails = st.consecutive_fail + 1 in
    record st {
      effective = if leb spec.failure_threshold fails then Status.failing else st.effective;
      consecutive_fail = fails;
      consecutive_ok = 0;
    }
tally Status.ok spec st result =
    let oks = st.consecutive_ok + 1 in
    record st {
      effective =
          if not (is_bad st.effective) || leb spec.success_threshold oks
          then Status.ok
          else st.effective;
      consecutive_fail = 0;
      consecutive_ok = oks;
      last_ok_at = some result.checked_at;
      backoff_step = 0;
    }
tally Status.degraded spec st result = record st {
  effective = Status.degraded;
  consecutive_fail = 0;
  consecutive_ok = 0;
}
tally _ spec st result = record st { effective = Status.unknown; consecutive_ok = 0 }

-- Counts a change of the effective status, and stamps it with the time `at`.
unfoldable pub note_transition : Status → ℕ → CheckState → CheckState
note_transition previous at st =
    if same_status st.effective previous
    then st
    else record st { transitions = st.transitions + 1; entered_at = at }

unfoldable pub engage_backoff : CheckSpec → CheckState → CheckState
engage_backoff spec st =
    if leb spec.failure_threshold st.consecutive_fail
    then record st { backoff_step = min (st.backoff_step + 1) backoff_limit }
    else st

unfoldable pub reschedule : CheckSpec → ℕ → ℕ → CheckState → CheckState
reschedule spec now draw st = record st { next_due = schedule spec st now draw }

-- StateMachine.apply on the state of one check.
unfoldable pub apply_check : CheckSpec → CheckState → CheckResult → ℕ → ℕ → CheckState
unfolding tally note_transition engage_backoff reschedule
apply_check spec st result now draw =
    let recorded = tally result.status spec (record st { last_result = some result }) result in
    reschedule spec now draw
      (engage_backoff spec (note_transition st.effective result.checked_at recorded))

-- StateMachine.mark_unknown
unfoldable pub mark_check_unknown : CheckSpec → CheckState → ℕ → ℕ → CheckState
unfolding reschedule
mark_check_unknown spec st now draw =
    let noted =
      if same_status st.effective Status.unknown
      then st
      else record st { transitions = st.transitions + 1; entered_at = now } in
    reschedule spec now draw (record noted { effective = Status.unknown; consecutive_ok = 0 })

-- The state's part of StateMachine.set_enabled
unfoldable pub enable_check : Bool → CheckState → ℕ → CheckState
enable_check enabled st now =
    if enabled then record st { backoff_step = 0; consecutive_fail = 0; next_due = now } else st

-- StateMachine._ttl
unfoldable pub check_ttl : CheckSpec → CheckState → ℕ
check_ttl spec st =
    if st.backoff_step == 0
    then spec.ttl
    else max spec.ttl (check_interval spec st * 2 + spec.timeout)

-- StateMachine.effective. A result from the future has a negative age, which no ttl is below.
unfoldable pub check_effective : CheckSpec → CheckState → ℕ → Status
check_effective spec st now = if not spec.enabled then Status.disabled else elim st.last_result [
  | none ↦ Status.unknown
  | some r ↦ if ltb (check_ttl spec st) (now - r.checked_at) then Status.unknown else st.effective
]

-- StateMachine.due
unfoldable pub check_due : CheckSpec → CheckState → ℕ → Bool
check_due spec st now = if not spec.enabled then false else leb st.next_due now

-- StateMachine.breaker_open
unfoldable pub check_breaker_open : CheckSpec → CheckState → Bool
check_breaker_open spec st = leb spec.breaker_threshold st.consecutive_fail
