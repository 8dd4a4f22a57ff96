-- ===== src/Ladder.antt =====
-- checks/base.py: the traffic log, and the ladder of evidence that every check shares. What an
-- adapter provides is an argument: what its introspection found, and what its probe came to. How
-- Python prints a latency in milliseconds is the argument `show`. Times and latencies are
-- microseconds, so rounding milliseconds to three decimals is the identity. The lock makes each
-- write of the log one step.
pub mod Outcome
pub mod Order
pub mod Traffic
mod Examples
use health_mon.Common.{
  ℕ, ◌+◌, ◌-◌, max, Bool, true, false, not, ◌&&◌, ◌||◌, String, append, str_eq, Option, none, some,
  List, [], ◌∷◌, ◌++◌, ltb, leb, ◌==◌, is_some, if◌then◌else◌, ◌>>=◌,
}
use health_mon.Common.Dict.{Dict, lookup, insert}
use health_mon.Model.{Status, Evidence, ErrorCategory, CheckResult, Primitive, number, same_status}

pub record TrafficRecord : Type 0 where
  pub successes : ℕ
  pub failures : ℕ
  pub last_success_at : Option ℕ
  pub last_failure_at : Option ℕ
  pub last_category : Option ErrorCategory
  pub last_latency : Option ℕ
  pub consecutive_failures : ℕ

abbrev pub no_traffic : TrafficRecord
no_traffic = record {
  successes = 0;
  failures = 0;
  last_success_at = none;
  last_failure_at = none;
  last_category = none;
  last_latency = none;
  consecutive_failures = 0;
}

-- TrafficLog
abbrev pub TrafficLog : Type 0
TrafficLog = Dict TrafficRecord

-- _rec, and a write to the record that it gives
abbrev pub record_or_new : Option TrafficRecord → TrafficRecord
record_or_new none = no_traffic
record_or_new (some r) = r

unfoldable pub note : (TrafficRecord → TrafficRecord) → String → TrafficLog → TrafficLog
note f dep log = insert dep (f (record_or_new (lookup dep log))) log

unfoldable pub note_success : Option ℕ → ℕ → TrafficRecord → TrafficRecord
note_success latency now r = record r {
  successes = r.successes + 1;
  consecutive_failures = 0;
  last_success_at = some now;
  last_latency = latency;
  last_category = none;
}

unfoldable pub note_failure : ErrorCategory → ℕ → TrafficRecord → TrafficRecord
note_failure category now r = record r {
  failures = r.failures + 1;
  consecutive_failures = r.consecutive_failures + 1;
  last_failure_at = some now;
  last_category = some category;
}

-- success, failure and get
unfoldable pub success : String → Option ℕ → ℕ → TrafficLog → TrafficLog
success dep latency now log = note (note_success latency now) dep log

unfoldable pub failure : String → ErrorCategory → ℕ → TrafficLog → TrafficLog
failure dep category now log = note (note_failure category now) dep log

unfoldable pub get : String → TrafficLog → Option TrafficRecord
get dep log = lookup dep log

pub record BaseCheck : Type 0 where
  pub name : String
  pub dependency : String
  pub latency_warn : Option ℕ
  pub latency_critical : Option ℕ

pub record CheckContext : Type 0 where
  pub now : ℕ
  pub wall : ℕ
  pub max_silence : ℕ
  pub traffic : TrafficLog

-- `t or -1.0`: a time of 0 counts as no time.
abbrev pub stamped : Option ℕ → Option ℕ
stamped none = none
stamped (some t) = if t == 0 then none else some t

abbrev pub later : Option ℕ → Option ℕ → Option ℕ
later none b = b
later (some a) none = some a
later (some a) (some b) = some (max a b)

unfoldable pub newest_traffic : TrafficRecord → Option ℕ
newest_traffic r = later (stamped r.last_success_at) (stamped r.last_failure_at)

abbrev pub failed_after : Option ℕ → Option ℕ → Bool
failed_after none _ = false
failed_after (some f) none = true
failed_after (some f) (some s) = ltb s f

latency_entry : Option ℕ → Dict Primitive
latency_entry none = []
latency_entry (some l) = ("last_latency_ms", number l) ∷ []

-- The result that from_traffic builds from a record whose newest traffic is `age` old.
unfoldable pub traffic_result : BaseCheck → CheckContext → TrafficRecord → ℕ → CheckResult
unfolding latency_entry
traffic_result check ctx r age =
    let failing = failed_after r.last_failure_at r.last_success_at in
    record {
      name = check.name;
      status = if failing then Status.failing else Status.ok;
      checked_at = ctx.now;
      wall_clock = ctx.wall;
      evidence = Evidence.observed;
      latency = r.last_latency;
      category = if failing then r.last_category else none;
      evidence_age = some age;
      detail = none;
      observed =
          ("successes", number r.successes)
          ∷ ("failures", number r.failures)
          ∷ ("consecutive_failures", number r.consecutive_failures)
          ∷ latency_entry r.last_latency;
    }

unfoldable pub recent_result :
    BaseCheck → CheckContext → TrafficRecord → Option ℕ → Option CheckResult
recent_result check ctx r none = none
recent_result check ctx r (some newest) =
    if ltb ctx.max_silence (ctx.now - newest)
    then none
    else some (traffic_result check ctx r (ctx.now - newest))

-- from_traffic
unfoldable pub from_traffic : BaseCheck → CheckContext → Option CheckResult
unfolding recent_result
from_traffic check ctx =
    if str_eq check.dependency ""
    then none
    else do r ← get check.dependency ctx.traffic; recent_result check ctx r (newest_traffic r)

-- The status that a latency calls for, and the threshold that it exceeds.
abbrev pub reaches : Option ℕ → ℕ → Bool
reaches none latency = false
reaches (some threshold) latency = leb threshold latency

abbrev pub threshold_of : Option ℕ → ℕ
threshold_of none = 0
threshold_of (some threshold) = threshold

module _ (show : ℕ → String) where
  unfoldable pub slow : CheckResult → ℕ → Status → ℕ → CheckResult
  slow r latency status threshold = record r {
    status = status;
    category = some ErrorCategory.slow;
    detail =
        some (
          append (show latency)
            (append "ms exceeds the " (append (show threshold) "ms threshold")));
    observed = insert "latency_threshold_ms" (number threshold) r.observed;
  }

  unfoldable pub judge_latency : BaseCheck → CheckResult → Option ℕ → CheckResult
  unfolding slow
  judge_latency check r none = r
  judge_latency check r (some latency) =
      if reaches check.latency_critical latency
      then slow r latency Status.failing (threshold_of check.latency_critical)
      else if reaches check.latency_warn latency
      then slow r latency Status.degraded (threshold_of check.latency_warn)
      else r

  -- apply_latency_policy
  unfoldable pub apply_latency_policy : BaseCheck → CheckResult → CheckResult
  unfolding judge_latency
  apply_latency_policy check r =
      if same_status r.status Status.ok then judge_latency check r r.latency else r

-- What the probe came to: its result, or the category of the exception and the time it took.
pub data Probed : Type 0 where
  answered : CheckResult → Probed
  raised : ErrorCategory → ℕ → Probed

-- The result of a probe, where an exception is BaseCheck.fail with its category.
unfoldable pub probe_result : BaseCheck → CheckContext → Probed → CheckResult
probe_result check ctx (answered r) = r
probe_result check ctx (raised category latency) = record {
  name = check.name;
  status = Status.failing;
  checked_at = ctx.now;
  wall_clock = ctx.wall;
  evidence = Evidence.probed;
  latency = some latency;
  category = some category;
  evidence_age = some 0;
  detail = none;
  observed = [];
}

-- `merged.update(...)`
update : Dict Primitive → Dict Primitive → Dict Primitive
update merged [] = merged
update merged ((k, v) ∷ rest) = update (insert k v merged) rest

unfoldable pub carry_forward : Option CheckResult → CheckResult → CheckResult
unfolding update
carry_forward none r = r
carry_forward (some introspected) r =
    if same_status r.status Status.ok
    then record r { observed = update introspected.observed r.observed }
    else r

abbrev pub conclusive : Option CheckResult → Option CheckResult
conclusive none = none
conclusive (some r) = if same_status r.status Status.ok then none else some r

module _ (show : ℕ → String) where
  -- The rungs above the probe, and the probe.
  unfoldable pub from_record :
      BaseCheck → CheckContext → Option CheckResult → Probed → Option CheckResult → CheckResult
  from_record check ctx introspected probed (some observed) =
      apply_latency_policy show check observed
  from_record check ctx introspected probed none =
      apply_latency_policy show check (carry_forward introspected (probe_result check ctx probed))

  -- evaluate
  unfoldable pub evaluate : BaseCheck → CheckContext → Option CheckResult → Probed → CheckResult
  unfolding from_record
  evaluate check ctx introspected probed = elim (conclusive introspected) [
    | some r ↦ r
    | none ↦ from_record check ctx introspected probed (from_traffic check ctx)
  ]
