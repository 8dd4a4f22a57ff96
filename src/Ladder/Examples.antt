-- ===== src/Ladder/Examples.antt =====
-- Tests of checks/base.py on one dependency, and its theorems at that input.
use health_mon.Common.{ℕ, ◌≤◌, ◌≡◌, ◌≢◌, refl, ◌⊎◌, String, none, some, List, [], ◌∷◌, filter}
use health_mon.Model.{Status, Evidence, ErrorCategory, CheckResult, severity}
use health_mon.Ladder.{
  BaseCheck, CheckContext, raised, evaluate, from_record, from_traffic, recent_result,
  traffic_result, no_traffic, apply_latency_policy, judge_latency, slow, get, success, failure,
  note, note_success, note_failure, record_or_new, newest_traffic,
}
use health_mon.Ladder.Traffic.{
  Use, succeeded, failed, log_after, record_of, is_of, traffic_of_history,
}
use health_mon.Ladder.Order.{latency_only_worsens}
use health_mon.Common.Dict.{lookup, insert}

abbrev check : BaseCheck
check = record {
  name = "db";
  dependency = "postgres";
  latency_warn = some 500;
  latency_critical = some 2_000;
}

abbrev calls : List Use
calls =
    record { dependency = "redis"; call = failed ErrorCategory.loading; at = 30 }
    ∷ record { dependency = "postgres"; call = succeeded (some 700); at = 20 }
    ∷ []

abbrev context : CheckContext
context = record { now = 50; wall = 0; max_silence = 100; traffic = log_after calls }

-- Any way to print a latency.
abbrev plain : ℕ → String
plain n = "some"

-- The traffic of the worker is recent, so the probe is not asked; it was slow, which degrades it.
observed_and_slow :
    ((evaluate plain check context none (raised ErrorCategory.timeout 9)).evidence
      ≡ Evidence.observed)
    × ((evaluate plain check context none (raised ErrorCategory.timeout 9)).status
        ≡ Status.degraded)
unfolding evaluate from_record from_traffic recent_result traffic_result apply_latency_policy
    judge_latency slow get success failure note note_success note_failure lookup insert
    newest_traffic
observed_and_slow = (refl, refl)

traffic_of_history_example :
    record_or_new (get "postgres" (log_after calls)) ≡ record_of (filter (is_of "postgres") calls)
traffic_of_history_example = traffic_of_history calls "postgres"

-- A fault that introspection finds stands, although the traffic is fresh.
abbrev drained_pool : CheckResult
drained_pool = record (traffic_result check context no_traffic 0) {
  status = Status.failing;
  category = some ErrorCategory.unknown;
}

fault_stands :
    evaluate plain check context (some drained_pool) (raised ErrorCategory.timeout 9) ≡ drained_pool
unfolding evaluate
fault_stands = refl

abbrev answer : CheckResult
answer = record {
  name = "db";
  status = Status.ok;
  checked_at = 50;
  wall_clock = 0;
  evidence = Evidence.probed;
  latency = some 3_000;
  category = none;
  evidence_age = some 0;
  detail = none;
  observed = [];
}

latency_only_worsens_example :
    let judged = apply_latency_policy plain check answer in
    (severity answer.status ≤ severity judged.status)
    × (answer.status ≢ Status.ok → judged ≡ answer)
    × ((judged ≡ answer) ⊎ (judged.category ≡ some ErrorCategory.slow))
    × (apply_latency_policy plain check judged ≡ judged)
latency_only_worsens_example = latency_only_worsens plain check answer
