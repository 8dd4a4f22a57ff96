-- ===== src/Machine/Examples.antt =====
-- Tests of core/machine.py on concrete checks, and the theorems at those inputs.
use health_mon.Common.{
  ℕ, ◌≤◌, ◌<◌, true, false, ◌≡◌, ◌≢◌, refl, ◌↔◌, inl, none, some, List, [], ◌∷◌, arith,
}
use health_mon.Common.Dict.{lookup, insert, set_default}
use health_mon.Model.{Status, Evidence, CheckResult}
use health_mon.Machine.{StateMachine, add, apply}
use health_mon.Machine.Check.{
  CheckSpec, CheckState, new_state, backoff_base, apply_check, mark_check_unknown, enable_check,
  check_interval, check_effective, jittered, post_init, schedule,
}
use health_mon.Machine.Hysteresis.{
  Sample, Write, taken, marked, switched, write, after, failures, successes, confirmed_failure,
  confirmed_recovery,
}
use health_mon.Machine.Freshness.{backoff_stays_visible}
use health_mon.Machine.Operations.{Op, register, observe, perform, perform_all}
use health_mon.Machine.Invariant.{IsValid}
use health_mon.Machine.Runs.{empty-IsValid, perform_all-IsValid}

-- CheckSpec("db") with its defaults.
abbrev pub db : CheckSpec
db = record {
  name = "db";
  critical = true;
  enabled = true;
  interval = 10_000_000;
  timeout = 3_000_000;
  ttl = 30_000_000;
  failure_threshold = 3;
  success_threshold = 2;
  breaker_threshold = 5;
  jitter = 200;
  max_silence = 30_000_000;
  backoff_initial = 5_000_000;
  backoff_max = 60_000_000;
  backoff_multiplier = 2000;
  backoff_jitter = 100;
  max_backoff = some 60_000_000;
}

abbrev pub cache : CheckSpec
cache = record db { name = "cache"; critical = false }

abbrev pub result : Status → ℕ → CheckResult
result status at = record {
  name = "db";
  status = status;
  checked_at = at;
  wall_clock = 0;
  evidence = Evidence.probed;
  latency = none;
  category = none;
  evidence_age = none;
  detail = none;
  observed = [];
}

abbrev sample : Status → ℕ → Sample
sample status at = record { result = result status at; now = at; draw = 500 }

-- 5s, 10s, 20s, 40s, 60s, 60s
ladder_of_defaults :
    (backoff_base db 1 ≡ 5_000_000)
    × (backoff_base db 2 ≡ 10_000_000)
    × (backoff_base db 3 ≡ 20_000_000)
    × (backoff_base db 4 ≡ 40_000_000)
    × (backoff_base db 5 ≡ 60_000_000)
    × (backoff_base db 12 ≡ 60_000_000)
unfolding backoff_base
ladder_of_defaults = (refl, refl, refl, refl, refl, refl)

alias_of_backoff_max : (post_init (record db { max_backoff = some 7 })).backoff_max ≡ 7
unfolding post_init
alias_of_backoff_max = refl

abbrev two_failures : List Write
two_failures =
    taken (sample Status.failing 2)
    ∷ marked 2 500
    ∷ taken (sample Status.failing 1)
    ∷ switched true 0
    ∷ taken (sample Status.failing 0)
    ∷ []

abbrev three_failures : List Write
three_failures = taken (sample Status.failing 3) ∷ two_failures

not_yet_failing : (after db two_failures).effective ≢ Status.failing
unfolding write apply_check mark_check_unknown enable_check
not_yet_failing e = cc

confirmed_failure_example :
    ((after db three_failures).effective ≡ Status.failing)
    ↔ ((Status.failing ≡ Status.failing) × (3 ≤ failures three_failures))
confirmed_failure_example =
    confirmed_failure db two_failures (sample Status.failing 3) not_yet_failing

is_failing : (after db three_failures).effective ≡ Status.failing
unfolding write apply_check mark_check_unknown enable_check
is_failing = refl

confirmed_recovery_example :
    ((after db (taken (sample Status.ok 4) ∷ three_failures)).effective ≡ Status.ok)
    ↔ ((Status.ok ≡ Status.ok) × (2 ≤ successes (taken (sample Status.ok 4) ∷ three_failures)))
confirmed_recovery_example =
    confirmed_recovery db three_failures (sample Status.ok 4) (inl is_failing)

abbrev measured : CheckState
measured = record new_state { effective = Status.ok; last_result = some (result Status.ok 100) }

abbrev shaken : CheckState
shaken = record measured { consecutive_fail = 2 }

shaken_backs_off :
    (0 < (apply_check db shaken (result Status.failing 100) 200 500).backoff_step)
    × (5_000_200 ≤ (apply_check db shaken (result Status.failing 100) 200 500).next_due)
unfolding apply_check schedule jittered check_interval backoff_base
shaken_backs_off = (omega arith, omega arith)

-- The backoff of a third failure hides no result until the check is due again, 5.5 s later.
backoff_stays_visible_example :
    check_effective db (apply_check db shaken (result Status.failing 100) 200 500) 5_000_200
    ≡ (apply_check db shaken (result Status.failing 100) 200 500).effective
backoff_stays_visible_example =
    backoff_stays_visible db shaken (result Status.failing 100) 200 500 5_000_200 refl (omega arith)
      (omega arith) (omega arith) shaken_backs_off.0 shaken_backs_off.1

abbrev pub none_yet : StateMachine
none_yet = record { specs = []; states = [] }

abbrev pub two_checks : StateMachine
two_checks = record {
  specs = ("db", db) ∷ ("cache", cache) ∷ [];
  states = ("db", new_state) ∷ ("cache", new_state) ∷ [];
}

registers : perform_all (register db ∷ register cache ∷ []) none_yet ≡ some two_checks
unfolding perform_all add insert set_default
registers = refl

pub two_checks-IsValid : IsValid two_checks
two_checks-IsValid =
    perform_all-IsValid (register db ∷ register cache ∷ []) none_yet two_checks
      (omega arith, (omega arith, tt)) empty-IsValid registers

abbrev observed_db : Op
observed_db = observe "db" (result Status.failing 5) 6 500

observed_db_runs :
    perform observed_db two_checks
    ≡ some (record two_checks {
      states =
          ("db", apply_check db new_state (result Status.failing 5) 6 500)
          ∷ ("cache", new_state)
          ∷ [];
    })
unfolding perform apply lookup insert
observed_db_runs = refl

perform_all-IsValid_example : IsValid two_checks
perform_all-IsValid_example =
    perform_all-IsValid (register db ∷ register cache ∷ []) none_yet two_checks
      (omega arith, (omega arith, tt)) empty-IsValid registers
