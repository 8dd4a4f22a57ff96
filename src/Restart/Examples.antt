-- ===== src/Restart/Examples.antt =====
-- Tests of policy/restart.py, and the theorems at concrete histories.
use health_mon.Common.{ℕ, ◌≤◌, ◌<◌, true, false, ◌≡◌, refl, inr, none, some, List, [], ◌∷◌, arith}
use health_mon.Model.{Status, Evidence, ErrorCategory, CheckResult}
use health_mon.Restart.{
  RestartPolicy, nothing, Sight, is_self_fault, is_dependency_fault, cooling, observe,
}
use health_mon.Restart.Budget.{Look, fired, policy_after, fires, recent_count, restart_budget}
use health_mon.Restart.Firing.{hits, newest_of, restart_needs, dependency_outage_no_restart}

abbrev failing_with : ErrorCategory → CheckResult
failing_with c = record {
  name = "processing";
  status = Status.failing;
  checked_at = 0;
  wall_clock = 0;
  evidence = Evidence.observed;
  latency = none;
  category = some c;
  evidence_age = none;
  detail = none;
  observed = [];
}

abbrev policy : RestartPolicy
policy = record {
  enabled = true;
  triggers = is_self_fault;
  after_cycles = 2;
  min_uptime = 10;
  cooldown = 100;
  max_per_hour = 1;
  jitter = 300;
  drain_timeout = 30;
  exit_code = 70;
  has_callback = true;
  streak = 0;
  last_restart = none;
  restarts = [];
  latched = false;
}

abbrev stalled_at : ℕ → Look
stalled_at t = record {
  snap = record { results = failing_with ErrorCategory.stalled ∷ []; uptime = t };
  now = t;
  draw = 500;
}

abbrev stalls : List Look
stalls = stalled_at 300 ∷ stalled_at 60 ∷ stalled_at 50 ∷ stalled_at 40 ∷ []

-- The second observation fires, the cooldown holds the third back, and then the budget latches.
fires_once_and_latches :
    (fires policy stalls ≡ 50 ∷ []) × ((policy_after policy stalls).latched ≡ true)
unfolding observe is_self_fault
fires_once_and_latches = (refl, refl)

restart_budget_example : recent_count 300 (fires policy stalls) ≤ 1
restart_budget_example = restart_budget policy stalls refl (omega arith)

fires_second :
    fired (observe (policy_after policy (stalled_at 40 ∷ [])) (stalled_at 50).snap 50 500).1 ≡ true
unfolding observe is_self_fault
fires_second = refl

restart_needs_example :
    (policy.enabled ≡ true)
    × (0 < hits is_self_fault (stalled_at 50 ∷ stalled_at 40 ∷ []))
    × (2 ≤ hits is_self_fault (stalled_at 50 ∷ stalled_at 40 ∷ []))
    × (10 ≤ 50)
    × (cooling (newest_of (fires policy (stalled_at 40 ∷ []))) 100 50 ≡ false)
restart_needs_example =
    restart_needs policy (stalled_at 40 ∷ []) (stalled_at 50) refl refl fires_second

abbrev outage : Sight
outage = record { results = failing_with ErrorCategory.connection_refused ∷ []; uptime = 500 }

dependency_outage_no_restart_example :
    ((observe policy outage 500 0).1 ≡ nothing) × ((observe policy outage 500 0).0.streak ≡ 0)
unfolding is_dependency_fault
dependency_outage_no_restart_example =
    dependency_outage_no_restart policy outage 500 0 refl refl refl
      ((λ _. inr (ErrorCategory.connection_refused, refl, refl)), tt)
