-- ===== src/Monitor/Examples.antt =====
-- Tests of monitor.py on a worker with two checks, and the theorems at that input.
use health_mon.Common.{
  ℕ, ◌-◌, ◌<◌, true, false, ◌≡◌, refl, ◌↔◌, ◌⊎◌, String, Option, none, some, List, [], ◌∷◌,
}
use health_mon.Common.Dict.{lookup, insert}
use health_mon.Model.{
  Status, Readiness, Liveness, ErrorCategory, CheckResult, Snapshot, snapshot_readiness,
  snapshot_liveness,
}
use health_mon.Machine
use health_mon.Machine.Check.{CheckState, new_state}
use health_mon.Machine.Examples.{two_checks, two_checks-IsValid, result}
use health_mon.Aggregate
use health_mon.Restart.{nothing}
use health_mon.Events.{worker_draining}
use health_mon.Monitor.{
  Monitor, readiness, readiness_reasons, live_status, liveness, set_enabled, aggregate_status,
}
use health_mon.Monitor.Intake.{Readings, apply, begin_shutdown, snapshot}
use health_mon.Monitor.Drain.{shutdown_effect}
use health_mon.Monitor.Wedge.{Unexplained, apply_live}
use health_mon.Monitor.Sound.{IsSound}
use health_mon.Monitor.Calls.{
  Call, intake, cycle, shutdown, serve_all, AllowedAll, serve_all-IsSound,
}
use health_mon.Monitor.Report.{snapshot_answers}

abbrev pub worker : Monitor
worker = record {
  machine = two_checks;
  results = [];
  self_faults = [];
  live_on_self_fault = true;
  lag_threshold = 10_000_000;
  loop_beat = 0;
  started_at = 0;
  boot_deadline = some 30_000_000;
  boot_done = false;
  running = true;
  last_activity = none;
  last_readiness = none;
  last_liveness = none;
  draining = false;
  drain_reason = "";
  timings = record { maxlen = 256; windows = [] };
  events = record { recent = []; max_recent = 100 };
  policy = none;
}

-- The worker after a step, or as it was where the step raised.
abbrev or_before {ℓ} : {A : Type ℓ} → A → Option A → A
or_before before none = before
or_before before (some after) = after

abbrev drained : Monitor
drained = record worker {
  draining = true;
  drain_reason = "deploy";
  last_readiness = some Readiness.starting;
  last_liveness = some Liveness.alive;
  events = record { recent = worker_draining "deploy" ∷ []; max_recent = 100 };
}

shuts_down : begin_shutdown worker "deploy" 5 ≡ some drained
unfolding begin_shutdown health_mon.Monitor.Intake.tick aggregate_status Aggregate.boot_complete
    Machine.enabled_specs Machine.state lookup Aggregate.aggregate Aggregate.views_of
    Machine.effective health_mon.Monitor.Intake.note_readiness Aggregate.readiness liveness
    health_mon.Events.emit health_mon.Model.liveness_of_status live_status Aggregate.is_booting
    health_mon.Machine.Check.check_effective
shuts_down = refl

shutdown_effect_example :
    ((t : ℕ) → readiness drained t ≡ some (drained, Readiness.unready))
    × ((t : ℕ) → live_status drained t ≡ live_status worker t)
    × ((again : String) (t : ℕ) → begin_shutdown drained again t ≡ some drained)
shutdown_effect_example = shutdown_effect worker "deploy" 5 drained refl shuts_down

-- "db" has failed twice, and its third result reports a stall.
abbrev shaken : Monitor
shaken = record worker {
  machine = record two_checks {
    states =
        ("db", record new_state { effective = Status.ok; consecutive_fail = 2 })
        ∷ ("cache", new_state)
        ∷ [];
  };
}

abbrev stall : CheckResult
stall = record (result Status.failing 5) { category = some ErrorCategory.stalled }

abbrev pub at_five : Readings
at_five = record { now = 5; wall = 0; build = 0; draw = 500; restart_draw = 0 }

abbrev wedged : Monitor
wedged = (or_before (shaken, nothing) (apply shaken stall at_five)).0

stalls : apply shaken stall at_five ≡ some (wedged, nothing)
unfolding apply Machine.state lookup Machine.apply insert health_mon.Monitor.recompute_self_faults
    health_mon.Monitor.faults_of health_mon.Monitor.Intake.run_policy
    health_mon.Monitor.Intake.policy_step health_mon.Monitor.Intake.accept
stalls = refl

wedged_live : live_status wedged 6 ≡ Status.failing
unfolding live_status apply Machine.state lookup Machine.apply insert
    health_mon.Monitor.recompute_self_faults health_mon.Monitor.faults_of
    health_mon.Monitor.Intake.run_policy health_mon.Monitor.Intake.policy_step
    health_mon.Monitor.Intake.accept health_mon.Machine.Check.apply_check health_mon.Model.is_wedged
wedged_live = refl

apply_live_example : (live_status wedged 6 ≡ Status.failing) ↔ (
    (wedged.lag_threshold < 6 - wedged.loop_beat) ⊎ Unexplained true wedged.machine wedged.results)
apply_live_example = apply_live shaken stall at_five wedged nothing 6 stalls

abbrev switched_off : Monitor
switched_off = or_before wedged (set_enabled wedged "db" false 7)

switches : set_enabled wedged "db" false 7 ≡ some switched_off
unfolding set_enabled apply Machine.set_enabled lookup Machine.state Machine.apply insert
    health_mon.Monitor.recompute_self_faults health_mon.Monitor.faults_of
    health_mon.Monitor.Intake.run_policy health_mon.Monitor.Intake.policy_step
    health_mon.Monitor.Intake.accept
switches = refl

-- "cache" answers after "db" was switched off: the wedge that "db" reported is still found.
abbrev answered : Monitor
answered =
    (or_before (switched_off, nothing)
      (apply switched_off (record (result Status.ok 8) { name = "cache" }) at_five)).0

still_wedged : live_status answered 9 ≡ Status.failing
unfolding live_status set_enabled apply Machine.set_enabled lookup Machine.state Machine.apply
    insert health_mon.Monitor.recompute_self_faults health_mon.Monitor.faults_of
    health_mon.Monitor.Intake.run_policy health_mon.Monitor.Intake.policy_step
    health_mon.Monitor.Intake.accept health_mon.Machine.Check.apply_check health_mon.Model.is_wedged
    health_mon.Machine.Check.enable_check
still_wedged = refl

abbrev empty_snapshot : Snapshot
empty_snapshot = record {
  status = Status.ok;
  live_status = Status.ok;
  results = [];
  built_at = 0;
  wall_clock = 0;
  uptime = 0;
  reasons = [];
  draining = false;
}

abbrev seen : Monitor × Snapshot
seen = or_before (worker, empty_snapshot) (snapshot worker 5 0 1)

sees : snapshot worker 5 0 1 ≡ some (seen.0, seen.1)
unfolding snapshot aggregate_status Aggregate.boot_complete Machine.enabled_specs Machine.state
    lookup Aggregate.aggregate Aggregate.views_of Machine.effective
    health_mon.Monitor.Intake.project readiness_reasons Aggregate.reasons
sees = refl

snapshot_answers_example :
    ((now : Monitor) × (readiness worker 5 ≡ some (now, snapshot_readiness seen.1)))
    × (snapshot_liveness seen.1 ≡ liveness worker 5)
    × (readiness_reasons seen.0 5 ≡ some seen.1.reasons)
snapshot_answers_example = snapshot_answers worker 5 0 1 seen.0 seen.1 sees

pub worker-IsSound : IsSound worker
worker-IsSound = record { valid = two_checks-IsValid; stored = tt }

-- A result comes in, the runner ticks, and the process is told to stop.
abbrev calls : List Call
calls = intake stall at_five ∷ cycle 6 none ∷ shutdown "deploy" 7 ∷ []

calls_allowed : AllowedAll calls worker
unfolding lookup
calls_allowed = (refl, λ m1 e1. (tt, λ m2 e2. (tt, λ m3 e3. tt)))

serve_all-IsSound_example : (m' : Monitor) × (serve_all calls worker ≡ some m') × IsSound m'
serve_all-IsSound_example = serve_all-IsSound calls worker calls_allowed worker-IsSound
