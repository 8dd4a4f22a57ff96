-- ===== src/Monitor/Intake.antt =====
-- monitor.py: the snapshot, the intake of a result, the runner's tick and the start of a shutdown.
use health_mon.Common.{
  ℕ, ◌-◌, ◌*◌, min, Bool, true, false, not, ◌||◌, String, Option, none, some, List, [], ◌∷◌,
  if◌then◌else◌, ◌>>=◌,
}
use health_mon.Common.Dict.{Dict, insert, values}
use health_mon.Model.{
  Status, Readiness, Liveness, Evidence, CheckResult, Snapshot, same_status, same_readiness,
  same_liveness,
}
use health_mon.Machine
use health_mon.Machine.{StateMachine}
use health_mon.Aggregate
use health_mon.Timing
use health_mon.Timing.{Timings, round_div}
use health_mon.Restart
use health_mon.Restart.{RestartPolicy, Action, nothing, Sight}
use health_mon.Events.{
  Emitter, emit, emit_all, transition_events, worker_draining, readiness_changed, liveness_changed,
}
use health_mon.Monitor.{
  Monitor, recompute_self_faults, live_status, liveness, aggregate_status, readiness_reasons,
}

-- _with_status
unfoldable pub with_status : CheckResult → Status → CheckResult
with_status r status = if same_status r.status status then r else record r {
  status = status;
  category = if same_status status Status.ok then none else r.category;
  detail = if same_status status Status.ok then none else r.detail;
}

-- Each stored result with the status that the state machine reports for it.
unfoldable pub project : StateMachine → ℕ → Dict CheckResult → Option (Dict CheckResult)
unfolding with_status
project machine now [] = some []
project machine now ((name, r) ∷ rest) = do
  v ← Machine.effective machine name now
  others ← project machine now rest
  some ((name, with_status r v) ∷ others)

-- The age of the freshest evidence from real traffic.
is_observed : Evidence → Bool
is_observed Evidence.observed = true
is_observed _ = false

fresher : Option ℕ → Option ℕ → Option ℕ
fresher none best = best
fresher (some a) none = some a
fresher (some a) (some b) = some (min a b)

freshest : List CheckResult → Option ℕ
unfolding is_observed fresher
freshest [] = none
freshest (r ∷ rest) =
    let best = freshest rest in if is_observed r.evidence then fresher r.evidence_age best else best

-- What _timing_block writes to the timings.
observe_delta : Timings → Option ℕ → Timings
observe_delta t none = t
observe_delta t (some age) = Timing.observe t "delta.worker_to_health_ms" age

-- `round(now - started_at, 2)`: seconds to two decimals.
abbrev pub rounded_uptime : Monitor → ℕ → ℕ
rounded_uptime m now = round_div (now - m.started_at) 10_000 * 10_000

-- The end of snapshot, from the state and the parts that it has read: the timings that it writes,
-- and the record that it returns. `build` is how long the building took.
unfoldable pub assemble :
    Monitor → Status → Dict CheckResult → List String → ℕ → ℕ → ℕ → Monitor × Snapshot
unfolding freshest observe_delta
assemble m status projected lines now wall build = (
  record m {
    timings =
        Timing.observe (observe_delta m.timings (freshest (values projected)))
          "runtime.snapshot_build_ms" build;
  },
  record {
    status = status;
    live_status = live_status m now;
    results = projected;
    built_at = now;
    wall_clock = wall;
    uptime = rounded_uptime m now;
    reasons = lines;
    draining = m.draining;
  },
)

-- snapshot
unfoldable pub snapshot : Monitor → ℕ → ℕ → ℕ → Option (Monitor × Snapshot)
snapshot m now wall build = do
  found ← aggregate_status m now
  projected ← project found.0.machine now found.0.results
  lines ← readiness_reasons found.0 now
  some (assemble found.0 found.1 projected lines now wall build)

-- The readings that an operation takes from outside: the clocks, the draws and a duration.
pub record Readings : Type 0 where
  pub now : ℕ
  pub wall : ℕ
  pub build : ℕ
  pub draw : ℕ
  pub restart_draw : ℕ

-- What `observe` does with the snapshot. Where building it raises, what it wrote until then is not
-- kept here.
unfoldable pub watch :
    Monitor → RestartPolicy → Readings → Option (Monitor × Snapshot) → Monitor × Action
watch m p at none = (m, nothing)
watch m p at (some (m', snap)) =
    let sight : Sight = record { results = values snap.results; uptime = snap.uptime } in
    let (p', action) = Restart.observe p sight at.now at.restart_draw in
    (record m' { policy = some p' }, action)

unfoldable pub policy_step : Monitor → Readings → Option RestartPolicy → Monitor × Action
policy_step m at none = (m, nothing)
policy_step m at (some p) =
    if not p.enabled || p.latched
    then (m, nothing)
    else watch m p at (snapshot m at.now at.wall at.build)

-- `self._restart_policy.observe(self)` under its `except: pass`.
unfoldable pub run_policy : Monitor → Readings → Monitor × Action
run_policy m at = policy_step m at m.policy

-- What apply stores before it runs the restart policy.
unfoldable pub accept :
    Monitor → CheckResult → Status → Status → StateMachine → List String → Monitor
accept m result before after machine faults =
    let changed = not (same_status after before) in
    record m {
      machine = machine;
      results = insert result.name result m.results;
      self_faults = faults;
      events =
          if changed
          then emit_all m.events (transition_events result.name before after result)
          else m.events;
    }

-- apply
unfoldable pub apply : Monitor → CheckResult → Readings → Option (Monitor × Action)
apply m result at = do
  before ← Machine.state m.machine result.name
  machine ← Machine.apply m.machine result.name result at.now at.draw
  after ← Machine.state machine result.name
  faults ← recompute_self_faults m.live_on_self_fault machine (insert result.name result m.results)
  some (run_policy (accept m result before.effective after.effective machine faults) at)

-- A verdict is remembered at first, and a later change is emitted.
note_liveness : Option Liveness → Liveness → Emitter → Emitter
note_liveness none current events = events
note_liveness (some previous) current events =
    if same_liveness current previous
    then events
    else emit events (liveness_changed previous current)

-- Remembers a readiness; the reasons are asked for only where it replaces another one.
unfoldable pub note_readiness : Monitor → Readiness → Option (List String) → Option Monitor
note_readiness m current lines = elim m.last_readiness [
  | none ↦ some (record m { last_readiness = some current })
  | some previous ↦ if same_readiness current previous then some m else do
    reasons ← lines
    some (record m {
      last_readiness = some current;
      events = emit m.events (readiness_changed previous current reasons);
    })
]

observe_tick : Timings → Option ℕ → Timings
observe_tick t none = t
observe_tick t (some delay) = Timing.observe t "runtime.runner_tick_delay_ms" delay

-- tick
unfoldable pub tick : Monitor → ℕ → Option ℕ → Option Monitor
unfolding note_liveness observe_tick
tick m now delay = do
  let live = liveness m now
  let m1 = record m {
    timings = observe_tick m.timings delay;
    last_liveness = some live;
    events = note_liveness m.last_liveness live m.events;
  }
  found ← aggregate_status m1 now
  note_readiness found.0 (Aggregate.readiness found.1 live) (Aggregate.reasons m.machine live now)

-- begin_shutdown
unfoldable pub begin_shutdown : Monitor → String → ℕ → Option Monitor
begin_shutdown m reason now =
    if m.draining
    then some m
    else tick
        (record m {
          draining = true;
          drain_reason = reason;
          events = emit m.events (worker_draining reason);
        })
        now none
