-- ===== src/Monitor.antt =====
-- monitor.py: the HealthMonitor, which feeds results to the state machine, derives liveness and
-- readiness, and reports their changes. Its clock is read once for each operation, and the lock
-- makes each operation one step. The runner, the checks' own code, the listeners, the exporter and
-- the reporting of settings are not part of the state. `none` stands for an exception.
pub mod Intake
pub mod Frame
pub mod Wedge
pub mod Drain
pub mod Report
pub mod Sound
pub mod Calls
pub mod Examples
use health_mon.Common.{
  ℕ, ◌+◌, ◌-◌, ◌*◌, min, Bool, true, false, not, ◌&&◌, ◌||◌, String, Option, none, some, List, [],
  ◌∷◌, ◌++◌, any, filter, is_empty, is_some, ltb, ◌==◌, if◌then◌else◌, ◌>>=◌,
}
use health_mon.Common.Dict.{Dict, lookup, insert, keys, values}
use health_mon.Model.{
  Status, Readiness, Evidence, ErrorCategory, CheckResult, Snapshot, alive, unalive, same_status,
  same_readiness, same_liveness, is_wedged, liveness_of_status,
}
use health_mon.Model as Vocabulary
use health_mon.Machine
use health_mon.Machine.{StateMachine}
use health_mon.Machine.Check.{CheckSpec}
use health_mon.Aggregate
use health_mon.Timing
use health_mon.Timing.{Timings}
use health_mon.Restart
use health_mon.Restart.{RestartPolicy, Action, nothing, Sight}
use health_mon.Events.{
  Event, Emitter, emit, emit_all, transition_events, worker_started, worker_stopped,
  boot_grace_started, boot_grace_completed, worker_draining, readiness_changed, liveness_changed,
  check_registered,
}

pub record Monitor : Type 0 where
  pub machine : StateMachine
  pub results : Dict CheckResult
  pub self_faults : List String
  pub live_on_self_fault : Bool
  pub lag_threshold : ℕ
  pub loop_beat : ℕ
  pub started_at : ℕ
  pub boot_deadline : Option ℕ
  pub boot_done : Bool
  pub running : Bool
  pub last_activity : Option ℕ
  pub last_readiness : Option Readiness
  pub last_liveness : Option Vocabulary.Liveness
  pub draining : Bool
  pub drain_reason : String
  pub timings : Timings
  pub events : Emitter
  pub policy : Option RestartPolicy

-- register, without the check's own code; `name` of the settings is the name that it chose
unfoldable pub register : Monitor → CheckSpec → Monitor
register m spec = record m {
  machine = Machine.add m.machine spec;
  events = emit m.events (check_registered spec.name);
}

unfoldable pub set_enabled : Monitor → String → Bool → ℕ → Option Monitor
set_enabled m name enabled now = do
  machine ← Machine.set_enabled m.machine name enabled now
  some (record m { machine = machine })

-- start: a boot grace of 0 is no grace.
unfoldable pub start : Monitor → ℕ → ℕ → Monitor
start m grace now =
    let started = record m {
      started_at = now;
      boot_deadline = if grace == 0 then none else some (now + grace);
      loop_beat = now;
      boot_done = false;
      running = true;
      events = emit m.events worker_started;
    } in
    if grace == 0
    then started
    else record started { events = emit started.events boot_grace_started }

unfoldable pub stop : Monitor → Monitor
stop m =
    if m.running then record m { running = false; events = emit m.events worker_stopped } else m

unfoldable pub note_activity : Monitor → ℕ → Monitor
note_activity m at = record m { last_activity = some at }

-- What the stored results say: the names that report a wedge, and whether a dependency fails.
pub record Faults : Type 0 where
  pub wedged : List String
  pub dependency_failing : Bool

abbrev note_fault : String → Option ErrorCategory → Faults → Faults
note_fault name none f = f
note_fault name (some c) f =
    if is_wedged c
    then record f { wedged = name ∷ f.wedged }
    else record f { dependency_failing = true }

unfoldable pub faults_of : StateMachine → Dict CheckResult → Option Faults
faults_of machine [] = some (record { wedged = []; dependency_failing = false })
faults_of machine ((name, r) ∷ rest) = do
  st ← Machine.state machine name
  f ← faults_of machine rest
  some (if same_status st.effective Status.failing then note_fault name r.category f else f)

unfoldable pub recompute_self_faults : Bool → StateMachine → Dict CheckResult → Option (List String)
recompute_self_faults live_on_self_fault machine results =
    if not live_on_self_fault
    then some []
    else do f ← faults_of machine results; some (if f.dependency_failing then [] else f.wedged)

-- live_status, liveness and loop_lag_ms
unfoldable pub loop_lag : Monitor → ℕ → ℕ
loop_lag m now = now - m.loop_beat

unfoldable pub live_status : Monitor → ℕ → Status
unfolding loop_lag
live_status m now =
    if ltb m.lag_threshold (loop_lag m now)
    then Status.failing
    else if not (is_empty m.self_faults)
    then Status.failing
    else Status.ok

unfoldable pub liveness : Monitor → ℕ → Vocabulary.Liveness
liveness m now = liveness_of_status (live_status m now)

-- _aggregate_status: ends the boot grace when every critical check was OK once.
unfoldable pub aggregate_status : Monitor → ℕ → Option (Monitor × Status)
aggregate_status m now = do
  complete ← if m.boot_done then some false else Aggregate.boot_complete m.machine
  let booted = record m {
    boot_done = m.boot_done || complete;
    events = if complete then emit m.events boot_grace_completed else m.events;
  }
  let deadline = if booted.boot_done then none else m.boot_deadline
  status ← Aggregate.aggregate m.machine now deadline
  some (booted, status)

unfoldable pub readiness : Monitor → ℕ → Option (Monitor × Readiness)
readiness m now = if m.draining then some (m, Readiness.unready) else do
  found ← aggregate_status m now
  some (found.0, Aggregate.readiness found.1 (liveness found.0 now))

unfoldable pub readiness_reasons : Monitor → ℕ → Option (List String)
readiness_reasons m now = do
  lines ← Aggregate.reasons m.machine (liveness m now) now
  some (if m.draining then m.drain_reason ∷ lines else lines)
