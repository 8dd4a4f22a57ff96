-- ===== src/Runner.antt =====
-- runners/base.py and runners/thread_.py: the scheduler thread of the ThreadRunner and its bounded
-- pool. What the pool does is left to the environment: a submitted evaluation is `pending` until it
-- is `finished`, at any time, or never. A set of names is a dict of `true`. The readings that
-- an intake makes are a function of the check's name, since a cycle takes in one result for each
-- check at most. The thread, the number of the pool's threads and the waiting between cycles are not
-- modelled: a submitted evaluation may wait for a free thread for ever. `none` is an exception that
-- ends the scheduler thread.
pub mod Ready
pub mod Cycle
pub mod Dispatch
pub mod Late
mod Examples
use health_mon.Common.{
  ℕ, ◌+◌, ◌-◌, Bool, true, false, not, ◌&&◌, String, Option, none, some, List, [], ◌∷◌, ◌++◌, ltb,
  leb, ◌==◌, is_some, if◌then◌else◌, ◌>>=◌,
}
use health_mon.Common.Dict.{Dict, lookup, insert, delete, values}
use health_mon.Model.{Status, Evidence, ErrorCategory, CheckResult}
use health_mon.Machine
use health_mon.Machine.{StateMachine, update_state}
use health_mon.Machine.Check.{CheckSpec, CheckState}
use health_mon.Timing
use health_mon.Timing.{Timings}
use health_mon.Timing.Keys.{check_duration, check_schedule_lag, check_evidence_age, loop_lag_key}
use health_mon.Events.{emit, probe_timeout, probe_error}
use health_mon.Restart.{Action}
use health_mon.Monitor.{Monitor}
use health_mon.Monitor.Intake.{Readings, apply, tick}

-- How _run_one ended: with a result, with an Exception (one that its own last lines raise), or with a
-- BaseException that is none, which its `except` lets through (SystemExit, a CancelledError).
pub data Ended : Type 0 where
  result : CheckResult → Ended
  failed escaped : Ended

-- A submitted evaluation: its context, until it is finished.
pub data Future : Type 0 where
  pending : ℕ → ℕ → Future
  finished : Ended → Future

pub record Runner : Type 0 where
  pub monitor : Monitor
  pub period : ℕ
  pub last_beat : ℕ
  pub inflight : Dict Future
  pub started : Dict ℕ
  pub timed_out : Dict Bool
  pub actions : List Action

-- base.due_checks
unfoldable pub due_checks : StateMachine → ℕ → List CheckSpec → Option (List String)
due_checks machine now [] = some []
due_checks machine now (s ∷ rest) =
    let others = due_checks machine now rest in
    if not s.enabled then others else do
      st ← Machine.state machine s.name
      later ← others
      some (if leb st.next_due now then s.name ∷ later else later)

-- base.record_schedule_lag: a due time of 0 is one that was never set.
unfoldable pub record_schedule_lag : String → ℕ → CheckState → Timings → Timings
record_schedule_lag name now st timings =
    if st.next_due == 0
    then timings
    else Timing.observe timings (check_schedule_lag name) (now - st.next_due)

unfoldable pub timeout_result : String → ℕ → ℕ → ℕ → CheckResult
timeout_result name now wall timeout = record {
  name = name;
  status = Status.failing;
  checked_at = now;
  wall_clock = wall;
  evidence = Evidence.probed;
  latency = some timeout;
  category = some ErrorCategory.timeout;
  evidence_age = some 0;
  detail = some "check exceeded its timeout";
  observed = [];
}

unfoldable pub error_result : String → ℕ → ℕ → ErrorCategory → Option String → CheckResult
error_result name now wall category detail = record {
  name = name;
  status = Status.unknown;
  checked_at = now;
  wall_clock = wall;
  evidence = Evidence.none;
  latency = none;
  category = some category;
  evidence_age = some 0;
  detail = detail;
  observed = [];
}

-- What a check's own code came to: its result; an Exception, with the category that `classify` gives
-- it (`internal`, where that raises too); something that is no result, on which the last lines of
-- _run_one raise an Exception; or a BaseException.
pub data Evaluated : Type 0 where
  returned : CheckResult → Evaluated
  raised : ErrorCategory → Evaluated
  malformed : Evaluated
  broke_out : Evaluated

observe_age : String → Option ℕ → Timings → Timings
observe_age name none t = t
observe_age name (some age) t = Timing.observe t (check_evidence_age name) age

-- The lines of _run_one after its `try`
unfoldable pub timed : String → ℕ → CheckResult → Monitor → Monitor
unfolding observe_age
timed name duration r m = record m {
  timings =
      observe_age name r.evidence_age (Timing.observe m.timings (check_duration name) duration);
}

-- _run_one, on a thread of the pool
unfoldable pub run_one : String → ℕ → ℕ → Evaluated → ℕ → Monitor → Monitor × Ended
unfolding timed error_result
run_one name now wall (returned r) duration m = (timed name duration r m, result r)
run_one name now wall (raised category) duration m =
    let r = error_result name now wall category (some "check raised") in
    (
      timed name duration r (record m { events = emit m.events (probe_error name category) }),
      result r,
    )
run_one name now wall malformed duration m =
    (record m { timings = Timing.observe m.timings (check_duration name) duration }, failed)
run_one name now wall broke_out duration m = (m, escaped)

unfoldable pub finish : String → Evaluated → ℕ → Option Future → Runner → Runner
finish name e duration (some (pending now wall)) w =
    let (m, ended) = run_one name now wall e duration w.monitor in
    record w { monitor = m; inflight = insert name (finished ended) w.inflight }
finish name e duration _ w = w

-- The pool ends the evaluation of a name that is in flight.
unfoldable pub complete : String → Evaluated → ℕ → Runner → Runner
unfolding finish
complete name e duration w = finish name e duration (lookup name w.inflight) w

-- self._m.apply
unfoldable pub hand_in : CheckResult → Readings → Runner → Option Runner
hand_in r at w = do
  found ← apply w.monitor r at
  some (record w { monitor = found.0; actions = w.actions ++ found.1 ∷ [] })

abbrev pub overdue : ℕ → Option ℕ → ℕ → Bool
overdue now none timeout = false
overdue now (some started) timeout = ltb timeout (now - started)

-- The branch of _collect for an evaluation that runs for longer than its timeout.
unfoldable pub time_out : String → ℕ → Readings → Runner → Option Runner
unfolding hand_in timeout_result
time_out name timeout at w = hand_in (timeout_result name at.now at.wall timeout) at (record w {
  monitor = record w.monitor { events = emit w.monitor.events (probe_timeout name) };
  inflight = delete name w.inflight;
  started = delete name w.started;
  timed_out = insert name true w.timed_out;
})

-- The branch for a finished one. `fut.result()` raises again what ended _run_one, and the `except`
-- around it catches an Exception only.
unfoldable pub settle : String → Ended → Readings → Runner → Option Runner
unfolding hand_in
settle name escaped at w = none
settle name failed at w = some w
settle name (result r) at w =
    if is_some (lookup name w.timed_out)
    then some (record w { timed_out = delete name w.timed_out })
    else hand_in r at w

unfoldable pub collect_one : ℕ → (String → Readings) → String → Future → Runner → Option Runner
unfolding time_out settle
collect_one now at name (pending _ _) w = do
  spec ← Machine.spec w.monitor.machine name
  if overdue now (lookup name w.started) spec.timeout
      then time_out name spec.timeout (at name) w
      else some w
collect_one now at name (finished o) w =
    settle name o (at name)
      (record w { inflight = delete name w.inflight; started = delete name w.started })

-- _collect, over the futures that are in flight when it begins
unfoldable pub collect : ℕ → (String → Readings) → Dict Future → Runner → Option Runner
unfolding collect_one
collect now at [] w = some w
collect now at ((name, future) ∷ rest) w = do
  w' ← collect_one now at name future w
  collect now at rest w'

abbrev pub is_running : Option Future → Bool
is_running (some (pending _ _)) = true
is_running _ = false

-- The body of _dispatch's loop
unfoldable pub dispatch_one : ℕ → ℕ → String → Runner → Option Runner
dispatch_one now wall name w = if is_running (lookup name w.inflight) then some w else do
  st ← Machine.state w.monitor.machine name
  machine ←
      update_state (λ spec st. record st { next_due = now + spec.interval }) w.monitor.machine name
  some (record w {
    monitor = record w.monitor {
      machine = machine;
      timings = record_schedule_lag name now st w.monitor.timings;
    };
    started = insert name now w.started;
    inflight = insert name (pending now wall) w.inflight;
  })

unfoldable pub dispatch_all : ℕ → ℕ → List String → Runner → Option Runner
unfolding dispatch_one
dispatch_all now wall [] w = some w
dispatch_all now wall (name ∷ rest) w = do
  w' ← dispatch_one now wall name w
  dispatch_all now wall rest w'

-- _dispatch
unfoldable pub dispatch : ℕ → ℕ → Runner → Option Runner
unfolding due_checks dispatch_all
dispatch now wall w = do
  due ← due_checks w.monitor.machine now (values w.monitor.machine.specs)
  dispatch_all now wall due w

abbrev pub or_same : Monitor → Option Monitor → Monitor
or_same m none = m
or_same m (some m') = m'

-- How late the cycle is, and the beat of the health loop.
unfoldable pub beat : ℕ → Runner → Runner
beat now w = record w {
  last_beat = now;
  monitor = record w.monitor {
    loop_beat = now;
    timings = Timing.observe w.monitor.timings loop_lag_key (now - (w.last_beat + w.period));
  };
}

-- One turn of _loop. An exception of `tick` is swallowed.
unfoldable pub cycle : ℕ → ℕ → (String → Readings) → Runner → Option Runner
unfolding beat collect dispatch
cycle now wall at w = do
  collected ← collect now at w.inflight (beat now w)
  dispatched ← dispatch now wall collected
  some (record dispatched {
    monitor =
        or_same dispatched.monitor
          (tick dispatched.monitor now (some (now - (w.last_beat + w.period))));
  })
