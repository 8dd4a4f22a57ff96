-- ===== src/Processing.antt =====
-- checks/processing.py: the counters that the handlers write, and the check that reads them. A
-- clock reading is an argument, and `latency` is how long the evaluation took. The depth of the
-- queue is what the broker's state gives, if it gives one. Durations are microseconds, so rounding
-- a number of milliseconds to three decimals is the identity. The lock makes each write one step.
pub mod Counters
pub mod Verdicts
mod Examples
use health_mon.Common.{
  ℕ, ◌+◌, ◌-◌, ◌*◌, Bool, true, false, ◌&&◌, String, str_eq, Option, none, some, List, [], ◌∷◌,
  ◌++◌, ltb, leb, if◌then◌else◌,
}
use health_mon.Common.Dict.{Dict, lookup, insert}
use health_mon.Model.{Status, Evidence, ErrorCategory, CheckResult, Primitive, number}
use health_mon.Timing.{round_div}

pub record QueueCounters : Type 0 where
  pub received : ℕ
  pub succeeded : ℕ
  pub failed : ℕ
  pub in_flight : ℕ
  pub last_received_at : Option ℕ
  pub last_success_at : Option ℕ
  pub last_failure_at : Option ℕ
  pub consecutive_failures : ℕ
  pub last_duration : Option ℕ

abbrev pub no_counters : QueueCounters
no_counters = record {
  received = 0;
  succeeded = 0;
  failed = 0;
  in_flight = 0;
  last_received_at = none;
  last_success_at = none;
  last_failure_at = none;
  consecutive_failures = 0;
  last_duration = none;
}

-- ProcessingState: its own counters are those of a queue, over all queues.
pub record ProcessingState : Type 0 where
  pub overall : QueueCounters
  pub started_at : ℕ
  pub queues : Dict QueueCounters

unfoldable pub new_processing : ℕ → ProcessingState
new_processing now = record { overall = no_counters; started_at = now; queues = [] }

-- What the three writers do to one set of counters.
unfoldable pub count_receive : ℕ → QueueCounters → QueueCounters
count_receive now c = record c {
  received = c.received + 1;
  in_flight = c.in_flight + 1;
  last_received_at = some now;
}

unfoldable pub count_success : ℕ → ℕ → QueueCounters → QueueCounters
count_success now duration c = record c {
  succeeded = c.succeeded + 1;
  in_flight = c.in_flight - 1;
  consecutive_failures = 0;
  last_success_at = some now;
  last_duration = some duration;
}

unfoldable pub count_failure : ℕ → ℕ → QueueCounters → QueueCounters
count_failure now duration c = record c {
  failed = c.failed + 1;
  in_flight = c.in_flight - 1;
  consecutive_failures = c.consecutive_failures + 1;
  last_failure_at = some now;
  last_duration = some duration;
}

abbrev pub or_new : Option QueueCounters → QueueCounters
or_new none = no_counters
or_new (some c) = c

-- _queue, and a write to the counters that it gives: no name and the empty name have none.
unfoldable pub on_queue :
    (QueueCounters → QueueCounters) → Option String → Dict QueueCounters → Dict QueueCounters
on_queue f none queues = queues
on_queue f (some q) queues =
    if str_eq q "" then queues else insert q (f (or_new (lookup q queues))) queues

unfoldable pub count :
    (QueueCounters → QueueCounters) → Option String → ProcessingState → ProcessingState
count f queue s = record s { overall = f s.overall; queues = on_queue f queue s.queues }

-- on_receive, on_success and on_failure
unfoldable pub on_receive : ℕ → Option String → ProcessingState → ProcessingState
on_receive now queue s = count (count_receive now) queue s

unfoldable pub on_success : ℕ → ℕ → Option String → ProcessingState → ProcessingState
on_success now duration queue s = count (count_success now duration) queue s

unfoldable pub on_failure : ℕ → ℕ → Option String → ProcessingState → ProcessingState
on_failure now duration queue s = count (count_failure now duration) queue s

-- read, without the start time
unfoldable pub read : Option String → ProcessingState → QueueCounters
read none s = s.overall
read (some q) s = or_new (lookup q s.queues)

pub record ProcessingCheck : Type 0 where
  pub name : String
  pub max_idle : ℕ
  pub max_since_success : ℕ
  pub poison_threshold : ℕ

pub record Evaluation : Type 0 where
  pub now : ℕ
  pub wall : ℕ
  pub latency : ℕ
  pub depth : Option ℕ

entry_of : String → Option ℕ → Dict Primitive
entry_of key none = []
entry_of key (some n) = (key, number n) ∷ []

-- `now - t`, for a time that may not be there
abbrev pub since : ℕ → Option ℕ → Option ℕ
since now none = none
since now (some t) = some (now - t)

-- Seconds to two decimals.
rounded : Option ℕ → Option ℕ
rounded none = none
rounded (some t) = some (round_div t 10_000 * 10_000)

-- The mapping `observed`, as far as every branch has it.
unfoldable pub observed_of : QueueCounters → Evaluation → Dict Primitive
unfolding entry_of rounded
observed_of c at =
    ("received", number c.received)
      ∷ ("succeeded", number c.succeeded)
      ∷ ("failed", number c.failed)
      ∷ ("in_flight", number c.in_flight)
      ∷ ("consecutive_failures", number c.consecutive_failures)
      ∷ entry_of "queue_depth" at.depth
    ++ entry_of "last_duration_ms" c.last_duration
    ++ entry_of "idle_seconds" (rounded (since at.now c.last_received_at))

-- BaseCheck.fail with observed evidence
unfoldable pub fail :
    ProcessingCheck → Evaluation → ErrorCategory → String → Dict Primitive → CheckResult
fail check at category detail observed = record {
  name = check.name;
  status = Status.failing;
  checked_at = at.now;
  wall_clock = at.wall;
  evidence = Evidence.observed;
  latency = some at.latency;
  category = some category;
  evidence_age = some 0;
  detail = some detail;
  observed = observed;
}

unfoldable pub fine :
    ProcessingCheck → Evaluation → Option ℕ → Option String → Dict Primitive → CheckResult
fine check at age detail observed = record {
  name = check.name;
  status = Status.ok;
  checked_at = at.now;
  wall_clock = at.wall;
  evidence = Evidence.observed;
  latency = some at.latency;
  category = none;
  evidence_age = age;
  detail = detail;
  observed = observed;
}

abbrev pub has_backlog : Option ℕ → Bool
has_backlog none = false
has_backlog (some depth) = ltb 0 depth

-- Nothing has ever arrived.
unfoldable pub never_received :
    ProcessingCheck → ProcessingState → Evaluation → Dict Primitive → CheckResult
unfolding fail fine
never_received check s at observed =
    if has_backlog at.depth && ltb check.max_idle (at.now - s.started_at)
    then fail check at ErrorCategory.not_consuming "messages are queued but none have been received"
        observed
    else fine check at none (some "idle, nothing received yet") observed

-- Nothing has arrived for longer than `max_idle`.
unfoldable pub gone_idle : ProcessingCheck → Evaluation → ℕ → Dict Primitive → CheckResult
unfolding fail fine
gone_idle check at idle observed =
    if has_backlog at.depth
    then fail check at ErrorCategory.not_consuming "backlog present but nothing received recently"
        observed
    else fine check at (some idle) (some "idle, queue is empty") observed

-- Work arrives: is any of it completed?
unfoldable pub completing :
    ProcessingCheck → ProcessingState → Evaluation → ℕ → Option ℕ → Dict Primitive → CheckResult
unfolding fail fine entry_of rounded
completing check s at idle (some since_success) observed =
    let seen = observed ++ entry_of "seconds_since_success" (rounded (some since_success)) in
    if ltb check.max_since_success since_success && ltb s.overall.succeeded s.overall.received
    then fail check at ErrorCategory.stalled "messages received but none completed recently" seen
    else fine check at (some idle) none seen
completing check s at idle none observed =
    if ltb 0 s.overall.received && ltb check.max_since_success (at.now - s.started_at)
    then fail check at ErrorCategory.stalled "messages received but none have ever completed"
        observed
    else fine check at (some idle) none observed

unfoldable pub judge_idle :
    ProcessingCheck → ProcessingState → Evaluation → Option ℕ → Dict Primitive → CheckResult
unfolding never_received gone_idle completing
judge_idle check s at none observed = never_received check s at observed
judge_idle check s at (some idle) observed =
    if ltb check.max_idle idle
    then gone_idle check at idle observed
    else completing check s at idle (since at.now s.overall.last_success_at) observed

-- ProcessingCheck.evaluate
unfoldable pub evaluate : ProcessingCheck → ProcessingState → Evaluation → CheckResult
unfolding judge_idle observed_of fail
evaluate check s at =
    let observed = observed_of s.overall at in
    if leb check.poison_threshold s.overall.consecutive_failures
    then fail check at ErrorCategory.poison_loop "handler is failing repeatedly" observed
    else judge_idle check s at (since at.now s.overall.last_received_at) observed
