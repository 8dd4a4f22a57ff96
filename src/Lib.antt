-- ===== src/Lib.antt =====
-- Verification of worker-health: the health monitor of a queue worker (src/worker_health in the
-- repository).
--
-- The program. A worker registers checks of its dependencies. A runner evaluates each check when
-- it is due and hands the result to the HealthMonitor. The monitor feeds it to the StateMachine,
-- which keeps one state for each check (hysteresis, backoff, the next due time), stores it, works
-- out which checks report a fault of this very process, emits events when a status changes, and
-- lets the RestartPolicy look at a snapshot. /ready, /live and /health read the state: the
-- aggregate over the enabled checks, the lag of the health loop, the self-faults, and whether the
-- worker drains.
--
-- Which file models which part:
-- - Model: src/worker_health/core/model.py. Enums are data types, the mapping tables are
--   functions, CheckResult and Snapshot are records with the fields that some decision reads.
-- - Machine: src/worker_health/core/machine.py. Machine/Check has what each method of
--   StateMachine does to the settings and the state of one check (apply is `apply_check`,
--   _schedule is `schedule`, _ttl is `check_ttl`, effective is `check_effective`); Machine lifts
--   it to the two dicts. Its other modules hold the theorems: Hysteresis and Backoff on histories
--   of the writes to a check, Schedule on jitter and the ladder of intervals, Freshness on the
--   time to live, Invariant, Registry, Operations and Runs on sequences of operations.
-- - Aggregate: src/worker_health/core/aggregate.py, with Verdict, Views, Worker and Reasons.
-- - Timing: src/worker_health/core/timing.py, with Newest, Sorted and Percentiles.
-- - Restart: src/worker_health/policy/restart.py, with Budget and Firing.
-- - Events: src/worker_health/telemetry/events.py, with Recent.
-- - Monitor: src/worker_health/monitor.py. Monitor has the state and the reads, Monitor/Intake
--   the snapshot, `apply`, `tick` and `begin_shutdown`; Drain, Frame, Wedge and Report hold the
--   theorems, and Calls takes any sequence of the monitor's calls, with the invariant of Sound.
-- - Runner: src/worker_health/runners/base.py and thread_.py. The thread pool is the environment:
--   an evaluation in flight ends at any time between two cycles of the scheduler, or never; how
--   many threads the pool has is not modelled. Ready has the invariant, Cycle the runs of the
--   scheduler, Dispatch and Late the theorems on starting evaluations and on results after a
--   timeout.
-- - Processing: src/worker_health/checks/processing.py, with Counters (histories of what handlers
--   report) and Verdicts (what the check reports).
-- - Ladder: src/worker_health/checks/base.py, with Traffic (histories of calls) and Order (which
--   evidence decides, and the latency policy); Outcome has the results that adapters build.
-- - Probes: src/worker_health/probes/spec.py and factory.py. Probes has configuration values and
--   exceptions, Spec the validation, Definition from_raw, Context the references in params,
--   Factory the installation. Fields, Bounds and Acceptable are about what the validation
--   accepts, Registered about what the state machine gets, Tame and Lenient about the exceptions
--   of an installation.
-- - Config: src/worker_health/config.py, with Precedence (which source decides a setting). It
--   reads its list of probes by Probes/Definition.
-- - Track: src/worker_health/track.py, with Balance (the counters under interleaved calls).
-- - Recorder: src/worker_health/instrument/recorder.py and context.py, with Suppression (probes
--   are no traffic).
-- - Export: the exporter of src/worker_health/telemetry/otel.py, with Accounts (which payloads
--   are counted) and Outage (what the queue holds while the collector is away).
-- - Broker: src/worker_health/checks/rabbitmq.py and instrument/pika_.py. Broker has the state of
--   the connection and the check, Amqp the classification of exceptions, Probe the probe on the
--   connection's thread, Session the callbacks, the replacement of the connection by
--   reconnect_amqp of workers/runtime.py, and runs of them. Verdict, Silence, Alarm, Credit and
--   Recovery hold the theorems, Undisturbed what a tick leaves alone.
-- - Yaml: src/worker_health/_yaml.py, the reader that is used without PyYAML. Yaml has the values
--   and the errors, Lexis the significant lines, Scalar the scalars, Parser the blocks, Render a
--   printer. Fuel, Words and Total show that the fuel is enough, Quotes, Turns and RoundTrip that
--   lines that are printed are read back.
-- - Common: the shared library names, Boolean tests on native numbers, lists, and Python's
--   insertion-ordered dict as an association list.
-- Each Examples file holds tests on concrete inputs, and applies the theorems to them.
--
-- Conventions. Times and durations are natural numbers of microseconds on the monotonic clock;
-- jitter, the backoff multiplier and random draws are counted in thousandths, and a quotient is
-- rounded down where no rounding is written. A reading of the clock and a draw of the random
-- generator are arguments of the operation that makes them, and an operation reads the clock
-- once. `none` stands for an exception; in Probes, where callers tell exceptions apart, it is a
-- value. Configuration numbers are integers of thousandths; what the validation of probes makes
-- of NaN or an infinity, or of a `type` or a `name` that is neither a text nor empty, is the
-- failure `unmodelled`. Under the locks each operation is one step, so an interleaving is a
-- sequence of operations. All recursion is structural but for that of the YAML reader, which
-- takes fuel: three turns for each line and three more, and for a scalar one for each character
-- and one more.
--
-- Not modelled: floating-point rounding, the asyncio runner, the wait between two cycles, the
-- probes of the adapters and their builders, PyYAML, Python's limit on recursion, the encoding of
-- telemetry, HTTP and command line transports, framework integrations, instrumentation of
-- third-party clients, logging, listeners, and the rest of the demo programs.
pub mod Common
pub mod Model
pub mod Machine
pub mod Aggregate
pub mod Timing
pub mod Restart
pub mod Events
pub mod Monitor
pub mod Broker
pub mod Probes
pub mod Processing
pub mod Yaml
pub mod Ladder
pub mod Track
pub mod Config
pub mod Export
pub mod Recorder
pub mod Runner
