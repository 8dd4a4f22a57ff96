-- ===== src/Model.antt =====
-- core/model.py: the status vocabulary, the tables that project it, and the records.
-- Times and durations are whole microseconds, whatever unit the source keeps them in, so its
-- conversions between seconds and milliseconds are identities here.
pub mod Projection
mod Examples
use health_mon.Common.{ℕ, String, Bool, true, false, Option, List, if◌then◌else◌}
use health_mon.Common.Dict.{Dict}

pub data Status : Type 0 where
  ok degraded failing unknown starting disabled : Status

pub data Readiness : Type 0 where
  ready degraded unready starting : Readiness

pub data Liveness : Type 0 where
  alive unalive : Liveness

pub data Evidence : Type 0 where
  observed introspected probed none : Evidence

-- `is` between members of `Status`.
abbrev pub same_status : Status → Status → Bool
same_status Status.ok Status.ok = true
same_status Status.degraded Status.degraded = true
same_status Status.failing Status.failing = true
same_status Status.unknown Status.unknown = true
same_status Status.starting Status.starting = true
same_status Status.disabled Status.disabled = true
same_status _ _ = false

abbrev pub same_readiness : Readiness → Readiness → Bool
same_readiness Readiness.ready Readiness.ready = true
same_readiness Readiness.degraded Readiness.degraded = true
same_readiness Readiness.unready Readiness.unready = true
same_readiness Readiness.starting Readiness.starting = true
same_readiness _ _ = false

abbrev pub same_liveness : Liveness → Liveness → Bool
same_liveness alive alive = true
same_liveness unalive unalive = true
same_liveness _ _ = false

unfoldable pub severity : Status → ℕ
severity Status.disabled = 0
severity Status.ok = 0
severity Status.starting = 1
severity Status.degraded = 2
severity Status.unknown = 2
severity Status.failing = 3

unfoldable pub wire : Status → String
wire Status.ok = "pass"
wire Status.disabled = "pass"
wire Status.starting = "warn"
wire Status.degraded = "warn"
wire Status.unknown = "warn"
wire Status.failing = "fail"

unfoldable pub live_code : Status → ℕ
live_code Status.ok = 200
live_code Status.disabled = 200
live_code Status.starting = 200
live_code Status.degraded = 200
live_code Status.unknown = 200
live_code Status.failing = 200

unfoldable pub ready_code : Status → ℕ
ready_code Status.ok = 200
ready_code Status.disabled = 200
ready_code Status.degraded = 200
ready_code Status.unknown = 200
ready_code Status.starting = 503
ready_code Status.failing = 503

unfoldable pub readiness_from_status : Status → Readiness
readiness_from_status Status.ok = Readiness.ready
readiness_from_status Status.disabled = Readiness.ready
readiness_from_status Status.starting = Readiness.starting
readiness_from_status Status.degraded = Readiness.degraded
readiness_from_status Status.unknown = Readiness.degraded
readiness_from_status Status.failing = Readiness.unready

unfoldable pub readiness_code : Readiness → ℕ
readiness_code Readiness.ready = 200
readiness_code Readiness.degraded = 200
readiness_code Readiness.starting = 503
readiness_code Readiness.unready = 503

unfoldable pub liveness_code : Liveness → ℕ
liveness_code alive = 200
liveness_code unalive = 503

pub data ErrorCategory : Type 0 where
  timeout slow connection_refused connection_lost protocol_error : ErrorCategory
  auth_failed : ErrorCategory
  resource_missing resource_locked config_drift dependency_version : ErrorCategory
  pool_exhausted read_only : ErrorCategory
  heartbeat_timeout broker_alarm broker_shutdown no_consumers not_subscribed : ErrorCategory
  not_consuming credit_exhausted backlog : ErrorCategory
  memory_pressure loading role_changed : ErrorCategory
  stalled poison_loop : ErrorCategory
  stale internal unknown : ErrorCategory

-- The value of a member of `ErrorCategory`.
unfoldable pub category_value : ErrorCategory → String
category_value ErrorCategory.timeout = "timeout"
category_value ErrorCategory.slow = "slow"
category_value ErrorCategory.connection_refused = "connection_refused"
category_value ErrorCategory.connection_lost = "connection_lost"
category_value ErrorCategory.protocol_error = "protocol_error"
category_value ErrorCategory.auth_failed = "auth_failed"
category_value ErrorCategory.resource_missing = "resource_missing"
category_value ErrorCategory.resource_locked = "resource_locked"
category_value ErrorCategory.config_drift = "config_drift"
category_value ErrorCategory.dependency_version = "dependency_version"
category_value ErrorCategory.pool_exhausted = "pool_exhausted"
category_value ErrorCategory.read_only = "read_only"
category_value ErrorCategory.heartbeat_timeout = "heartbeat_timeout"
category_value ErrorCategory.broker_alarm = "broker_alarm"
category_value ErrorCategory.broker_shutdown = "broker_shutdown"
category_value ErrorCategory.no_consumers = "no_consumers"
category_value ErrorCategory.not_subscribed = "not_subscribed"
category_value ErrorCategory.not_consuming = "not_consuming"
category_value ErrorCategory.credit_exhausted = "credit_exhausted"
category_value ErrorCategory.backlog = "backlog"
category_value ErrorCategory.memory_pressure = "memory_pressure"
category_value ErrorCategory.loading = "loading"
category_value ErrorCategory.role_changed = "role_changed"
category_value ErrorCategory.stalled = "stalled"
category_value ErrorCategory.poison_loop = "poison_loop"
category_value ErrorCategory.stale = "stale"
category_value ErrorCategory.internal = "internal"
category_value ErrorCategory.unknown = "unknown"

-- Membership in WEDGED_CATEGORIES.
unfoldable pub is_wedged : ErrorCategory → Bool
is_wedged stalled = true
is_wedged not_consuming = true
is_wedged not_subscribed = true
is_wedged credit_exhausted = true
is_wedged poison_loop = true
is_wedged _ = false

-- The values of an `observed` mapping.
pub data Primitive : Type 0 where
  number : ℕ → Primitive
  text : String → Primitive
  flag : Bool → Primitive

pub record CheckResult : Type 0 where
  pub name : String
  pub status : Status
  pub checked_at : ℕ
  pub wall_clock : ℕ
  pub evidence : Evidence
  pub latency : Option ℕ
  pub category : Option ErrorCategory
  pub evidence_age : Option ℕ
  pub detail : Option String
  pub observed : Dict Primitive

pub record Snapshot : Type 0 where
  pub status : Status
  pub live_status : Status
  pub results : Dict CheckResult
  pub built_at : ℕ
  pub wall_clock : ℕ
  pub uptime : ℕ
  pub reasons : List String
  pub draining : Bool

unfoldable pub liveness_of_status : Status → Liveness
liveness_of_status Status.ok = alive
liveness_of_status _ = unalive

-- Snapshot.liveness, Snapshot.readiness, Snapshot.ready_code and Snapshot.live_code
unfoldable pub snapshot_liveness : Snapshot → Liveness
unfolding liveness_of_status
snapshot_liveness s = liveness_of_status s.live_status

unfoldable pub snapshot_readiness : Snapshot → Readiness
unfolding snapshot_liveness readiness_from_status
snapshot_readiness s =
    if s.draining
    then Readiness.unready
    else if same_liveness (snapshot_liveness s) unalive
    then Readiness.unready
    else readiness_from_status s.status

unfoldable pub snapshot_ready_code : Snapshot → ℕ
unfolding snapshot_readiness readiness_code
snapshot_ready_code s = readiness_code (snapshot_readiness s)

unfoldable pub snapshot_live_code : Snapshot → ℕ
unfolding snapshot_liveness liveness_code
snapshot_live_code s = liveness_code (snapshot_liveness s)
