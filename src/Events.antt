-- ===== src/Events.antt =====
-- telemetry/events.py: which events a change gives, and the bounded list of recent ones. A payload
-- is kept as its event with the fields that vary; time stamps, redaction, log output and the
-- listeners are not modelled.
pub mod Recent
mod Examples
use health_mon.Common.{
  ℕ, ◌-◌, Bool, true, false, ◌&&◌, ◌||◌, String, Option, none, some, List, [], ◌∷◌, ◌++◌, length,
  ltb, drop, ◌==◌, if◌then◌else◌,
}
use health_mon.Model.{Status, Readiness, Liveness, ErrorCategory, CheckResult, same_status}

pub data Event : Type 0 where
  worker_started worker_stopped worker_health_configured restart_requested : Event
  boot_grace_started boot_grace_completed : Event
  worker_draining : String → Event
  health_transition : String → Status → Status → Option ErrorCategory → Event
  dependency_recovered : String → Status → Event
  processing_stale_detected queue_lag_threshold_crossed probe_timeout : String → Event
  probe_error : String → ErrorCategory → Event
  local_fault_detected : String → ErrorCategory → Event
  readiness_changed : Readiness → Readiness → List String → Event
  liveness_changed : Liveness → Liveness → Event
  check_registered : String → Event

pub record Emitter : Type 0 where
  pub recent : List Event
  pub max_recent : ℕ

-- EventEmitter.emit, as far as the list of recent events goes.
unfoldable pub emit : Emitter → Event → Emitter
emit e event =
    let longer = e.recent ++ event ∷ [] in
    record e {
      recent =
          if ltb e.max_recent (length longer)
          then drop (length longer - e.max_recent) longer
          else longer;
    }

unfoldable pub emit_all : Emitter → List Event → Emitter
emit_all e [] = e
emit_all e (event ∷ rest) = emit_all (emit e event) rest

-- EventEmitter.recent: `[-0:]` is the whole list.
unfoldable pub recent : Emitter → ℕ → List Event
recent e limit = if limit == 0 then e.recent else drop (length e.recent - limit) e.recent

-- LOCAL_FAULT_CATEGORIES
unfoldable pub is_local_fault : ErrorCategory → Bool
is_local_fault ErrorCategory.stalled = true
is_local_fault ErrorCategory.not_consuming = true
is_local_fault ErrorCategory.not_subscribed = true
is_local_fault ErrorCategory.credit_exhausted = true
is_local_fault ErrorCategory.poison_loop = true
is_local_fault ErrorCategory.internal = true
is_local_fault _ = false

-- CATEGORY_EVENTS
unfoldable pub category_event : String → ErrorCategory → List Event
category_event name ErrorCategory.stalled = processing_stale_detected name ∷ []
category_event name ErrorCategory.not_consuming = processing_stale_detected name ∷ []
category_event name ErrorCategory.backlog = queue_lag_threshold_crossed name ∷ []
category_event name ErrorCategory.timeout = probe_timeout name ∷ []
category_event name _ = []

failure_events : String → Option ErrorCategory → List Event
failure_events name none = []
failure_events name (some c) =
    category_event name c ++ (if is_local_fault c then local_fault_detected name c ∷ [] else [])

-- The events of EventEmitter.transition, in order.
unfoldable pub transition_events : String → Status → Status → CheckResult → List Event
unfolding failure_events
transition_events name previous current result =
    health_transition name previous current result.category
    ∷ (if same_status current Status.ok
          && (same_status previous Status.failing || same_status previous Status.degraded)
        then dependency_recovered name previous ∷ []
        else if same_status current Status.failing
        then failure_events name result.category
        else [])
