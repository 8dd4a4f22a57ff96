-- ===== src/Events/Examples.antt =====
-- Tests of telemetry/events.py, and its theorem at a concrete input.
use health_mon.Common.{◌≡◌, refl, none, some, [], ◌∷◌, ◌++◌, arith, newest}
use health_mon.Model.{Status, ErrorCategory, CheckResult}
use health_mon.Machine.Examples.{result}
use health_mon.Events.{
  Emitter, emit_all, recent, transition_events, category_event, is_local_fault, worker_started,
  worker_stopped, worker_draining, health_transition, processing_stale_detected,
  local_fault_detected, dependency_recovered,
}
use health_mon.Events.Recent.{recent_of_history}

abbrev small : Emitter
small = record { recent = []; max_recent = 2 }

recent_of_history_example :
    (emit_all small (worker_started ∷ worker_draining "deploy" ∷ worker_stopped ∷ [])).recent
    ≡ newest 2 ([] ++ worker_started ∷ worker_draining "deploy" ∷ worker_stopped ∷ [])
recent_of_history_example =
    recent_of_history small (worker_started ∷ worker_draining "deploy" ∷ worker_stopped ∷ [])
      (omega arith)

-- A limit of 0 gives every recent event.
limits :
    (recent (record small { recent = worker_started ∷ worker_stopped ∷ [] }) 1
      ≡ worker_stopped ∷ [])
    × (recent (record small { recent = worker_started ∷ worker_stopped ∷ [] }) 0
        ≡ worker_started ∷ worker_stopped ∷ [])
unfolding recent
limits = (refl, refl)

abbrev stalled_db : CheckResult
stalled_db = record (result Status.failing 5) { category = some ErrorCategory.stalled }

events_of_a_wedge :
    transition_events "db" Status.ok Status.failing stalled_db
    ≡ health_transition "db" Status.ok Status.failing (some ErrorCategory.stalled)
      ∷ processing_stale_detected "db"
      ∷ local_fault_detected "db" ErrorCategory.stalled
      ∷ []
unfolding transition_events category_event is_local_fault
events_of_a_wedge = refl

events_of_a_recovery :
    transition_events "db" Status.failing Status.ok (result Status.ok 9)
    ≡ health_transition "db" Status.failing Status.ok none
      ∷ dependency_recovered "db" Status.failing
      ∷ []
unfolding transition_events
events_of_a_recovery = refl
