-- ===== src/Processing/Verdicts.antt =====
-- What the check of checks/processing.py reports.
use health_mon.Common.{ℕ, ◌-◌, ◌≤◌, ◌<◌, true, ◌≡◌, ◌↔◌, String, Option, none, some, arith}
use health_mon.Common.Dict.{Dict}
use health_mon.Model.{Status, ErrorCategory, Primitive}
use health_mon.Processing.{
  ProcessingState, ProcessingCheck, Evaluation, has_backlog, since, evaluate, judge_idle,
  completing, on_receive, count, count_receive,
}

-- The last arrival, or the start where nothing ever arrived.
abbrev pub idle_since : Option ℕ → ℕ → ℕ
idle_since none started = started
idle_since (some t) started = t

not_consuming_of :
    (check : ProcessingCheck) (s : ProcessingState) (at : Evaluation) (last : Option ℕ)
    (observed : Dict Primitive)
    → ((judge_idle check s at (since at.now last) observed).category
        ≡ some ErrorCategory.not_consuming)
      ↔ ((has_backlog at.depth ≡ true) × (check.max_idle < at.now - idle_since last s.started_at))
unfolding judge_idle
not_consuming_of check s at none observed = ground arith
not_consuming_of check s at (some t) observed = ground arith

-- The check reports that the worker does not consume exactly when messages are queued, nothing has
-- arrived for longer than `max_idle` (since the start, if nothing ever did), and the handler is not
-- failing over and over. So a quiet queue is never reported, however long it is quiet.
pub not_consuming_iff :
    (check : ProcessingCheck) (s : ProcessingState) (at : Evaluation)
    → ((evaluate check s at).category ≡ some ErrorCategory.not_consuming) ↔ (
        (s.overall.consecutive_failures < check.poison_threshold)
        × (has_backlog at.depth ≡ true)
        × (check.max_idle < at.now - idle_since s.overall.last_received_at s.started_at))
unfolding evaluate
not_consuming_iff check s at =
    ground (arith, not_consuming_of check s at s.overall.last_received_at)

-- Something has arrived, at most `max_idle` ago.
abbrev pub Arriving : ProcessingCheck → ℕ → Option ℕ → Type 0
Arriving check now none = ⊥
Arriving check now (some t) = now - t ≤ check.max_idle

-- Nothing was completed for longer than `max_since_success`, though something is to be completed.
abbrev pub Overdue : ProcessingCheck → ProcessingState → ℕ → Option ℕ → Type 0
Overdue check s now none = (0 < s.overall.received) × (check.max_since_success < now - s.started_at)
Overdue check s now (some u) =
    (check.max_since_success < now - u) × (s.overall.succeeded < s.overall.received)

completing_stalled :
    (check : ProcessingCheck) (s : ProcessingState) (at : Evaluation) (idle : ℕ) (last : Option ℕ)
    (observed : Dict Primitive)
    → ((completing check s at idle (since at.now last) observed).category
        ≡ some ErrorCategory.stalled)
      ↔ Overdue check s at.now last
unfolding completing
completing_stalled check s at idle none observed = ground arith
completing_stalled check s at idle (some u) observed = ground arith

judge_idle_stalled :
    (check : ProcessingCheck) (s : ProcessingState) (at : Evaluation) (last : Option ℕ)
    (observed : Dict Primitive)
    → ((judge_idle check s at (since at.now last) observed).category ≡ some ErrorCategory.stalled)
      ↔ (Arriving check at.now last × Overdue check s at.now s.overall.last_success_at)
unfolding judge_idle
judge_idle_stalled check s at none observed = ground arith
judge_idle_stalled check s at (some t) observed =
    ground (arith, completing_stalled check s at (at.now - t) s.overall.last_success_at observed)

-- The check reports a stall exactly when the handler is not failing over and over, something has
-- arrived at most `max_idle` ago, and nothing was completed for longer than `max_since_success`:
-- since the last success, while not everything that was received has succeeded, or since the start,
-- if nothing ever succeeded.
pub stalled_iff :
    (check : ProcessingCheck) (s : ProcessingState) (at : Evaluation)
    → ((evaluate check s at).category ≡ some ErrorCategory.stalled) ↔ (
        (s.overall.consecutive_failures < check.poison_threshold)
        × Arriving check at.now s.overall.last_received_at
        × Overdue check s at.now s.overall.last_success_at)
unfolding evaluate
stalled_iff check s at = ground (arith, judge_idle_stalled check s at s.overall.last_received_at)

-- A message that arrives after a pause of more than `max_since_success` since the last success is
-- reported as a stall at once, if the check runs while the handler has it in its hands and the
-- handler is not failing over and over: the age of the last success counts, not the age of the
-- message.
pub stalled_on_arrival :
    (check : ProcessingCheck) (s : ProcessingState) (queue : Option String) (at : Evaluation)
    (t : ℕ)
    → s.overall.last_success_at ≡ some t
    → s.overall.succeeded ≤ s.overall.received
    → s.overall.consecutive_failures < check.poison_threshold
    → check.max_since_success < at.now - t
    → ((evaluate check (on_receive at.now queue s) at).status ≡ Status.failing)
      × ((evaluate check (on_receive at.now queue s) at).category ≡ some ErrorCategory.stalled)
unfolding evaluate judge_idle completing on_receive count count_receive
stalled_on_arrival check s queue at t e le calm late = (ground arith, ground arith)
