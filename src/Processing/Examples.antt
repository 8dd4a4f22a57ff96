-- ===== src/Processing/Examples.antt =====
-- Tests of checks/processing.py, and its theorems at concrete inputs.
use health_mon.Common.{ℕ, ◌-◌, ◌<◌, true, ◌≡◌, refl, ◌↔◌, Option, none, some, List, [], ◌∷◌, filter}
use health_mon.Model.{Status, ErrorCategory}
use health_mon.Processing.{
  ProcessingState, ProcessingCheck, Evaluation, has_backlog, evaluate, judge_idle, gone_idle, read,
  no_counters,
}
use health_mon.Processing.Counters.{
  Report, received, succeeded, state_after, counters_of, is_for, counters_of_history,
}
use health_mon.Processing.Verdicts.{idle_since, Arriving, Overdue, not_consuming_iff, stalled_iff}

abbrev billing : List Report
billing =
    record { outcome = succeeded 40; queue = some "billing"; at = 9 }
    ∷ record { outcome = received; queue = some "audit"; at = 8 }
    ∷ record { outcome = received; queue = some "billing"; at = 7 }
    ∷ []

counters_of_history_example :
    (read none (state_after 0 billing) ≡ counters_of billing)
    × (read (some "audit") (state_after 0 billing) ≡ counters_of (filter (is_for "audit") billing))
counters_of_history_example = counters_of_history 0 billing "audit" refl

-- ProcessingCheck with its defaults.
abbrev processing : ProcessingCheck
processing = record {
  name = "processing";
  max_idle = 60_000_000;
  max_since_success = 120_000_000;
  poison_threshold = 10;
}

abbrev looked_at : ℕ → Option ℕ → Evaluation
looked_at now depth = record { now = now; wall = 0; latency = 0; depth = depth }

-- Idle for 70 seconds, on an empty queue and on one with a backlog.
abbrev served : ProcessingState
served = record {
  overall = record no_counters {
    received = 1;
    succeeded = 1;
    last_received_at = some 10;
    last_success_at = some 20;
  };
  started_at = 0;
  queues = [];
}

quiet_or_stuck :
    ((evaluate processing served (looked_at 70_000_000 (some 0))).status ≡ Status.ok)
    × ((evaluate processing served (looked_at 70_000_000 (some 5))).category
        ≡ some ErrorCategory.not_consuming)
unfolding evaluate judge_idle gone_idle
quiet_or_stuck = (refl, refl)

not_consuming_iff_example :
    ((evaluate processing served (looked_at 70_000_000 (some 5))).category
      ≡ some ErrorCategory.not_consuming)
    ↔ ((0 < 10)
        × (has_backlog (some 5) ≡ true)
        × (60_000_000 < 70_000_000 - idle_since (some 10) 0))
not_consuming_iff_example = not_consuming_iff processing served (looked_at 70_000_000 (some 5))

stalled_iff_example :
    ((evaluate processing served (looked_at 50_000_000 none)).category ≡ some ErrorCategory.stalled)
    ↔ ((0 < 10)
        × Arriving processing 50_000_000 (some 10)
        × Overdue processing served 50_000_000 (some 20))
stalled_iff_example = stalled_iff processing served (looked_at 50_000_000 none)
