-- ===== src/Track/Examples.antt =====
-- The tracker as tests, and the balance applied to a run of calls.
use health_mon.Common.{◌≡◌, refl, true, List, [], ◌∷◌, none}
use health_mon.Processing.{new_processing}
use health_mon.Monitor.Examples.{worker}
use health_mon.Model.{ErrorCategory}
use health_mon.Track.{
  Tracker, Shape, function, coroutine, generator, Exit, returned, raised, escaped, ensure_queue,
  leave, stage, dependency,
}
use health_mon.Track.Balance.{Step, enter, exit, steps, overall}

abbrev tracker : Tracker
tracker = record {
  monitor = worker;
  state = record {
    overall = record {
      received = 0;
      succeeded = 0;
      failed = 0;
      in_flight = 0;
      consecutive_failures = 0;
      last_received_at = none;
      last_success_at = none;
      last_failure_at = none;
      last_duration = none;
    };
    started_at = 0;
    queues = [];
  };
  default_queue = "in";
  attached = [];
  traffic = [];
}

-- Two calls overlap; one is cancelled, the other returns. A generator is closed early.
abbrev calls : List Step
calls =
    enter "in" 1
    ∷ enter "in" 2
    ∷ exit coroutine escaped "in" 1 3
    ∷ exit function returned "in" 2 5
    ∷ enter "in" 6
    ∷ exit generator escaped "in" 6 7
    ∷ []

-- The cancelled call stays in flight.
leaks : (overall (steps calls tracker)).in_flight ≡ 1
unfolding steps leave health_mon.Processing.on_success health_mon.Processing.count
    health_mon.Processing.count_success health_mon.Track.begin health_mon.Processing.on_receive
    health_mon.Processing.count_receive
leaks = refl

defaults : (ensure_queue none tracker).1 ≡ "in"
unfolding ensure_queue
defaults = refl

-- Nothing is noted of a call that a health probe makes.
probe_unnoted : dependency "db" true raised ErrorCategory.timeout 1 4 tracker ≡ tracker
unfolding dependency
probe_unnoted = refl
