-- ===== src/Recorder/Examples.antt =====
-- A task with probes as a test, and the suppression applied to it.
use health_mon.Common.{◌≡◌, refl, false, none, some, List, [], ◌∷◌}
use health_mon.Model.{ErrorCategory}
use health_mon.Track.{returned, raised}
use health_mon.Recorder.{Task}
use health_mon.Recorder.Suppression.{
  Step, open_probe, close_probe, call, run, outside, Agree, probes_leave_no_traffic,
}

abbrev idle : Task
idle = record {
  active = false;
  tokens = [];
  traffic = [];
  timings = record { maxlen = 10; windows = [] };
}

-- One call of the worker; a probe inside a probe; a call of the worker that fails.
abbrev todo : List Step
todo =
    call "db" returned none 1 3
    ∷ open_probe
    ∷ call "db" raised (some ErrorCategory.timeout) 4 5
    ∷ open_probe
    ∷ close_probe
    ∷ call "db" returned none 6 7
    ∷ close_probe
    ∷ call "cache" raised none 8 9
    ∷ []

abbrev calls : List Step
calls = call "db" returned none 1 3 ∷ call "cache" raised none 8 9 ∷ []

only_calls : (run todo idle).traffic ≡ (run calls idle).traffic
unfolding run health_mon.Recorder.wrapped health_mon.Recorder.close_scope health_mon.Ladder.failure
    health_mon.Recorder.open_scope
only_calls = refl

probes_leave_no_traffic_example : Agree (run todo idle) (outside 0 todo idle)
probes_leave_no_traffic_example = probes_leave_no_traffic todo 0 idle idle (refl, refl) (refl, refl)
