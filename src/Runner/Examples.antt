-- ===== src/Runner/Examples.antt =====
-- Tests of runners/thread_.py on a worker with two checks, and the theorems at that input.
use health_mon.Common.{ℕ, true, ◌≡◌, refl, String, Option, none, some, List, [], ◌∷◌, All, arith}
use health_mon.Common.Dict.{lookup}
use health_mon.Model.{Status, ErrorCategory}
use health_mon.Machine
use health_mon.Machine.Check.{new_state}
use health_mon.Machine.Examples.{db, result as result_at}
use health_mon.Monitor.Intake.{Readings}
use health_mon.Monitor.Examples.{worker, worker-IsSound, at_five}
use health_mon.Runner.{
  Runner, pending, finished, result, escaped, returned, raised, complete, collect_one, collect,
  cycle, run_one, dispatch_one, dispatch,
}
use health_mon.Runner.Ready.{IsReady}
use health_mon.Runner.Cycle.{Turn, schedule, end, take_all, turns_total}
use health_mon.Runner.Dispatch.{Runs, dispatch-Runs}
use health_mon.Runner.Late.{fresh_result_dropped}

abbrev idle : Runner
idle = record {
  monitor = worker;
  period = 100_000;
  last_beat = 0;
  inflight = [];
  started = [];
  timed_out = [];
  actions = [];
}

idle-IsReady : IsReady idle
idle-IsReady = record { sound = worker-IsSound; flying = tt }

abbrev readings : String → Readings
readings _ = at_five

-- A cycle starts both checks; one answers, the other raises; a second cycle takes both in.
abbrev turns : List Turn
turns =
    schedule 10 0 readings
    ∷ end "cache" (raised ErrorCategory.internal) 3
    ∷ end "db" (returned (result_at Status.ok 11)) 4
    ∷ schedule 20 0 readings
    ∷ []

turns_total_example : (w' : Runner) × (take_all turns idle ≡ some w') × IsReady w'
turns_total_example = turns_total turns idle (tt, (tt, (refl, (tt, tt)))) idle-IsReady

-- The runner after a step, or as it was where the step raised.
abbrev or_before : Runner → Option Runner → Runner
or_before w none = w
or_before w (some w') = w'

abbrev dispatched : Runner
dispatched = or_before idle (dispatch 10 0 idle)

dispatches : dispatch 10 0 idle ≡ some dispatched
unfolding dispatch Machine.state lookup health_mon.Common.Dict.insert
dispatches = refl

dispatch-Runs_example : Runs dispatched "db"
unfolding lookup
dispatch-Runs_example =
    dispatch-Runs idle dispatched 10 0 db new_state dispatches refl refl refl (omega arith)

-- "db" hangs for longer than its 3 s, is started again, and then answers.
abbrev hanging : Runner
hanging = record idle { inflight = ("db", pending 10 0) ∷ []; started = ("db", 10) ∷ [] }

abbrev reported : Runner
reported = or_before hanging (collect_one 4_000_000 readings "db" (pending 10 0) hanging)

abbrev restarted : Runner
restarted = or_before reported (dispatch_one 9_000_000 0 "db" reported)

reports : collect_one 4_000_000 readings "db" (pending 10 0) hanging ≡ some reported
unfolding collect_one Machine.spec lookup health_mon.Monitor.Intake.apply Machine.state
    Machine.apply health_mon.Common.Dict.insert health_mon.Monitor.recompute_self_faults
    health_mon.Monitor.faults_of
reports = refl

restarts : dispatch_one 9_000_000 0 "db" reported ≡ some restarted
unfolding collect_one dispatch_one lookup Machine.spec health_mon.Monitor.Intake.apply Machine.state
    Machine.apply health_mon.Common.Dict.insert health_mon.Monitor.recompute_self_faults
    health_mon.Monitor.faults_of health_mon.Common.Dict.delete health_mon.Monitor.Intake.run_policy
    health_mon.Monitor.Intake.policy_step health_mon.Monitor.Intake.accept
restarts = refl

fresh_result_dropped_example :
    let w3 = complete "db" (returned (result_at Status.ok 11)) 4 restarted in
    (lookup "db" w3.inflight ≡ some (finished (result (result_at Status.ok 11))))
    × (w4 : Runner) × (collect_one 10_000_000 readings "db"
          (finished (result (result_at Status.ok 11)))
          w3
        ≡ some w4)
    × (w4.monitor ≡ w3.monitor)
unfolding lookup Machine.spec run_one
fresh_result_dropped_example =
    fresh_result_dropped hanging reported restarted 4_000_000 readings "db" 10 0 db 9_000_000 0
      (returned (result_at Status.ok 11)) 4 10_000_000 readings (result_at Status.ok 11) refl refl
      reports restarts refl

-- A check that raises SystemExit.
abbrev exiting : Runner
exiting = record idle { inflight = ("db", finished escaped) ∷ [] }

scheduler_ends : cycle 20 0 readings exiting ≡ none
unfolding cycle collect
scheduler_ends = refl
