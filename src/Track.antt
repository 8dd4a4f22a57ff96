-- ===== src/Track.antt =====
-- Tracker of track.py: what its wrappers around a handler record in the processing counters, the
-- timings and the traffic log. How a wrapped call ends is an argument; the wrapping itself
-- (decorators, classes, callable instances) is not modelled. The clock readings, in microseconds,
-- are arguments too.
pub mod Balance
mod Examples
use health_mon.Common.{
  ℕ, ◌-◌, Bool, true, false, not, String, Option, none, some, List, [], ◌∷◌, is_some, if◌then◌else◌,
}
use health_mon.Common.Dict.{Dict, lookup, insert}
use health_mon.Model.{ErrorCategory}
use health_mon.Timing
use health_mon.Timing.Keys.{handler_duration, stage_duration}
use health_mon.Processing.{ProcessingState, on_receive, on_success, on_failure}
use health_mon.Monitor.{Monitor, note_activity}
use health_mon.Ladder
use health_mon.Ladder.{TrafficLog}

-- `attached` has the queues of `monitor.processing`, each bound to the tracker's own state.
pub record Tracker : Type 0 where
  pub monitor : Monitor
  pub state : ProcessingState
  pub default_queue : String
  pub attached : Dict Bool
  pub traffic : TrafficLog

abbrev pub or_default : Option String → String → String
or_default none default = default
or_default (some String.[]) default = default
or_default (some q) default = q

-- _ensure_queue
unfoldable pub ensure_queue : Option String → Tracker → Tracker × String
ensure_queue queue t =
    let q = or_default queue t.default_queue in
    (
      if is_some (lookup q t.attached) then t else record t { attached = insert q true t.attached },
      q,
    )

-- _begin
unfoldable pub begin : String → ℕ → Tracker → Tracker
begin q now t = record t {
  state = on_receive now (some q) t.state;
  monitor = note_activity t.monitor now;
}

-- _end
unfoldable pub finish : String → ℕ → ℕ → Bool → Tracker → Tracker
finish q started now ok t =
    let duration = now - started in
    record t {
      state =
          if ok
          then on_success now duration (some q) t.state
          else on_failure now duration (some q) t.state;
      monitor =
          note_activity
            (record t.monitor {
              timings = Timing.observe t.monitor.timings (handler_duration q) duration;
            })
            now;
    }

-- What was wrapped: a function, a coroutine, a generator, an asynchronous generator, or the block
-- of the context manager `processing`. The last is an asynchronous generator that was called with
-- arguments that do not fit.
pub data Shape : Type 0 where
  function coroutine generator async_generator block misfit_generator : Shape

-- How the call ended: normally, with an Exception, or with a BaseException that is none
-- (CancelledError, KeyboardInterrupt, SystemExit, GeneratorExit).
pub data Exit : Type 0 where
  returned raised escaped : Exit

-- The `try` of a wrapper: whether it calls _end, and with which `ok`. That of an asynchronous
-- generator begins after the call of `fn`, so arguments that do not fit raise before it.
unfoldable pub outcome : Shape → Exit → Option Bool
outcome misfit_generator _ = none
outcome _ returned = some true
outcome _ raised = some false
outcome generator escaped = some true
outcome async_generator escaped = some true
outcome _ escaped = none

finish_if : Option Bool → String → ℕ → ℕ → Tracker → Tracker
unfolding finish
finish_if none q started now t = t
finish_if (some ok) q started now t = finish q started now ok t

-- _sync_wrapper, _async_wrapper, _gen_wrapper, _async_gen_wrapper and processing, after the call
unfoldable pub leave : Shape → Exit → String → ℕ → ℕ → Tracker → Tracker
unfolding outcome finish_if
leave shape exit q started now t = finish_if (outcome shape exit) q started now t

-- stage
unfoldable pub stage : String → String → ℕ → ℕ → Tracker → Tracker
stage queue name started now t = record t {
  monitor = record t.monitor {
    timings = Timing.observe t.monitor.timings (stage_duration queue name) (now - started);
  };
}

-- dependency. `probing` is is_health_probe_active, and the category is the one that `classify`
-- gives, UNKNOWN where it is missing or raises.
unfoldable pub dependency : String → Bool → Exit → ErrorCategory → ℕ → ℕ → Tracker → Tracker
dependency name true exit category started now t = t
dependency name false returned category started now t = record t {
  traffic = Ladder.success name (some (now - started)) now t.traffic;
}
dependency name false raised category started now t = record t {
  traffic = Ladder.failure name category now t.traffic;
}
dependency name false escaped category started now t = t
