-- ===== src/Recorder.antt =====
-- TrafficRecorder of instrument/recorder.py and the flag of instrument/context.py that keeps the
-- monitor's own probes out of the traffic log. One task's view of the flag is modelled: its value
-- and the tokens of the scopes that are open.
pub mod Suppression
mod Examples
use health_mon.Common.{
  ℕ, ◌-◌, Bool, true, false, String, Option, none, some, List, [], ◌∷◌, if◌then◌else◌,
}
use health_mon.Model.{ErrorCategory}
use health_mon.Timing
use health_mon.Timing.{Timings}
use health_mon.Timing.Keys.{dependency_duration}
use health_mon.Ladder
use health_mon.Ladder.{TrafficLog}
use health_mon.Track.{Exit, returned, raised, escaped}

-- `active` is the ContextVar; a token holds the value from before its scope.
pub record Task : Type 0 where
  pub active : Bool
  pub tokens : List Bool
  pub traffic : TrafficLog
  pub timings : Timings

-- probe_scope, at its begin and in its `finally`
unfoldable pub open_scope : Task → Task
open_scope t = record t { active = true; tokens = t.active ∷ t.tokens }

reset : List Bool → Task → Task
reset [] t = t
reset (before ∷ rest) t = record t { active = before; tokens = rest }

unfoldable pub close_scope : Task → Task
unfolding reset
close_scope t = reset t.tokens t

-- What is written down of a call.
unfoldable pub note_success : String → ℕ → ℕ → Task → Task
note_success dep duration now t = record t {
  traffic = Ladder.success dep (some duration) now t.traffic;
  timings = Timing.observe t.timings (dependency_duration dep) duration;
}

unfoldable pub note_failure : String → ErrorCategory → ℕ → Task → Task
note_failure dep category now t = record t { traffic = Ladder.failure dep category now t.traffic }

-- success
unfoldable pub success : String → ℕ → ℕ → Task → Task
unfolding note_success
success dep duration now t = if t.active then t else note_success dep duration now t

-- `category or self.classify(exc)`. `classified` is what the classifier gives, `none` where there is
-- none, no exception to classify, or it raises.
abbrev pub category_of : Option ErrorCategory → Option ErrorCategory → ErrorCategory
category_of (some category) classified = category
category_of none (some category) = category
category_of none none = ErrorCategory.unknown

-- failure
unfoldable pub failure : String → Option ErrorCategory → Option ErrorCategory → ℕ → Task → Task
unfolding note_failure
failure dep category classified now t =
    if t.active then t else note_failure dep (category_of category classified) now t

-- wrap, after the call
unfoldable pub wrapped : String → Exit → Option ErrorCategory → ℕ → ℕ → Task → Task
unfolding success failure
wrapped dep returned classified started now t = success dep (now - started) now t
wrapped dep raised classified started now t = failure dep none classified now t
wrapped dep escaped classified started now t = t
