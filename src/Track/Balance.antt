-- ===== src/Track/Balance.antt =====
-- The counters of the tracker against the calls that entered and left it, in any interleaving.
use health_mon.Common.{
  ℕ, suc, zero, ◌+◌, Bool, true, false, String, Option, none, some, List, [], ◌∷◌,
}
use health_mon.Processing.{QueueCounters}
use health_mon.Track.{Tracker, Shape, Exit, begin, outcome, leave}

-- A handler is called, or a call of it ends.
pub data Step : Type 0 where
  enter : String → ℕ → Step
  exit : Shape → Exit → String → ℕ → ℕ → Step

unfoldable pub step : Step → Tracker → Tracker
step (enter q now) t = begin q now t
step (exit shape how q started now) t = leave shape how q started now t

unfoldable pub steps : List Step → Tracker → Tracker
unfolding step
steps [] t = t
steps (s ∷ rest) t = steps rest (step s t)

abbrev pub overall : Tracker → QueueCounters
overall t = t.state.overall

abbrev weight : Option Bool → ℕ
weight none = 0
weight (some _) = 1

-- The calls that began, that the tracker saw end, and that left it unseen.
unfoldable pub entered : List Step → ℕ
entered [] = 0
entered (enter _ _ ∷ rest) = suc (entered rest)
entered (exit _ _ _ _ _ ∷ rest) = entered rest

unfoldable pub ended : List Step → ℕ
ended [] = 0
ended (enter _ _ ∷ rest) = ended rest
ended (exit shape how _ _ _ ∷ rest) = weight (outcome shape how) + ended rest

-- At every time no more calls have ended than have begun, of `running` that run at the start.
unfoldable pub nested : ℕ → List Step → Bool
nested running [] = true
nested running (enter _ _ ∷ rest) = nested (suc running) rest
nested zero (exit _ _ _ _ _ ∷ rest) = false
nested (suc running) (exit _ _ _ _ _ ∷ rest) = nested running rest
