-- ===== src/Processing/Counters.antt =====
-- The counters of checks/processing.py against the history of what the handlers reported.
use health_mon.Common.{
  ℕ, Bool, false, ◌≡◌, refl, ◌∙◌, ap, inl, inr, String, str_eq, Option, none, some, List, [], ◌∷◌,
  arith, filter, if◌then◌else◌, Bool-cases, eq_iff,
}
use health_mon.Common.Dict.{lookup, lookup-insert}
use health_mon.Processing.{
  QueueCounters, ProcessingState, no_counters, new_processing, count_receive, count_success,
  count_failure, count, on_queue, or_new, on_receive, on_success, on_failure, read,
}

pub data Outcome : Type 0 where
  received : Outcome
  succeeded failed : ℕ → Outcome

-- What a handler reported, for which queue and when.
pub record Report : Type 0 where
  pub outcome : Outcome
  pub queue : Option String
  pub at : ℕ

abbrev pub count_outcome : Outcome → ℕ → QueueCounters → QueueCounters
count_outcome received at = count_receive at
count_outcome (succeeded duration) at = count_success at duration
count_outcome (failed duration) at = count_failure at duration

abbrev pub take_outcome : Outcome → ℕ → Option String → ProcessingState → ProcessingState
take_outcome received at = on_receive at
take_outcome (succeeded duration) at = on_success at duration
take_outcome (failed duration) at = on_failure at duration

-- The state after a history, and the counters that one set of reports gives; the newest is first.
abbrev pub state_after : ℕ → List Report → ProcessingState
state_after started [] = new_processing started
state_after started (r ∷ older) = take_outcome r.outcome r.at r.queue (state_after started older)

abbrev pub counters_of : List Report → QueueCounters
counters_of [] = no_counters
counters_of (r ∷ older) = count_outcome r.outcome r.at (counters_of older)

abbrev is_named : String → Option String → Bool
is_named q none = false
is_named q (some p) = str_eq p q

abbrev pub is_for : String → Report → Bool
is_for q r = is_named q r.queue

take_outcome-count :
    (o : Outcome) (at : ℕ) (queue : Option String) (s : ProcessingState)
    → take_outcome o at queue s ≡ count (count_outcome o at) queue s
unfolding on_receive on_success on_failure
take_outcome-count received at queue s = refl
take_outcome-count (succeeded duration) at queue s = refl
take_outcome-count (failed duration) at queue s = refl

read_count :
    (f : QueueCounters → QueueCounters) (queue : Option String) (q : String) (s : ProcessingState)
    → str_eq q "" ≡ false
    → read (some q) (count f queue s)
      ≡ (if is_named q queue then f (read (some q) s) else read (some q) s)
unfolding read count on_queue
read_count f none q s h = refl
read_count f (some p) q s h = ground (
  arith,
  lookup-insert p q (f (or_new (lookup p s.queues))) s.queues,
  eq_iff p q,
  eq_iff p "",
  eq_iff q "",
)

-- After any reports of the handlers, the counters over all queues are those of all the reports, and
-- the counters of a queue with a name are those of the reports for that queue alone: the queues
-- share nothing.
pub counters_of_history :
    (started : ℕ) (history : List Report) (q : String)
    → str_eq q "" ≡ false
    → (read none (state_after started history) ≡ counters_of history)
      × (read (some q) (state_after started history) ≡ counters_of (filter (is_for q) history))
unfolding new_processing read count lookup
counters_of_history started [] q h = (refl, refl)
counters_of_history started (r ∷ older) q h =
    let s = state_after started older in
    let (all_of, queue_of) = counters_of_history started older q h in
    let taken = take_outcome-count r.outcome r.at r.queue s in
    (
      ap (read none) taken ∙ ap (count_outcome r.outcome r.at) all_of,
      ap (read (some q)) taken
          ∙ read_count (count_outcome r.outcome r.at) r.queue q s h
          ∙ elim (Bool-cases (is_named q r.queue)) [
            | inl mine ↦ rw mine (ap (count_outcome r.outcome r.at) queue_of)
            | inr other ↦ rw other queue_of
          ],
    )
