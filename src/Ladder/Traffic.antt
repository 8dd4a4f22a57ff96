-- ===== src/Ladder/Traffic.antt =====
-- The traffic log of checks/base.py against the history of what was reported to it.
use health_mon.Common.{
  ℕ, Bool, ◌≡◌, refl, ◌∙◌, ap, inl, inr, String, str_eq, Option, List, [], ◌∷◌, arith, filter,
  if◌then◌else◌, Bool-cases, eq_iff,
}
use health_mon.Common.Dict.{lookup, lookup-insert}
use health_mon.Model.{ErrorCategory}
use health_mon.Ladder.{
  TrafficRecord, TrafficLog, no_traffic, record_or_new, note, note_success, note_failure, success,
  failure, get,
}

pub data Call : Type 0 where
  succeeded : Option ℕ → Call
  failed : ErrorCategory → Call

-- A call of a dependency by the worker itself.
pub record Use : Type 0 where
  pub dependency : String
  pub call : Call
  pub at : ℕ

abbrev pub note_call : Call → ℕ → TrafficRecord → TrafficRecord
note_call (succeeded latency) at = note_success latency at
note_call (failed category) at = note_failure category at

abbrev pub log_call : Call → String → ℕ → TrafficLog → TrafficLog
log_call (succeeded latency) dep at = success dep latency at
log_call (failed category) dep at = failure dep category at

-- The log after a history, and the record that one list of calls gives; the newest is first.
abbrev pub log_after : List Use → TrafficLog
log_after [] = []
log_after (u ∷ older) = log_call u.call u.dependency u.at (log_after older)

abbrev pub record_of : List Use → TrafficRecord
record_of [] = no_traffic
record_of (u ∷ older) = note_call u.call u.at (record_of older)

abbrev pub is_of : String → Use → Bool
is_of dep u = str_eq u.dependency dep

log_call-note :
    (c : Call) (dep : String) (at : ℕ) (log : TrafficLog)
    → log_call c dep at log ≡ note (note_call c at) dep log
unfolding success failure
log_call-note (succeeded latency) dep at log = refl
log_call-note (failed category) dep at log = refl

get-note :
    (f : TrafficRecord → TrafficRecord) (p dep : String) (log : TrafficLog)
    → record_or_new (get dep (note f p log))
      ≡ (if str_eq p dep then f (record_or_new (get dep log)) else record_or_new (get dep log))
unfolding get note
get-note f p dep log =
    ground (arith, lookup-insert p dep (f (record_or_new (lookup p log))) log, eq_iff p dep)

-- After any calls, what the log holds of a dependency is what the calls of that dependency alone
-- come to: the traffic of one dependency is never evidence about another.
pub traffic_of_history :
    (history : List Use) (dep : String)
    → record_or_new (get dep (log_after history)) ≡ record_of (filter (is_of dep) history)
unfolding get lookup
traffic_of_history [] dep = refl
traffic_of_history (u ∷ older) dep =
    ap (λ log. record_or_new (get dep log))
      (log_call-note u.call u.dependency u.at (log_after older))
    ∙ get-note (note_call u.call u.at) u.dependency dep (log_after older)
    ∙ elim (Bool-cases (str_eq u.dependency dep)) [
      | inl mine ↦ rw mine (ap (note_call u.call u.at) (traffic_of_history older dep))
      | inr other ↦ rw other (traffic_of_history older dep)
    ]
