-- ===== src/Aggregate.antt =====
-- core/aggregate.py: the worker's verdict over all enabled checks, the end of the boot grace, and
-- the reasons that go with a verdict. `none` stands for a `KeyError` of the state machine.
pub mod Views
pub mod Verdict
pub mod Worker
pub mod Reasons
mod Examples
use health_mon.Common.{
  ℕ, String, Bool, true, false, not, ◌&&◌, Option, none, some, List, [], ◌∷◌, ◌++◌, append, ltb,
  filter, all, is_empty, is_some, if◌then◌else◌, ◌>>=◌,
}
use health_mon.Model.{
  Status, Readiness, Liveness, ErrorCategory, same_status, same_liveness, severity,
  readiness_from_status, category_value,
}
use health_mon.Machine.{StateMachine, enabled_specs, effective, state}
use health_mon.Machine.Check.{CheckSpec, CheckState}

-- A check and the status it reports: an entry of the dict `effective` of `aggregate`.
abbrev pub View : Type 0
View = CheckSpec × Status

unfoldable pub views_of : StateMachine → ℕ → List CheckSpec → Option (List View)
views_of m now [] = some []
views_of m now (s ∷ rest) = do
  v ← effective m s.name now
  others ← views_of m now rest
  some ((s, v) ∷ others)

abbrev pub is_critical : View → Bool
is_critical v = v.0.critical

abbrev pub is_ok : Status → Bool
is_ok v = same_status v Status.ok

abbrev pub view_ok : View → Bool
view_ok v = is_ok v.1

-- What a reported status counts as in the aggregate.
unfoldable pub demote : CheckSpec → Status → Status
demote spec v =
    let v1 = if same_status v Status.starting then Status.degraded else v in
    let v2 = if same_status v1 Status.failing && not spec.critical then Status.degraded else v1 in
    if same_status v2 Status.unknown
    then (if spec.critical then Status.failing else Status.degraded)
    else v2

-- The loop over the checks, from the worst status so far.
unfoldable pub worst_of : Status → List View → Status
unfolding demote severity
worst_of worst [] = worst
worst_of worst ((spec, v) ∷ rest) =
    let w = demote spec v in
    worst_of
      (if same_status v Status.disabled
        then worst
        else if ltb (severity worst) (severity w)
        then w
        else worst)
      rest

-- The boot grace holds the verdict while its deadline is ahead and a critical check is not OK.
unfoldable pub is_booting : Option ℕ → ℕ → List View → Bool
is_booting none now views = false
is_booting (some deadline) now views =
    let criticals = filter is_critical views in
    ltb now deadline && not (is_empty criticals) && not (all view_ok criticals)

unfoldable pub aggregate : StateMachine → ℕ → Option ℕ → Option Status
aggregate m now deadline =
    let specs = enabled_specs m in
    if is_empty specs then some Status.ok else do
      views ← views_of m now specs
      some (if is_booting deadline now views then Status.starting else worst_of Status.ok views)

-- The loop of `boot_complete`, which returns at the first critical check that was never OK.
unfoldable pub booted : StateMachine → List CheckSpec → Option Bool
booted m [] = some true
booted m (s ∷ rest) =
    let others = booted m rest in
    if not s.critical
    then others
    else do st ← state m s.name; if is_some st.last_ok_at then others else some false

unfoldable pub boot_complete : StateMachine → Option Bool
unfolding booted
boot_complete m = booted m (enabled_specs m)

unfoldable pub readiness : Status → Liveness → Readiness
unfolding readiness_from_status
readiness status liveness =
    if same_liveness liveness Liveness.unalive
    then Readiness.unready
    else readiness_from_status status

category_of : CheckState → String
unfolding category_value
category_of st = elim st.last_result [
  | none ↦ "unknown"
  | some r ↦ elim r.category [ none ↦ "unknown" | some c ↦ category_value c ]
]

kind_of : CheckSpec → String
kind_of spec = if spec.critical then "critical" else "non-critical"

-- The reasons of one check: a line, or nothing.
unfoldable pub reason_of : CheckSpec → Status → CheckState → List String
unfolding category_of kind_of
reason_of spec Status.failing st =
    append (kind_of spec)
      (append " check " (append spec.name (append " is failing (" (append (category_of st) ")"))))
    ∷ []
reason_of spec Status.degraded st =
    append "check " (append spec.name (append " is degraded (" (append (category_of st) ")"))) ∷ []
reason_of spec Status.unknown st =
    append (kind_of spec) (
      append " check " (
        append spec.name (
          if is_some st.last_result
          then " has no current measurement (result older than its ttl)"
          else " has not completed its first evaluation")))
    ∷ []
reason_of spec _ st = []

unfoldable pub check_reasons : StateMachine → ℕ → List CheckSpec → Option (List String)
unfolding reason_of
check_reasons m now [] = some []
check_reasons m now (s ∷ rest) = do
  v ← effective m s.name now
  st ← state m s.name
  others ← check_reasons m now rest
  some (reason_of s v st ++ others)

unfoldable pub reasons : StateMachine → Liveness → ℕ → Option (List String)
unfolding check_reasons
reasons m liveness now = do
  lines ← check_reasons m now (enabled_specs m)
  some (
      (if same_liveness liveness Liveness.unalive
        then "event loop lag above threshold" ∷ []
        else [])
      ++ lines)
