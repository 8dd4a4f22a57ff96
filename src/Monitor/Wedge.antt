-- ===== src/Monitor/Wedge.antt =====
-- When /live fails (monitor.py, `_recompute_self_faults`, `live_status` and `apply`).
use mathlib.Core.Path.{subst}
use health_mon.Common.{
  ℕ, ◌-◌, ◌<◌, Bool, true, false, not, ◌&&◌, ◌||◌, String, ◌≡◌, refl, ◌↔◌, ◌⊎◌, inl, inr, Option,
  none, some, List, [], ◌∷◌, AnyOf, is_empty, arith, if◌then◌else◌, >>=-eq-some, some_inj,
  Bool-cases,
}
use health_mon.Common.Dict.{Dict, lookup, insert}
use health_mon.Model.{Status, ErrorCategory, CheckResult, same_status, is_wedged}
use health_mon.Machine
use health_mon.Machine.{StateMachine}
use health_mon.Machine.Check.{CheckState}
use health_mon.Monitor.{Monitor, Faults, faults_of, note_fault, recompute_self_faults, live_status}
use health_mon.Monitor.Frame.{run_policy_same}
use health_mon.Monitor.Intake.{apply, accept, Readings}
use health_mon.Restart.{Action}

-- A stored result of a check that is confirmed failing, with a cause of the given kind.
abbrev pub FailsWith : Bool → StateMachine → String × CheckResult → Type 0
FailsWith wedged machine (name, r) =
    ((st : CheckState) × (lookup name machine.states ≡ some st) × (st.effective ≡ Status.failing))
    × ((c : ErrorCategory) × (r.category ≡ some c) × (is_wedged c ≡ wedged))

-- A check that reports a fault of this process, and one that reports a broken dependency.
abbrev pub Wedge : StateMachine → String × CheckResult → Type 0
Wedge = FailsWith true

abbrev pub Outage : StateMachine → String × CheckResult → Type 0
Outage = FailsWith false

abbrev has_cause : Bool → Option ErrorCategory → Bool
has_cause wedged none = false
has_cause true (some c) = is_wedged c
has_cause false (some c) = not (is_wedged c)

abbrev fails_with : Bool → CheckState → CheckResult → Bool
fails_with wedged st r = same_status st.effective Status.failing && has_cause wedged r.category

fails_with_iff :
    (wedged : Bool) (machine : StateMachine) (name : String) (r : CheckResult) (st : CheckState)
    → lookup name machine.states ≡ some st
    → (fails_with wedged st r ≡ true) ↔ FailsWith wedged machine (name, r)
fails_with_iff true machine name r st e =
    (λ h. ((st, e, ground arith), ground arith), λ w. ground arith)
fails_with_iff false machine name r st e =
    (λ h. ((st, e, ground arith), ground arith), λ w. ground arith)

note_fault_counts :
    (name : String) (st : CheckState) (r : CheckResult) (f : Faults)
    → let f' =
        if same_status st.effective Status.failing then note_fault name r.category f else f in
      (is_empty f'.wedged ≡ not (fails_with true st r) && is_empty f.wedged)
      × (f'.dependency_failing ≡ fails_with false st r || f.dependency_failing)
note_fault_counts name st r f = (ground arith, ground arith)

iff_of {ℓ} : {P : Type ℓ} (x b : Bool) → x ≡ b → (b ≡ true) ↔ P → (x ≡ true) ↔ P
iff_of x b e h = rw e h

any_iff :
    (wedged : Bool) (machine : StateMachine) (name : String) (r : CheckResult) (st : CheckState)
    (b : Bool) (rest : Dict CheckResult)
    → lookup name machine.states ≡ some st
    → (b ≡ true) ↔ AnyOf (FailsWith wedged machine) rest
    → (fails_with wedged st r || b ≡ true) ↔ AnyOf (FailsWith wedged machine) ((name, r) ∷ rest)
any_iff wedged machine name r st b rest e later =
    let here = fails_with_iff wedged machine name r st e in
    (
      λ h. elim (Bool-cases (fails_with wedged st r)) [
        | inl yes_here ↦ inl (here.0 yes_here)
        | inr not_here ↦ inr (later.0 (ground arith))
      ],
      λ w. elim w [
        | inl fails ↦ rw (here.1 fails) refl
        | inr others ↦ ground (arith, later.1 others)
      ],
    )

-- What the loop over the stored results finds.
faults_exact :
    (machine : StateMachine) (results : Dict CheckResult) (f : Faults)
    → faults_of machine results ≡ some f
    → ((not (is_empty f.wedged) ≡ true) ↔ AnyOf (Wedge machine) results)
      × ((f.dependency_failing ≡ true) ↔ AnyOf (Outage machine) results)
unfolding faults_of Machine.state
faults_exact machine [] f h = (
  iff_of (not (is_empty f.wedged)) false (ground arith) (λ x. cc, λ x. absurd x),
  iff_of f.dependency_failing false (ground arith) (λ x. cc, λ x. absurd x),
)
faults_exact machine ((name, r) ∷ rest) f h =
    let (st, e0, h1) = >>=-eq-some (Machine.state machine name) _ h in
    let e : lookup name machine.states ≡ some st = e0 in
    let (g, e', h2) = >>=-eq-some (faults_of machine rest) _ h1 in
    let (wedges, outages) = faults_exact machine rest g e' in
    let (w, o) = note_fault_counts name st r g in
    (
      iff_of (not (is_empty f.wedged)) _ (ground (arith, w))
          (any_iff true machine name r st (not (is_empty g.wedged)) rest e wedges),
      iff_of f.dependency_failing _ (ground (arith, o))
          (any_iff false machine name r st g.dependency_failing rest e outages),
    )

-- A wedge that no broken dependency explains.
abbrev pub Unexplained : Bool → StateMachine → Dict CheckResult → Type 0
Unexplained live_on_self_fault machine results =
    (live_on_self_fault ≡ true) × AnyOf (Wedge machine) results × (¬ AnyOf (Outage machine) results)

self_faults_exact :
    (on : Bool) (machine : StateMachine) (results : Dict CheckResult) (names : List String)
    → recompute_self_faults on machine results ≡ some names
    → (not (is_empty names) ≡ true) ↔ Unexplained on machine results
unfolding recompute_self_faults
self_faults_exact false machine results names h =
    iff_of (not (is_empty names)) false (ground arith) (λ x. cc, λ u. u.0)
self_faults_exact true machine results names h =
    let (f, e, h1) = >>=-eq-some (faults_of machine results) _ h in
    let (wedges, outages) = faults_exact machine results f e in
    let value : not (is_empty names) ≡ not f.dependency_failing && not (is_empty f.wedged) =
      ground arith in
    iff_of (not (is_empty names)) _ value (
      λ x.
          let quiet : f.dependency_failing ≡ false = ground arith in
          (refl, wedges.0 (ground arith), λ o. cc (outages.1 o, quiet)),
      λ u. elim (Bool-cases f.dependency_failing) [
        | inl broken ↦ absurd (u.2 (outages.0 broken))
        | inr quiet ↦ ground (arith, wedges.1 u.1)
      ],
    )

live_status_failing :
    (m : Monitor) (t : ℕ)
    → (live_status m t ≡ Status.failing)
      ↔ ((m.lag_threshold < t - m.loop_beat) ⊎ (not (is_empty m.self_faults) ≡ true))
unfolding live_status
live_status_failing m t = ground arith

-- What the intake of a result writes, the run of the restart policy included.
apply_faults :
    (m : Monitor) (result : CheckResult) (at : Readings) (found : Monitor × Action)
    → apply m result at ≡ some found
    → recompute_self_faults m.live_on_self_fault found.0.machine found.0.results
      ≡ some found.0.self_faults
unfolding apply accept
apply_faults m result at found h =
    let (before, e1, h1) = >>=-eq-some (Machine.state m.machine result.name) _ h in
    let (machine, e2, h2) =
      >>=-eq-some (Machine.apply m.machine result.name result at.now at.draw) _ h1 in
    let (after, e3, h3) = >>=-eq-some (Machine.state machine result.name) _ h2 in
    let (faults, e4, h4) =
      >>=-eq-some
        (recompute_self_faults m.live_on_self_fault machine (insert result.name result m.results)) _
        h3 in
    let stored = accept m result before.effective after.effective machine faults in
    let (p, q, r, s, u, v) = run_policy_same stored at in
    subst
      (λ x.
        recompute_self_faults m.live_on_self_fault x.0.machine x.0.results ≡ some x.0.self_faults)
      (some_inj h4) (rw (q, r, v) e4)

-- After any result is taken in, /live fails at a time exactly when the event loop has not beaten
-- within the threshold, or when self-fault liveness is on and a check that is confirmed failing
-- reports a wedge of this process while no failing check reports a broken dependency.
pub apply_live :
    (m : Monitor) (result : CheckResult) (at : Readings) (m' : Monitor) (action : Action) (t : ℕ)
    → apply m result at ≡ some (m', action)
    → (live_status m' t ≡ Status.failing) ↔ (
        (m'.lag_threshold < t - m'.loop_beat)
        ⊎ Unexplained m.live_on_self_fault m'.machine m'.results)
apply_live m result at m' action t h =
    let exact =
      self_faults_exact m.live_on_self_fault m'.machine m'.results m'.self_faults
        (apply_faults m result at (m', action) h) in
    let (there, back) = live_status_failing m' t in
    (
      λ failing. elim (there failing) [ inl lag ↦ inl lag | inr named ↦ inr (exact.0 named) ],
      λ w. elim w [ inl lag ↦ back (inl lag) | inr wedge ↦ back (inr (exact.1 wedge)) ],
    )
