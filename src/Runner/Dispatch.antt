-- ===== src/Runner/Dispatch.antt =====
-- Every check that is due is submitted to the pool (runners/thread_.py, `_dispatch`).
use mathlib.Core.Path.{subst}
use health_mon.Common.{
  ℕ, ◌≤◌, Bool, true, false, not, String, str_eq, ◌≡◌, refl, sym, ◌∙◌, ap, ◌⊎◌, inl, inr, some,
  List, [], ◌∷◌, AnyOf, arith, if◌then◌else◌, if_on, if_off, >>=-eq-some, leb, some_inj, Bool-cases,
}
use health_mon.Common.Dict.{Dict, lookup, insert, values, lookup-insert, lookup-insert_self}
use health_mon.Machine
use health_mon.Machine.{StateMachine, update_state}
use health_mon.Machine.Check.{CheckSpec, CheckState}
use health_mon.Runner.{
  Runner, pending, due_checks, dispatch_one, dispatch_all, dispatch, is_running,
}

-- The future of the check in `_inflight` is pending.
abbrev pub Runs : Runner → String → Type 0
Runs w name = is_running (lookup name w.inflight) ≡ true

-- What a turn of _dispatch's loop does to what is in flight.
dispatch_one-inflight :
    (w w' : Runner) (now wall : ℕ) (name : String)
    → dispatch_one now wall name w ≡ some w'
    → (w'.inflight ≡ w.inflight) × Runs w name
      ⊎ (w'.inflight ≡ insert name (pending now wall) w.inflight)
unfolding dispatch_one
dispatch_one-inflight w w' now wall name h =
    elim (Bool-cases (is_running (lookup name w.inflight))) [
      | inl on ↦ inl (ap (λ (x : Runner). x.inflight) (some_inj (sym h ∙ if_on _ _ on)), on)
      | inr off ↦
          let h0 = sym (if_off _ _ off) ∙ h in
          let (st, e1, h1) = >>=-eq-some (Machine.state w.monitor.machine name) _ h0 in
          let (machine, e2, h2) = >>=-eq-some (update_state _ w.monitor.machine name) _ h1 in
          inr (sym (ap (λ (x : Runner). x.inflight) (some_inj h2)))
    ]

dispatch_one-Runs :
    (w w' : Runner) (now wall : ℕ) (name : String)
    → dispatch_one now wall name w ≡ some w'
    → Runs w' name
dispatch_one-Runs w w' now wall name h = elim (dispatch_one-inflight w w' now wall name h) [
  | inl (same, on) ↦ rw same on
  | inr new ↦ rw new (rw (lookup-insert_self name (pending now wall) w.inflight) refl)
]

dispatch_one-keeps :
    (w w' : Runner) (now wall : ℕ) (k name : String)
    → dispatch_one now wall k w ≡ some w'
    → Runs w name
    → Runs w' name
dispatch_one-keeps w w' now wall k name h r = elim (dispatch_one-inflight w w' now wall k h) [
  | inl (same, _) ↦ rw same r
  | inr new ↦ rw new (ground (arith, lookup-insert k name (pending now wall) w.inflight))
]

dispatch_all-keeps :
    (w w' : Runner) (now wall : ℕ) (names : List String) (name : String)
    → dispatch_all now wall names w ≡ some w'
    → Runs w name
    → Runs w' name
unfolding dispatch_all
dispatch_all-keeps w w' now wall [] name h r = subst (λ x. Runs x name) (some_inj h) r
dispatch_all-keeps w w' now wall (k ∷ rest) name h r =
    let (w1, e, h1) = >>=-eq-some (dispatch_one now wall k w) _ h in
    dispatch_all-keeps w1 w' now wall rest name h1 (dispatch_one-keeps w w1 now wall k name e r)

dispatch_all-Runs :
    (w w' : Runner) (now wall : ℕ) (names : List String) (name : String)
    → dispatch_all now wall names w ≡ some w'
    → AnyOf (λ k. k ≡ name) names
    → Runs w' name
unfolding dispatch_all
dispatch_all-Runs w w' now wall [] name h m = absurd m
dispatch_all-Runs w w' now wall (k ∷ rest) name h m =
    let (w1, e, h1) = >>=-eq-some (dispatch_one now wall k w) _ h in
    elim m [
      | inl here ↦
          dispatch_all-keeps w1 w' now wall rest name h1
            (subst (Runs w1) here (dispatch_one-Runs w w1 now wall k e))
      | inr later ↦ dispatch_all-Runs w1 w' now wall rest name h1 later
    ]

maybe_more :
    (b : Bool) (k : String) (names : List String) (name : String)
    → AnyOf (λ x. x ≡ name) names
    → AnyOf (λ x. x ≡ name) (if b then k ∷ names else names)
maybe_more true k names name m = inr m
maybe_more false k names name m = m

due_checks-has :
    (machine : StateMachine) (now : ℕ) (specs : List CheckSpec) (names : List String)
    (s : CheckSpec) (st : CheckState)
    → due_checks machine now specs ≡ some names
    → AnyOf (λ x. x ≡ s) specs
    → s.enabled ≡ true
    → lookup s.name machine.states ≡ some st
    → st.next_due ≤ now
    → AnyOf (λ k. k ≡ s.name) names
unfolding due_checks Machine.state
due_checks-has machine now [] names s st h m on at due = absurd m
due_checks-has machine now (t ∷ rest) names s st h m on at due = elim (Bool-cases t.enabled) [
  | inl active ↦
      let h0 = sym (if_off _ _ (ap not active)) ∙ h in
      let (st', e1, h1) = >>=-eq-some (lookup t.name machine.states) _ h0 in
      let (later, e2, h2) = >>=-eq-some (due_checks machine now rest) _ h1 in
      elim m [
        | inl here ↦
            let same : st' ≡ st =
              some_inj (sym e1 ∙ ap (λ (x : CheckSpec). lookup x.name machine.states) here ∙ at) in
            let ripe : leb st'.next_due now ≡ true = rw same (ground arith) in
            subst (AnyOf (λ k. k ≡ s.name)) (sym (if_on _ _ ripe) ∙ some_inj h2)
              (inl (ap (λ (x : CheckSpec). x.name) here))
        | inr among ↦ subst (AnyOf (λ k. k ≡ s.name)) (some_inj h2) (
            maybe_more (leb st'.next_due now) t.name later s.name
              (due_checks-has machine now rest later s st e2 among on at due))
      ]
  | inr idle ↦ elim m [
    | inl here ↦ cc (ap (λ (x : CheckSpec). x.enabled) here, on, idle)
    | inr among ↦
        due_checks-has machine now rest names s st (sym (if_on _ _ (ap not idle)) ∙ h) among on at
          due
  ]
]

among_values :
    (d : Dict CheckSpec) (k : String) (s : CheckSpec)
    → lookup k d ≡ some s
    → AnyOf (λ x. x ≡ s) (values d)
unfolding lookup
among_values [] k s h = cc
among_values ((j, t) ∷ d) k s h = elim (Bool-cases (str_eq j k)) [
  | inl same ↦ inl (some_inj (sym (if_on _ _ same) ∙ h))
  | inr other ↦ inr (among_values d k s (sym (if_off _ _ other) ∙ h))
]

-- No due check is skipped: after a dispatch every enabled check whose due time has come has a
-- pending future in `_inflight`, the one that it had or a newly submitted one. Whether a thread of
-- the pool is free to evaluate it is not stated.
pub dispatch-Runs :
    (w w' : Runner) (now wall : ℕ) (s : CheckSpec) (st : CheckState)
    → dispatch now wall w ≡ some w'
    → lookup s.name w.monitor.machine.specs ≡ some s
    → lookup s.name w.monitor.machine.states ≡ some st
    → s.enabled ≡ true
    → st.next_due ≤ now
    → Runs w' s.name
unfolding dispatch
dispatch-Runs w w' now wall s st h known at on due =
    let specs = values w.monitor.machine.specs in
    let (names, e, h1) = >>=-eq-some (due_checks w.monitor.machine now specs) _ h in
    dispatch_all-Runs w w' now wall names s.name h1 (
      due_checks-has w.monitor.machine now specs names s st e
        (among_values w.monitor.machine.specs s.name s known) on at due)
