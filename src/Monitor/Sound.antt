-- ===== src/Monitor/Sound.antt =====
-- What holds of a HealthMonitor between two calls, and that its reads then always return.
use health_mon.Common.{
  ℕ, Bool, true, false, ◌||◌, String, ◌≡◌, refl, ap, inl, inr, Option, none, some, List, [], ◌∷◌,
  All, is_some, if◌then◌else◌, Returns, >>=-Returns, Bool-cases,
}
use health_mon.Common.Dict.{Dict, lookup}
use health_mon.Model.{CheckResult}
use health_mon.Machine
use health_mon.Machine.{StateMachine, enabled_specs, effective}
use health_mon.Machine.Check.{CheckSpec}
use health_mon.Machine.Invariant.{IsValid}
use health_mon.Machine.Runs.{known-Registered}
use health_mon.Aggregate
use health_mon.Aggregate.{booted, boot_complete}
use health_mon.Aggregate.Views.{Found, enabled-Found}
use health_mon.Aggregate.Worker.{aggregate_total}
use health_mon.Aggregate.Reasons.{reasons_iff_ready}
use health_mon.Monitor.{
  Monitor, faults_of, recompute_self_faults, aggregate_status, liveness, readiness_reasons,
}
use health_mon.Monitor.Intake.{project}

-- The name is registered.
abbrev pub Has : StateMachine → String → Type 0
Has machine name = is_some (lookup name machine.specs) ≡ true

abbrev pub HasResult : StateMachine → String × CheckResult → Type 0
HasResult machine (name, r) = Has machine name

-- The state machine is valid, and every stored result is of a registered check.
pub record IsSound (m : Monitor) : Type 0 where
  pub valid : IsValid m.machine
  pub stored : All (HasResult m.machine) m.results

pub faults_of_total :
    (machine : StateMachine) (results : Dict CheckResult)
    → IsValid machine
    → All (HasResult machine) results
    → Returns (faults_of machine results)
unfolding faults_of Machine.state
faults_of_total machine [] v h = (_, refl)
faults_of_total machine ((name, r) ∷ rest) v h =
    let k = known-Registered machine name v h.0 in
    rw k.state_at (
      >>=-Returns (faults_of machine rest) _ (faults_of_total machine rest v h.1)
        (λ f e. (_, refl)))

pub recompute_self_faults_total :
    (on : Bool) (machine : StateMachine) (results : Dict CheckResult)
    → IsValid machine
    → All (HasResult machine) results
    → Returns (recompute_self_faults on machine results)
unfolding recompute_self_faults
recompute_self_faults_total false machine results v h = ([], refl)
recompute_self_faults_total true machine results v h =
    >>=-Returns (faults_of machine results) _ (faults_of_total machine results v h)
      (λ f e. (_, refl))

booted_total :
    (machine : StateMachine) (specs : List CheckSpec)
    → IsValid machine
    → All (Found machine.specs) specs
    → Returns (booted machine specs)
unfolding booted Machine.state
booted_total machine [] v h = (true, refl)
booted_total machine (s ∷ specs) v h =
    let k = known-Registered machine s.name v (ap is_some h.0.0) in
    let (b, e) = booted_total machine specs v h.1 in
    elim (Bool-cases s.critical) [
      | inl on ↦ elim (Bool-cases (is_some k.state.last_ok_at)) [
        | inl seen ↦ (b, rw (on, k.state_at, seen, e) refl)
        | inr unseen ↦ (false, rw (on, k.state_at, unseen) refl)
      ]
      | inr off ↦ (b, rw (off, e) refl)
    ]

boot_total :
    (done : Bool) (machine : StateMachine)
    → IsValid machine
    → Returns (if done then some false else boot_complete machine)
unfolding boot_complete
boot_total true machine v = (false, refl)
boot_total false machine v =
    booted_total machine (enabled_specs machine) v (enabled-Found machine v)

aggregate-Returns :
    (machine : StateMachine) (now : ℕ) (deadline : Option ℕ)
    → IsValid machine
    → Returns (Aggregate.aggregate machine now deadline)
aggregate-Returns machine now deadline v =
    let (_, _, _, e) = aggregate_total machine now deadline v in (_, e)

pub aggregate_status_total :
    (m : Monitor) (now : ℕ) → IsValid m.machine → Returns (aggregate_status m now)
unfolding aggregate_status
aggregate_status_total m now v =
    >>=-Returns (if m.boot_done then some false else boot_complete m.machine) _
      (boot_total m.boot_done m.machine v)
      (λ complete _.
        >>=-Returns
          (Aggregate.aggregate m.machine now
            (if m.boot_done || complete then none else m.boot_deadline))
          _ (aggregate-Returns m.machine now _ v) (λ status _. (_, refl)))

pub readiness_reasons_total :
    (m : Monitor) (now : ℕ) → IsValid m.machine → Returns (readiness_reasons m now)
unfolding readiness_reasons
readiness_reasons_total m now v =
    let (_, lines, _, e, _) = reasons_iff_ready m.machine now none (liveness m now) v in
    >>=-Returns (Aggregate.reasons m.machine (liveness m now) now) _ (lines, e) (λ l _. (_, refl))

pub project_total :
    (machine : StateMachine) (now : ℕ) (results : Dict CheckResult)
    → IsValid machine
    → All (HasResult machine) results
    → Returns (project machine now results)
unfolding project effective
project_total machine now [] v h = ([], refl)
project_total machine now ((name, r) ∷ rest) v h =
    let k = known-Registered machine name v h.0 in
    rw (k.spec_at, k.state_at)
      (>>=-Returns (project machine now rest) _ (project_total machine now rest v h.1)
        (λ others _. (_, refl)))
