-- ===== src/Aggregate/Views.antt =====
-- What the reads of core/aggregate.py find: on a valid machine every registered check reports a
-- status, and an enabled one neither `starting` nor `disabled`.
use health_mon.Common.{
  ℕ, String, true, ◌≡◌, ◌≢◌, refl, ◌∙◌, ap, some, List, [], ◌∷◌, All, All-filter_cons, filter,
  is_some, arith,
}
use health_mon.Common.Dict.{Dict, lookup, values, Distinct, lookup_self, lookup_weaken}
use health_mon.Model.{Status}
use health_mon.Machine.{StateMachine, is_enabled, enabled_specs, effective}
use health_mon.Machine.Check.{CheckSpec, CheckState, check_effective}
use health_mon.Machine.Registry.{Registered}
use health_mon.Machine.Invariant.{IsValid, IsSane, Named}
use health_mon.Machine.Runs.{known-Registered}
use health_mon.Aggregate.{View, views_of}

-- The check is registered under its own name, and switched on.
abbrev pub Found : Dict CheckSpec → CheckSpec → Type 0
Found d s = (lookup s.name d ≡ some s) × (s.enabled ≡ true)

filter-Found :
    (full d : Dict CheckSpec)
    → All Named d
    → Distinct d
    → ((k : String) (s : CheckSpec) → lookup k d ≡ some s → lookup k full ≡ some s)
    → All (Found full) (filter is_enabled (values d))
filter-Found full [] n u into = tt
filter-Found full ((j, s) ∷ d) n u into =
    let here : lookup s.name full ≡ some s =
      ap (λ k. lookup k full) n.0 ∙ into j s (lookup_self j s d) in
    let rest = filter-Found full d n.1 u.1 (λ k t h. into k t (lookup_weaken k j s t d u.0 h)) in
    All-filter_cons (Found full) is_enabled s (values d) (λ on. (here, on)) rest

pub enabled-Found : (m : StateMachine) → IsValid m → All (Found m.specs) (enabled_specs m)
unfolding enabled_specs
enabled-Found m v = filter-Found m.specs m.specs v.named v.distinct (λ k s h. h)

check_effective_range :
    (s : CheckSpec) (st : CheckState) (now : ℕ)
    → IsSane s st
    → s.enabled ≡ true
    → (check_effective s st now ≢ Status.starting) × (check_effective s st now ≢ Status.disabled)
unfolding check_effective
check_effective_range s st now h on = (ground arith, ground arith)

-- A read of a registered check returns the settings, the state and the status that it reports.
pub record Reading (m : StateMachine) (now : ℕ) (name : String) : Type 0 where
  pub status : Status
  pub state : CheckState
  pub status_at : effective m name now ≡ some status
  pub state_at : lookup name m.states ≡ some state
  pub not_starting : status ≢ Status.starting
  pub not_disabled : status ≢ Status.disabled

read_at :
    (m : StateMachine) (now : ℕ) (s : CheckSpec) (r : Registered m s.name)
    → lookup s.name m.specs ≡ some s
    → effective m s.name now ≡ some (check_effective s r.state now)
unfolding effective
read_at m now s r e = rw e (rw r.state_at)

pub reading :
    (m : StateMachine) (now : ℕ) (s : CheckSpec)
    → IsValid m
    → Found m.specs s
    → Reading m now s.name
reading m now s v f =
    let r = known-Registered m s.name v (ap is_some f.0) in
    let range = check_effective_range s r.state now (v.sane s.name s r.state f.0 r.state_at) f.1 in
    record {
      status = check_effective s r.state now;
      state = r.state;
      status_at = read_at m now s r f.0;
      state_at = r.state_at;
      not_starting = range.0;
      not_disabled = range.1;
    }

-- The views of enabled checks, one for each, in order.
abbrev pub AllRead : StateMachine → ℕ → List CheckSpec → List View → Type 0
AllRead m now [] [] = Unit
AllRead m now [] (_ ∷ _) = ⊥
AllRead m now (_ ∷ _) [] = ⊥
AllRead m now (s ∷ specs) ((s', v) ∷ views) =
    (s' ≡ s)
    × (effective m s.name now ≡ some v)
    × ((v ≢ Status.starting) × (v ≢ Status.disabled))
    × AllRead m now specs views

pub views_total :
    (m : StateMachine) (now : ℕ) (specs : List CheckSpec)
    → IsValid m
    → All (Found m.specs) specs
    → (views : List View) × (views_of m now specs ≡ some views) × AllRead m now specs views
unfolding views_of
views_total m now [] v f = ([], refl, tt)
views_total m now (s ∷ specs) v f =
    let r = reading m now s v f.0 in
    let (views, e, read) = views_total m now specs v f.1 in
    (
      (s, r.status) ∷ views,
      rw (r.status_at, e),
      (refl, r.status_at, (r.not_starting, r.not_disabled), read),
    )
