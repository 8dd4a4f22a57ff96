-- ===== src/Machine/Invariant.antt =====
-- What holds of every check of a `StateMachine` between two operations.
use mathlib.Core.Path.{subst}
use health_mon.Common.{
  ℕ, ◌≤◌, ◌<◌, String, Bool, true, ◌≡◌, ◌≢◌, refl, sym, ◌∙◌, ap, ◌⊎◌, inl, inr, none, some, All,
  arith, is_some, Option-cases, some_inj,
}
use health_mon.Common.Dict.{
  lookup, insert, keys, lookup-insert_cases, lookup-set_default_cases, All-insert, All-lookup,
  Distinct, Distinct-insert, keys-insert, keys-insert-set_default, lookup_of_keys,
}
use health_mon.Model.{Status, CheckResult}
use health_mon.Machine.Check.{
  CheckSpec, CheckState, new_state, backoff_limit, apply_check, mark_check_unknown, enable_check,
}
use health_mon.Machine.{StateMachine, update_state, add, set_enabled}
use health_mon.Machine.Registry.{update_state-Updated}
use health_mon.Machine.Operations.{set_enabled-Switched}

-- A check is never OK and backing off, its two streaks are never both running, and its status is
-- one that a check can have.
pub record IsSane (spec : CheckSpec) (st : CheckState) : Type 0 where
  pub confirmed : 0 < spec.failure_threshold
  pub step_bounded : st.backoff_step ≤ backoff_limit
  pub one_streak : (st.consecutive_fail ≡ 0) ⊎ (st.consecutive_ok ≡ 0)
  pub ok_not_backing : st.effective ≡ Status.ok → st.backoff_step ≡ 0
  pub ok_seen : st.effective ≡ Status.ok → is_some st.last_ok_at ≡ true
  pub not_starting : st.effective ≢ Status.starting
  pub not_disabled : st.effective ≢ Status.disabled
  pub unmeasured : st.last_result ≡ none → st.effective ≡ Status.unknown

pub apply_check-IsSane :
    (spec : CheckSpec) (st : CheckState) (r : CheckResult) (now draw : ℕ)
    → IsSane spec st
    → IsSane spec (apply_check spec st r now draw)
unfolding apply_check
apply_check-IsSane spec st r now draw h = ground arith

pub mark_check_unknown-IsSane :
    (spec : CheckSpec) (st : CheckState) (now draw : ℕ)
    → IsSane spec st
    → IsSane spec (mark_check_unknown spec st now draw)
unfolding mark_check_unknown
mark_check_unknown-IsSane spec st now draw h = ground arith

enable_check-IsSane :
    (spec : CheckSpec) (st : CheckState) (enabled : Bool) (now : ℕ)
    → IsSane spec st
    → IsSane (record spec { enabled = enabled }) (enable_check enabled st now)
unfolding enable_check
enable_check-IsSane spec st enabled now h = ground arith

-- The settings are kept under their own name.
abbrev pub Named : String × CheckSpec → Type 0
Named (k, s) = s.name ≡ k

pub record IsValid (m : StateMachine) : Type 0 where
  pub same_keys : keys m.specs ≡ keys m.states
  pub named : All Named m.specs
  pub distinct : Distinct m.specs
  pub confirming :
      (k : String) (s : CheckSpec) → lookup k m.specs ≡ some s → 0 < s.failure_threshold
  pub sane :
      (k : String) (s : CheckSpec) (st : CheckState)
      → lookup k m.specs ≡ some s
      → lookup k m.states ≡ some st
      → IsSane s st

module _ (f : CheckSpec → CheckState → CheckState)
    (keeps : (s : CheckSpec) (st : CheckState) → IsSane s st → IsSane s (f s st)) where
  pub update-IsValid :
      (m m' : StateMachine) (name : String)
      → IsValid m
      → update_state f m name ≡ some m'
      → IsValid m'
  update-IsValid m m' name v h =
      let u = update_state-Updated f m name h in
      record {
        same_keys =
            ap keys u.specs
            ∙ v.same_keys
            ∙ sym (keys-insert name (f u.spec u.state) u.state m.states u.state_at)
            ∙ sym (ap keys u.states);
        named = rw u.specs v.named;
        distinct = rw u.specs v.distinct;
        confirming = λ k s hs. v.confirming k s (sym (ap (lookup k) u.specs) ∙ hs);
        sane = λ k s st hs hst.
            let hs' : lookup k m.specs ≡ some s = sym (ap (lookup k) u.specs) ∙ hs in
            lookup-insert_cases (IsSane s) name k (f u.spec u.state) st m.states
              (sym (ap (lookup k) u.states) ∙ hst)
              (λ e.
                let e' : u.spec ≡ s =
                  some_inj (sym u.spec_at ∙ ap (λ j. lookup j m.specs) e ∙ hs') in
                subst (λ x. IsSane x (f u.spec u.state)) e'
                  (keeps u.spec u.state (v.sane name u.spec u.state u.spec_at u.state_at)))
              (v.sane k s st hs');
      }

-- Nothing but the threshold ties a state to its settings.
resettle :
    (s s' : CheckSpec) (st : CheckState) → 0 < s'.failure_threshold → IsSane s st → IsSane s' st
resettle s s' st t h = ground arith

new_state-IsSane : (s : CheckSpec) → 0 < s.failure_threshold → IsSane s new_state
new_state-IsSane s t = ground arith

-- With the same keys in both dicts, a name found in one is found in the other.
pub spec_of_state :
    (m : StateMachine) (k : String) (st : CheckState)
    → keys m.specs ≡ keys m.states
    → lookup k m.states ≡ some st
    → (s : CheckSpec) × (lookup k m.specs ≡ some s)
spec_of_state m k st e h = elim (Option-cases (lookup k m.specs)) [
  | inl missing ↦ cc (lookup_of_keys k m.specs m.states e, ap is_some missing, ap is_some h)
  | inr there ↦ there
]

pub add-IsValid :
    (m : StateMachine) (spec : CheckSpec)
    → 0 < spec.failure_threshold
    → IsValid m
    → IsValid (add m spec)
unfolding add
add-IsValid m spec t v =
    let confirms =
      λ (k : String) (s : CheckSpec) (hs : lookup k (insert spec.name spec m.specs) ≡ some s).
        lookup-insert_cases (λ x. 0 < x.failure_threshold) spec.name k spec s m.specs hs (λ _. t)
          (v.confirming k s) in
    record {
      same_keys = keys-insert-set_default spec.name spec new_state m.specs m.states v.same_keys;
      named = All-insert Named spec.name spec m.specs refl v.named;
      distinct = Distinct-insert spec.name spec m.specs v.distinct;
      confirming = confirms;
      sane = λ k s st hs hst.
          lookup-set_default_cases (IsSane s) spec.name k new_state st m.states hst
            (new_state-IsSane s (confirms k s hs))
            (λ old.
              let (s0, hs0) = spec_of_state m k st v.same_keys old in
              resettle s0 s st (confirms k s hs) (v.sane k s0 st hs0 old));
    }

pub switch-IsValid :
    (m m' : StateMachine) (name : String) (enabled : Bool) (now : ℕ)
    → IsValid m
    → set_enabled m name enabled now ≡ some m'
    → IsValid m'
switch-IsValid m m' name enabled now v h =
    let w = set_enabled-Switched m name enabled now h in
    let spec' = record w.spec { enabled = enabled } in
    let state' = enable_check enabled w.state now in
    let sane' : IsSane spec' state' =
      enable_check-IsSane w.spec w.state enabled now
        (v.sane name w.spec w.state w.spec_at w.state_at) in
    let confirms = λ (k : String) (s : CheckSpec) (hs : lookup k m'.specs ≡ some s).
      lookup-insert_cases (λ x. 0 < x.failure_threshold) name k spec' s m.specs
        (sym (ap (lookup k) w.specs) ∙ hs) (λ _. v.confirming name w.spec w.spec_at)
        (v.confirming k s) in
    record {
      same_keys =
          ap keys w.specs
          ∙ keys-insert name spec' w.spec m.specs w.spec_at
          ∙ v.same_keys
          ∙ sym (keys-insert name state' w.state m.states w.state_at)
          ∙ sym (ap keys w.states);
      named = rw w.specs (
          All-insert Named name spec' m.specs
            (All-lookup Named name w.spec m.specs w.spec_at v.named) v.named);
      distinct = rw w.specs (Distinct-insert name spec' m.specs v.distinct);
      confirming = confirms;
      sane = λ k s st hs hst.
          lookup-insert_cases (IsSane s) name k state' st m.states
            (sym (ap (lookup k) w.states) ∙ hst)
            (λ _. resettle spec' s state' (confirms k s hs) sane')
            (λ old.
              let (s0, hs0) = spec_of_state m k st v.same_keys old in
              resettle s0 s st (confirms k s hs) (v.sane k s0 st hs0 old));
    }
