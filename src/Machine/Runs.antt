-- ===== src/Machine/Runs.antt =====
-- Runs of core/machine.py: sequences of operations keep the invariant, and an operation on a
-- registered name returns.
use mathlib.Core.Path.{subst}
use health_mon.Common.{
  ◌<◌, String, true, ◌≡◌, refl, ap, ◌⊎◌, inl, inr, none, some, List, [], ◌∷◌, All, is_some,
  Option-cases, some_inj, >>=-eq-some,
}
use health_mon.Common.Dict.{lookup, lookup_of_keys}
use health_mon.Machine.Check.{CheckSpec, CheckState}
use health_mon.Machine.{StateMachine, apply, mark_unknown, set_enabled}
use health_mon.Machine.Registry.{Registered, update_state_total}
use health_mon.Machine.Operations.{
  Op, register, observe, forget, switch, perform, perform_all, target,
}
use health_mon.Machine.Invariant.{
  IsValid, update-IsValid, add-IsValid, switch-IsValid, apply_check-IsSane,
  mark_check_unknown-IsSane,
}

-- A check may be registered only with a positive failure threshold.
abbrev pub Confirming : Op → Type 0
Confirming (register spec) = 0 < spec.failure_threshold
Confirming _ = Unit

-- Every operation that returns keeps the invariant.
perform-IsValid :
    (op : Op) (m m' : StateMachine)
    → Confirming op
    → IsValid m
    → perform op m ≡ some m'
    → IsValid m'
unfolding perform apply mark_unknown
perform-IsValid (register spec) m m' t v h = subst IsValid (some_inj h) (add-IsValid m spec t v)
perform-IsValid (observe name r now draw) m m' t v h =
    update-IsValid _ (λ s st. apply_check-IsSane s st r now draw) m m' name v h
perform-IsValid (forget name now draw) m m' t v h =
    update-IsValid _ (λ s st. mark_check_unknown-IsSane s st now draw) m m' name v h
perform-IsValid (switch name enabled now) m m' t v h = switch-IsValid m m' name enabled now v h

-- Whatever operations run on a valid machine, the machine that they leave is valid, if they register
-- only checks with a positive failure threshold. In a valid machine both dicts hold
-- the same names, no check that is OK is backing off, the backoff step is at most twelve, and no
-- check is starting or disabled by itself.
pub perform_all-IsValid :
    (ops : List Op) (m m' : StateMachine)
    → All Confirming ops
    → IsValid m
    → perform_all ops m ≡ some m'
    → IsValid m'
unfolding perform_all
perform_all-IsValid [] m m' t v h = subst IsValid (some_inj h) v
perform_all-IsValid (op ∷ rest) m m' t v h =
    let (m1, h1, h2) = >>=-eq-some (perform op m) (perform_all rest) h in
    perform_all-IsValid rest m1 m' t.1 (perform-IsValid op m m1 t.0 v h1) h2

pub empty-IsValid : IsValid (record { specs = []; states = [] })
unfolding lookup
empty-IsValid = record {
  same_keys = refl;
  named = tt;
  distinct = tt;
  confirming = λ k s h. cc;
  sane = λ k s st h h'. cc;
}

-- A name that has settings in a valid machine has a state as well.
pub known-Registered :
    (m : StateMachine) (k : String) → IsValid m → is_some (lookup k m.specs) ≡ true → Registered m k
known-Registered m k v h = go (Option-cases (lookup k m.specs)) (Option-cases (lookup k m.states))
  where
    go :
        (lookup k m.specs ≡ none) ⊎ ((s : CheckSpec) × (lookup k m.specs ≡ some s))
        → (lookup k m.states ≡ none) ⊎ ((st : CheckState) × (lookup k m.states ≡ some st))
        → Registered m k
    go (inl missing) _ = cc (h, ap is_some missing)
    go (inr (s, hs)) (inl missing) =
        cc (lookup_of_keys k m.specs m.states v.same_keys, ap is_some missing, h)
    go (inr (s, hs)) (inr (st, hst)) = record { spec = s; state = st; spec_at = hs; state_at = hst }

-- A name that an operation may be given: `register` takes any, the others a registered one.
abbrev pub Known : Op → StateMachine → Type 0
Known (register _) m = Unit
Known op m = is_some (lookup (target op) m.specs) ≡ true

perform_returns :
    (op : Op) (m : StateMachine) → Known op m → IsValid m → is_some (perform op m) ≡ true
unfolding perform apply mark_unknown set_enabled
perform_returns (register spec) m k v = refl
perform_returns (observe name r now draw) m k v =
    ap is_some (update_state_total _ m name (known-Registered m name v k))
perform_returns (forget name now draw) m k v =
    ap is_some (update_state_total _ m name (known-Registered m name v k))
perform_returns (switch name enabled now) m k v =
    let r = known-Registered m name v k in rw (r.spec_at, r.state_at)

-- On a valid machine an operation on a registered name never raises, and the machine that it
-- returns is valid again. An operation that registers a check needs a positive failure threshold.
pub perform_total :
    (op : Op) (m : StateMachine)
    → Confirming op
    → Known op m
    → IsValid m
    → (m' : StateMachine) × (perform op m ≡ some m') × IsValid m'
perform_total op m t k v = go (Option-cases (perform op m))
  where
    go :
        (perform op m ≡ none) ⊎ ((m' : StateMachine) × (perform op m ≡ some m'))
        → (m' : StateMachine) × (perform op m ≡ some m') × IsValid m'
    go (inl missing) = cc (perform_returns op m k v, ap is_some missing)
    go (inr (m', h)) = (m', h, perform-IsValid op m m' t v h)
