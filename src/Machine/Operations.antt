-- ===== src/Machine/Operations.antt =====
-- The writing operations of `StateMachine` as data, so that a run is a list of them.
use health_mon.Common.{
  ℕ, String, Bool, false, ◌≡◌, ◌∙◌, ap, Option, some, List, [], ◌∷◌, arith, str_eq, ◌>>=◌,
  >>=-eq-some,
}
use health_mon.Common.Dict.{lookup, insert, lookup-insert, lookup-insert_ne, lookup-set_default}
use health_mon.Model.{CheckResult}
use health_mon.Machine.Check.{CheckSpec, CheckState, new_state, enable_check}
use health_mon.Machine.{StateMachine, update_state, add, apply, mark_unknown, set_enabled}
use health_mon.Machine.Registry.{update_state-Updated}

pub data Op : Type 0 where
  register : CheckSpec → Op
  observe : String → CheckResult → ℕ → ℕ → Op
  forget : String → ℕ → ℕ → Op
  switch : String → Bool → ℕ → Op

unfoldable pub perform : Op → StateMachine → Option StateMachine
perform (register spec) m = some (add m spec)
perform (observe name result now draw) m = apply m name result now draw
perform (forget name now draw) m = mark_unknown m name now draw
perform (switch name enabled now) m = set_enabled m name enabled now

unfoldable pub perform_all : List Op → StateMachine → Option StateMachine
unfolding perform
perform_all [] m = some m
perform_all (op ∷ rest) m = do m' ← perform op m; perform_all rest m'

abbrev pub target : Op → String
target (register spec) = spec.name
target (observe name _ _ _) = name
target (forget name _ _) = name
target (switch name _ _) = name

-- What `set_enabled` writes, given that it returned.
pub record Switched (m : StateMachine) (name : String) (enabled : Bool) (now : ℕ)
    (m' : StateMachine) : Type 0 where
  pub spec : CheckSpec
  pub state : CheckState
  pub spec_at : lookup name m.specs ≡ some spec
  pub state_at : lookup name m.states ≡ some state
  pub specs : m'.specs ≡ insert name (record spec { enabled = enabled }) m.specs
  pub states : m'.states ≡ insert name (enable_check enabled state now) m.states

pub set_enabled-Switched :
    (m : StateMachine) (name : String) (enabled : Bool) (now : ℕ) {m' : StateMachine}
    → set_enabled m name enabled now ≡ some m'
    → Switched m name enabled now m'
unfolding set_enabled
set_enabled-Switched m name enabled now {m'} h =
    let (s, hs, h') = >>=-eq-some (lookup name m.specs) _ h in
    let (st, hst, h'') = >>=-eq-some (lookup name m.states) _ h' in
    record {
      spec = s;
      state = st;
      spec_at = hs;
      state_at = hst;
      specs = ground arith;
      states = ground arith;
    }

-- The settings and the state that are kept under a name.
abbrev pub Unchanged : StateMachine → StateMachine → String → Type 0
Unchanged m m' k = (lookup k m'.specs ≡ lookup k m.specs) × (lookup k m'.states ≡ lookup k m.states)

update_other :
    (f : CheckSpec → CheckState → CheckState) (m m' : StateMachine) (name k : String)
    → str_eq name k ≡ false
    → update_state f m name ≡ some m'
    → Unchanged m m' k
update_other f m m' name k ne h =
    let u = update_state-Updated f m name h in
    (rw u.specs, ap (lookup k) u.states ∙ lookup-insert_ne name k (f u.spec u.state) m.states ne)

-- An operation on one check changes neither the settings nor the state of any other check.
pub perform_isolated :
    (op : Op) (m m' : StateMachine) (k : String)
    → str_eq (target op) k ≡ false
    → perform op m ≡ some m'
    → Unchanged m m' k
unfolding perform add apply mark_unknown
perform_isolated (register spec) m m' k ne h = ground (
  arith,
  lookup-insert spec.name k spec m.specs,
  lookup-set_default spec.name k new_state m.states,
)
perform_isolated (observe name r now draw) m m' k ne h = update_other _ m m' name k ne h
perform_isolated (forget name now draw) m m' k ne h = update_other _ m m' name k ne h
perform_isolated (switch name enabled now) m m' k ne h =
    let w = set_enabled-Switched m name enabled now h in
    (
      ap (lookup k) w.specs ∙ lookup-insert_ne name k _ m.specs ne,
      ap (lookup k) w.states ∙ lookup-insert_ne name k _ m.states ne,
    )
