-- ===== src/Machine/Registry.antt =====
-- The two dicts of `StateMachine`: an operation on one check finds it if it is registered, and
-- leaves every other check alone.
use health_mon.Common.{String, ◌≡◌, some, arith, >>=-eq-some}
use health_mon.Common.Dict.{lookup, insert}
use health_mon.Machine.Check.{CheckSpec, CheckState}
use health_mon.Machine.{StateMachine, update_state}

-- A name that is registered, with its settings and its state.
pub record Registered (m : StateMachine) (name : String) : Type 0 where
  pub spec : CheckSpec
  pub state : CheckState
  pub spec_at : lookup name m.specs ≡ some spec
  pub state_at : lookup name m.states ≡ some state

-- What an update of one check writes, given that it returned.
pub record Updated (f : CheckSpec → CheckState → CheckState) (m : StateMachine) (name : String)
    (m' : StateMachine) : Type 0 where
  pub spec : CheckSpec
  pub state : CheckState
  pub spec_at : lookup name m.specs ≡ some spec
  pub state_at : lookup name m.states ≡ some state
  pub specs : m'.specs ≡ m.specs
  pub states : m'.states ≡ insert name (f spec state) m.states

pub update_state-Updated :
    (f : CheckSpec → CheckState → CheckState) (m : StateMachine) (name : String) {m' : StateMachine}
    → update_state f m name ≡ some m'
    → Updated f m name m'
update_state-Updated f m name {m'} h =
    let (s, hs, h') = >>=-eq-some (lookup name m.specs) _ h in
    let (st, hst, h'') = >>=-eq-some (lookup name m.states) _ h' in
    record {
      spec = s;
      state = st;
      spec_at = hs;
      state_at = hst;
      specs = ground arith;
      states = ground arith;
    }

pub update_state_total :
    (f : CheckSpec → CheckState → CheckState) (m : StateMachine) (name : String)
    (r : Registered m name)
    → update_state f m name ≡ some (record m { states = insert name (f r.spec r.state) m.states })
update_state_total f m name r = rw (r.spec_at, r.state_at)
