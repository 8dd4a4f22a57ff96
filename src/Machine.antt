-- ===== src/Machine.antt =====
-- core/machine.py: thresholds, hysteresis, backoff, jitter and the time to live of a result.
-- A clock reading and a draw of the random generator are arguments of the operation that makes
-- them. Jitter, its draw and the backoff multiplier are counted in thousandths, and a product that
-- is no whole number of microseconds is rounded down. `none` stands for a `KeyError`. What an
-- operation does to one check is in Machine/Check.antt; here it is applied to the two dicts.
pub mod Check
pub mod Registry
pub mod Operations
pub mod Schedule
pub mod Hysteresis
pub mod Backoff
pub mod Freshness
pub mod Invariant
pub mod Runs
pub mod Examples
use health_mon.Common.{
  ℕ, String, Bool, false, not, Option, some, List, [], ◌∷◌, filter, if◌then◌else◌, ◌>>=◌,
}
use health_mon.Common.Dict.{Dict, lookup, insert, set_default, values}
use health_mon.Model.{Status, CheckResult}
use Check.{
  CheckSpec, CheckState, new_state, apply_check, mark_check_unknown, enable_check, check_interval,
  check_effective, check_due, check_breaker_open,
}

pub record StateMachine : Type 0 where
  pub specs : Dict CheckSpec
  pub states : Dict CheckState

-- StateMachine.add
unfoldable pub add : StateMachine → CheckSpec → StateMachine
add m spec = record {
  specs = insert spec.name spec m.specs;
  states = set_default spec.name new_state m.states;
}

add_all : StateMachine → List CheckSpec → StateMachine
add_all m [] = m
add_all m (spec ∷ rest) = add_all (add m spec) rest

-- StateMachine.__init__: the two comprehensions write the same keys in the same order.
unfoldable pub new_machine : List CheckSpec → StateMachine
unfolding add_all
new_machine specs = add_all (record { specs = []; states = [] }) specs

unfoldable pub spec : StateMachine → String → Option CheckSpec
spec m name = lookup name m.specs

unfoldable pub state : StateMachine → String → Option CheckState
state m name = lookup name m.states

abbrev pub is_enabled : CheckSpec → Bool
is_enabled s = s.enabled

unfoldable pub enabled_specs : StateMachine → List CheckSpec
enabled_specs m = filter is_enabled (values m.specs)

-- An operation on the state of one check, given its settings.
abbrev pub update_state :
    (CheckSpec → CheckState → CheckState) → StateMachine → String → Option StateMachine
update_state f m name = do
  spec ← lookup name m.specs
  st ← lookup name m.states
  some (record m { states = insert name (f spec st) m.states })

unfoldable pub apply : StateMachine → String → CheckResult → ℕ → ℕ → Option StateMachine
apply m name result now draw = update_state (λ spec st. apply_check spec st result now draw) m name

unfoldable pub mark_unknown : StateMachine → String → ℕ → ℕ → Option StateMachine
mark_unknown m name now draw = update_state (λ spec st. mark_check_unknown spec st now draw) m name

unfoldable pub set_enabled : StateMachine → String → Bool → ℕ → Option StateMachine
set_enabled m name enabled now = do
  spec ← lookup name m.specs
  st ← lookup name m.states
  some (record {
    specs = insert name (record spec { enabled = enabled }) m.specs;
    states = insert name (enable_check enabled st now) m.states;
  })

abbrev pub read_check {ℓ} :
    {A : Type ℓ} → (CheckSpec → CheckState → A) → StateMachine → String → Option A
read_check f m name = do spec ← lookup name m.specs; st ← lookup name m.states; some (f spec st)

unfoldable pub effective : StateMachine → String → ℕ → Option Status
effective m name now = read_check (λ spec st. check_effective spec st now) m name

unfoldable pub next_interval : StateMachine → String → Option ℕ
next_interval m name = read_check check_interval m name

unfoldable pub due : StateMachine → String → ℕ → Option Bool
due m name now = do
  spec ← lookup name m.specs
  if not spec.enabled
      then some false
      else do st ← lookup name m.states; some (check_due spec st now)

unfoldable pub breaker_open : StateMachine → String → Option Bool
breaker_open m name = read_check check_breaker_open m name

unfoldable pub transitions : StateMachine → String → Option ℕ
transitions m name = do st ← lookup name m.states; some st.transitions
