-- ===== src/Restart.antt =====
-- policy/restart.py: the controlled restart. A frozenset of categories is its membership test, a
-- clock reading is an argument, and what the policy does to the process is a value that it
-- returns: a call of the caller's `on_restart`, or a timer that ends in `os._exit`. The clock is
-- read once for each observation, and the lock makes an observation one step.
pub mod Budget
pub mod Firing
mod Examples
use health_mon.Common.{
  ℕ, ◌+◌, ◌-◌, ◌*◌, ◌/◌, Bool, true, false, not, ◌&&◌, ◌||◌, String, Option, none, some, List, [],
  ◌∷◌, ◌++◌, filter, any, length, ltb, leb, if◌then◌else◌,
}
use health_mon.Model.{Status, ErrorCategory, CheckResult, same_status}

-- SELF_FAULTS
unfoldable pub is_self_fault : ErrorCategory → Bool
is_self_fault ErrorCategory.stalled = true
is_self_fault ErrorCategory.not_consuming = true
is_self_fault ErrorCategory.not_subscribed = true
is_self_fault ErrorCategory.credit_exhausted = true
is_self_fault ErrorCategory.connection_lost = true
is_self_fault ErrorCategory.poison_loop = true
is_self_fault _ = false

-- DEPENDENCY_FAULTS
unfoldable pub is_dependency_fault : ErrorCategory → Bool
is_dependency_fault ErrorCategory.connection_refused = true
is_dependency_fault ErrorCategory.timeout = true
is_dependency_fault ErrorCategory.slow = true
is_dependency_fault ErrorCategory.auth_failed = true
is_dependency_fault ErrorCategory.broker_alarm = true
is_dependency_fault ErrorCategory.broker_shutdown = true
is_dependency_fault ErrorCategory.memory_pressure = true
is_dependency_fault ErrorCategory.pool_exhausted = true
is_dependency_fault ErrorCategory.read_only = true
is_dependency_fault _ = false

pub record RestartPolicy : Type 0 where
  pub enabled : Bool
  pub triggers : ErrorCategory → Bool
  pub after_cycles : ℕ
  pub min_uptime : ℕ
  pub cooldown : ℕ
  pub max_per_hour : ℕ
  pub jitter : ℕ  -- thousandths
  pub drain_timeout : ℕ
  pub exit_code : ℕ
  pub has_callback : Bool
  pub streak : ℕ
  pub last_restart : Option ℕ
  pub restarts : List ℕ
  pub latched : Bool

-- What an observation does to the process.
pub data Action : Type 0 where
  nothing : Action
  callback : Action
  exit_after : ℕ → ℕ → Action

-- What an observation reads of the snapshot.
pub record Sight : Type 0 where
  pub results : List CheckResult
  pub uptime : ℕ

abbrev pub hour : ℕ
hour = 3_600_000_000

abbrev pub is_trigger : (ErrorCategory → Bool) → CheckResult → Bool
is_trigger triggers r =
    same_status r.status Status.failing && (elim r.category [ none ↦ false | some c ↦ triggers c ])

-- RestartPolicy._triggering
unfoldable pub triggering : RestartPolicy → Sight → Bool
triggering p snap = any (is_trigger p.triggers) snap.results

abbrev pub cooling : Option ℕ → ℕ → ℕ → Bool
cooling none cooldown now = false
cooling (some last) cooldown now = ltb (now - last) cooldown

-- `t > now - 3600.0`
abbrev pub is_recent : ℕ → ℕ → Bool
is_recent now t = ltb now (t + hour)

-- RestartPolicy._eligible
unfoldable pub eligible : RestartPolicy → Sight → ℕ → RestartPolicy × Bool
eligible p snap now =
    if ltb snap.uptime p.min_uptime
    then (p, false)
    else if cooling p.last_restart p.cooldown now
    then (p, false)
    else let kept = filter (is_recent now) p.restarts in
      if leb p.max_per_hour (length kept)
      then (record p { restarts = kept; latched = true }, false)
      else (record p { restarts = kept }, true)

-- drain_timeout * (1.0 + uniform(-jitter, jitter)), not below 0; `draw` is in thousandths.
abbrev exit_delay : RestartPolicy → ℕ → ℕ
exit_delay p draw =
    (p.drain_timeout * (1_000_000 + 2 * p.jitter * draw) - p.drain_timeout * p.jitter * 1000)
    / 1_000_000

-- RestartPolicy._fire
unfoldable pub fire : RestartPolicy → ℕ → ℕ → RestartPolicy × Action
fire p now draw = (
  record p { last_restart = some now; restarts = p.restarts ++ now ∷ [] },
  if p.has_callback then callback else exit_after (exit_delay p draw) p.exit_code,
)

-- RestartPolicy.observe
unfoldable pub observe : RestartPolicy → Sight → ℕ → ℕ → RestartPolicy × Action
unfolding triggering eligible fire
observe p snap now draw =
    if not p.enabled || p.latched
    then (p, nothing)
    else let hit = triggering p snap in
      let counted = record p { streak = if hit then p.streak + 1 else 0 } in
      if not hit || ltb counted.streak p.after_cycles
      then (counted, nothing)
      else let (checked, may) = eligible counted snap now in
        if may then fire checked now draw else (checked, nothing)
