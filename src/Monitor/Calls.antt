-- ===== src/Monitor/Calls.antt =====
-- The calls that a HealthMonitor serves (monitor.py), as data, so that a run is a list of them: on
-- a sound monitor each returns and leaves a sound monitor.
use health_mon.Common.{
  ℕ, ◌<◌, Bool, true, false, String, ◌≡◌, refl, ◌∙◌, ap, inl, inr, Option, none, some, List, [],
  ◌∷◌, All, All-weaken, arith, if◌then◌else◌, if_off, if_on, ◌>>=◌, Returns, is_some-Returns,
  >>=-Returns, Bool-cases, is_some, str_eq, ◌||◌,
}
use health_mon.Common.Dict.{insert, lookup-insert, All-insert, lookup}
use health_mon.Model.{Readiness, Liveness, CheckResult}
use health_mon.Events.{emit, worker_draining}
use health_mon.Aggregate.Reasons.{reasons_iff_ready}
use health_mon.Aggregate
use health_mon.Machine
use health_mon.Machine.{StateMachine, add}
use health_mon.Machine.Check.{CheckSpec}
use health_mon.Machine.Registry.{update_state-Updated}
use health_mon.Machine.Operations as Operations
use health_mon.Machine.Operations.{set_enabled-Switched, perform}
use health_mon.Machine.Invariant.{IsValid, add-IsValid}
use health_mon.Machine.Runs.{known-Registered, perform_total}
use health_mon.Monitor.{
  Monitor, register, set_enabled, start, stop, note_activity, readiness, aggregate_status, liveness,
  readiness_reasons,
}
use health_mon.Monitor.Intake.{
  Readings, apply, accept, run_policy, tick, note_readiness, begin_shutdown, snapshot, project,
}
use health_mon.Monitor.Drain.{SameWorker, aggregate_status_same, tick_same, undrained}
use health_mon.Monitor.Frame.{run_policy_same, snapshot_same}
use health_mon.Monitor.Sound.{
  Has, HasResult, IsSound, recompute_self_faults_total, aggregate_status_total,
  readiness_reasons_total, project_total,
}
use health_mon.Restart.{Action}

-- The invariant reads the state machine and the stored results only.
pub machine-IsSound :
    (m m' : Monitor) → IsSound m → m'.machine ≡ m.machine → m'.results ≡ m.results → IsSound m'
machine-IsSound m m' s q v = record { valid = rw q s.valid; stored = rw (q, v) s.stored }

pub SameWorker-IsSound : (m m' : Monitor) → SameWorker m m' → IsSound m → IsSound m'
SameWorker-IsSound m m' (_, q, _, _, _, v) s = machine-IsSound m m' s q v

add-Has :
    (machine : StateMachine) (spec : CheckSpec) (k : String)
    → Has machine k
    → Has (add machine spec) k
unfolding add
add-Has machine spec k h = ground (arith, lookup-insert spec.name k spec machine.specs)

switch-Has :
    (machine machine' : StateMachine) (name : String) (enabled : Bool) (now : ℕ) (k : String)
    → Machine.set_enabled machine name enabled now ≡ some machine'
    → Has machine k
    → Has machine' k
switch-Has machine machine' name enabled now k e h =
    let w = set_enabled-Switched machine name enabled now e in
    rw w.specs
      (ground (arith, lookup-insert name k (record w.spec { enabled = enabled }) machine.specs))

-- What a result that is taken in does to the state machine.
apply-machine :
    (machine : StateMachine) (r : CheckResult) (now draw : ℕ)
    → IsValid machine
    → Has machine r.name
    → (machine' : StateMachine) × (Machine.apply machine r.name r now draw ≡ some machine')
      × IsValid machine'
      × (machine'.specs ≡ machine.specs)
unfolding perform Machine.apply
apply-machine machine r now draw v k =
    let (machine', e, v') = perform_total (Operations.observe r.name r now draw) machine tt k v in
    (machine', e, v', (update_state-Updated _ machine r.name e).specs)

-- Taking in the result of a registered check returns, and the monitor that is left is sound and
-- knows the same checks.
pub apply_total :
    (m : Monitor) (r : CheckResult) (at : Readings)
    → IsSound m
    → Has m.machine r.name
    → (found : Monitor × Action) × (apply m r at ≡ some found)
      × IsSound found.0
      × (found.0.machine.specs ≡ m.machine.specs)
unfolding apply accept Machine.state
apply_total m r at s k =
    let (machine', e, v', specs) = apply-machine m.machine r at.now at.draw s.valid k in
    let before = known-Registered m.machine r.name s.valid k in
    let k' : Has machine' r.name = rw specs k in
    let after = known-Registered machine' r.name v' k' in
    let stored : All (HasResult machine') (insert r.name r m.results) =
      All-insert (HasResult machine') r.name r m.results k' (
        All-weaken (HasResult m.machine) (HasResult machine') m.results (λ x h. rw specs h)
          s.stored) in
    let (faults, ef) =
      recompute_self_faults_total m.live_on_self_fault machine' (insert r.name r m.results) v'
        stored in
    let next = accept m r before.state.effective after.state.effective machine' faults in
    let same = run_policy_same next at in
    (
      run_policy next at,
      rw (before.state_at, e, after.state_at, ef) refl,
      SameWorker-IsSound next (run_policy next at).0 same (record { valid = v'; stored = stored }),
      ap (λ (x : StateMachine). x.specs) same.1 ∙ specs,
    )

note_readiness_total :
    (m : Monitor) (current : Readiness) (lines : Option (List String))
    → Returns lines
    → Returns (note_readiness m current lines)
unfolding note_readiness
note_readiness_total m current lines (l, e) =
    is_some-Returns (note_readiness m current lines) (ground arith)

reasons_total :
    (machine : StateMachine) (live : Liveness) (now : ℕ)
    → IsValid machine
    → Returns (Aggregate.reasons machine live now)
reasons_total machine live now v =
    let (_, lines, _, e, _) = reasons_iff_ready machine now none live v in (lines, e)

-- The runner's tick returns on every sound monitor.
pub tick_total : (m : Monitor) (now : ℕ) (delay : Option ℕ) → IsSound m → Returns (tick m now delay)
unfolding tick
tick_total m now delay s =
    >>=-Returns (aggregate_status _ now) _ (aggregate_status_total _ now s.valid) (λ found _.
      note_readiness_total found.0 _ _ (reasons_total m.machine (liveness m now) now s.valid))

snapshot_total :
    (m : Monitor) (now wall build : ℕ) → IsSound m → Returns (snapshot m now wall build)
unfolding snapshot
snapshot_total m now wall build s =
    >>=-Returns (aggregate_status m now) _ (aggregate_status_total m now s.valid) (λ found e.
      let s' = SameWorker-IsSound m found.0 (aggregate_status_same m now found e) s in
      >>=-Returns (project found.0.machine now found.0.results) _
        (project_total found.0.machine now found.0.results s'.valid s'.stored)
        (λ projected _.
          >>=-Returns (readiness_reasons found.0 now) _
            (readiness_reasons_total found.0 now s'.valid) (λ lines _. (_, refl))))

-- A call of the monitor, with what it reads from outside.
pub data Call : Type 0 where
  add_check : CheckSpec → Call
  switch : String → Bool → ℕ → Call
  begin : ℕ → ℕ → Call
  finish : Call
  activity : ℕ → Call
  intake : CheckResult → Readings → Call
  cycle : ℕ → Option ℕ → Call
  ask_ready : ℕ → Call
  ask_health : ℕ → ℕ → ℕ → Call
  shutdown : String → ℕ → Call

-- The monitor that a call leaves.
unfoldable pub serve : Call → Monitor → Option Monitor
serve (add_check spec) m = some (register m spec)
serve (switch name enabled now) m = set_enabled m name enabled now
serve (begin now grace) m = some (start m now grace)
serve finish m = some (stop m)
serve (activity at) m = some (note_activity m at)
serve (intake r at) m = do found ← apply m r at; some found.0
serve (cycle now delay) m = tick m now delay
serve (ask_ready now) m = do found ← readiness m now; some found.0
serve (ask_health now wall build) m = do found ← snapshot m now wall build; some found.0
serve (shutdown reason now) m = begin_shutdown m reason now

unfoldable pub serve_all : List Call → Monitor → Option Monitor
unfolding serve
serve_all [] m = some m
serve_all (c ∷ rest) m = do m' ← serve c m; serve_all rest m'

-- What a call may be given: a new check has a positive failure threshold, and the other calls that
-- name a check name a registered one.
abbrev pub Allowed : Call → Monitor → Type 0
Allowed (add_check spec) m = 0 < spec.failure_threshold
Allowed (switch name _ _) m = Has m.machine name
Allowed (intake r _) m = Has m.machine r.name
Allowed _ m = Unit

set_enabled-IsSound :
    (m : Monitor) (name : String) (enabled : Bool) (now : ℕ)
    → IsSound m
    → Has m.machine name
    → (m' : Monitor) × (set_enabled m name enabled now ≡ some m') × IsSound m'
unfolding set_enabled perform
set_enabled-IsSound m name enabled now s k =
    let (machine', e, v') =
      perform_total (Operations.switch name enabled now) m.machine tt k s.valid in
    (
      record m { machine = machine' },
      rw e refl,
      record {
        valid = v';
        stored =
            All-weaken (HasResult m.machine) (HasResult machine') m.results
              (λ x h. switch-Has m.machine machine' name enabled now x.0 e h) s.stored;
      },
    )

kept :
    (m : Monitor) (o : Option Monitor)
    → IsSound m
    → Returns o
    → ((m' : Monitor) → o ≡ some m' → SameWorker m m')
    → (m' : Monitor) × (o ≡ some m') × IsSound m'
kept m o s (m', e) same = (m', e, SameWorker-IsSound m m' (same m' e) s)

begin_shutdown-IsSound :
    (m : Monitor) (reason : String) (now : ℕ)
    → IsSound m
    → (m' : Monitor) × (begin_shutdown m reason now ≡ some m') × IsSound m'
unfolding begin_shutdown
begin_shutdown-IsSound m reason now s = elim (Bool-cases m.draining) [
  | inl on ↦ (m, if_on _ _ on, s)
  | inr off ↦
      let begun : Monitor = record m {
        draining = true;
        drain_reason = reason;
        events = emit m.events (worker_draining reason);
      } in
      let s' : IsSound begun = record { valid = s.valid; stored = s.stored } in
      let (m', e, sound) =
        kept begun (tick begun now none) s' (tick_total begun now none s')
          (tick_same begun now none) in
      (m', if_off _ _ off ∙ e, sound)
]

ready_by :
    (b : Bool) (m : Monitor) (now : ℕ)
    → IsSound m
    → (found : Monitor × Readiness) × ((if b
          then some (m, Readiness.unready)
          else aggregate_status m now >>= undrained now)
        ≡ some found)
      × IsSound found.0
ready_by true m now s = (_, refl, s)
ready_by false m now s =
    let (found, e) = aggregate_status_total m now s.valid in
    (
      (found.0, Aggregate.readiness found.1 (liveness found.0 now)),
      rw e refl,
      SameWorker-IsSound m found.0 (aggregate_status_same m now found e) s,
    )

readiness-IsSound :
    (m : Monitor) (now : ℕ)
    → IsSound m
    → (found : Monitor × Readiness) × (readiness m now ≡ some found) × IsSound found.0
unfolding readiness
readiness-IsSound m now s = ready_by m.draining m now s

start-IsSound : (m : Monitor) (now grace : ℕ) → IsSound m → IsSound (start m now grace)
unfolding start
start-IsSound m now grace s = machine-IsSound m _ s (ground arith) (ground arith)

stop-IsSound : (m : Monitor) → IsSound m → IsSound (stop m)
unfolding stop
stop-IsSound m s = machine-IsSound m _ s (ground arith) (ground arith)

pub register-IsSound :
    (m : Monitor) (spec : CheckSpec)
    → 0 < spec.failure_threshold
    → IsSound m
    → IsSound (register m spec)
unfolding register
register-IsSound m spec a s = record {
  valid = add-IsValid m.machine spec a s.valid;
  stored =
      All-weaken (HasResult m.machine) (HasResult (add m.machine spec)) m.results
        (λ x h. add-Has m.machine spec x.0 h) s.stored;
}

-- A check is registered under its name, and no other name is lost.
pub register-Has :
    (m : Monitor) (spec : CheckSpec) (k : String)
    → (str_eq spec.name k || is_some (lookup k m.machine.specs)) ≡ true
    → Has (register m spec).machine k
unfolding register add
register-Has m spec k h = ground (arith, lookup-insert spec.name k spec m.machine.specs)

-- On a sound monitor each of its calls returns, and leaves a sound monitor. A call that adds a check
-- needs a positive failure threshold, and one that names a check a registered check.
pub serve-IsSound :
    (c : Call) (m : Monitor)
    → Allowed c m
    → IsSound m
    → (m' : Monitor) × (serve c m ≡ some m') × IsSound m'
unfolding serve register start stop note_activity
serve-IsSound (add_check spec) m a s = (register m spec, refl, register-IsSound m spec a s)
serve-IsSound (switch name enabled now) m a s = set_enabled-IsSound m name enabled now s a
serve-IsSound (begin now grace) m a s = (start m now grace, refl, start-IsSound m now grace s)
serve-IsSound finish m a s = (stop m, refl, stop-IsSound m s)
serve-IsSound (activity at) m a s =
    (note_activity m at, refl, record { valid = s.valid; stored = s.stored })
serve-IsSound (intake r at) m a s =
    let (found, e, sound, _) = apply_total m r at s a in (found.0, rw e refl, sound)
serve-IsSound (cycle now delay) m a s =
    kept m (tick m now delay) s (tick_total m now delay s) (tick_same m now delay)
serve-IsSound (ask_ready now) m a s =
    let (found, e, sound) = readiness-IsSound m now s in (found.0, rw e refl, sound)
serve-IsSound (ask_health now wall build) m a s =
    let (found, e) = snapshot_total m now wall build s in
    (found.0, rw e refl, SameWorker-IsSound m found.0 (snapshot_same m now wall build found e) s)
serve-IsSound (shutdown reason now) m a s = begin_shutdown-IsSound m reason now s

-- Each call of a run may be given what it is given, when its turn comes.
abbrev pub AllowedAll : List Call → Monitor → Type 0
AllowedAll [] m = Unit
AllowedAll (c ∷ rest) m = Allowed c m × ((m' : Monitor) → serve c m ≡ some m' → AllowedAll rest m')

-- From a sound monitor every run of its calls returns, with no exception on the way, and leaves a
-- sound monitor: a valid state machine, and stored results of registered checks only. A call that
-- adds a check needs a positive failure threshold, and one that names a check a registered one.
pub serve_all-IsSound :
    (calls : List Call) (m : Monitor)
    → AllowedAll calls m
    → IsSound m
    → (m' : Monitor) × (serve_all calls m ≡ some m') × IsSound m'
unfolding serve_all
serve_all-IsSound [] m a s = (m, refl, s)
serve_all-IsSound (c ∷ rest) m a s =
    let (m1, e, s1) = serve-IsSound c m a.0 s in
    let (m', e', s') = serve_all-IsSound rest m1 (a.1 m1 e) s1 in (m', rw e e', s')
