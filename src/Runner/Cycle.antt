-- ===== src/Runner/Cycle.antt =====
-- A cycle of the scheduler returns, unless a check ended by a BaseException, which ends the scheduler
-- thread.
use health_mon.Common.{
  ℕ, ◌+◌, ◌-◌, String, ◌≡◌, refl, ◌∙◌, ap, inl, inr, Option, none, some, List, [], ◌∷◌, All,
  All-weaken, AnyOf, Option-cases, arith, is_some, if_on, if_off, ◌>>=◌, leb, Bool-cases,
}
use health_mon.Common.Dict.{
  Dict, lookup, insert, values, All-insert, All-lookup, Distinct, lookup_self, lookup_weaken,
}
use health_mon.Machine
use health_mon.Machine.{StateMachine, update_state}
use health_mon.Machine.Check.{CheckSpec, CheckState}
use health_mon.Machine.Registry.{update_state_total}
use health_mon.Machine.Invariant.{IsValid, IsSane, Named, update-IsValid}
use health_mon.Machine.Runs.{known-Registered}
use health_mon.Monitor.{Monitor}
use health_mon.Monitor.Intake.{Readings, tick}
use health_mon.Monitor.Sound.{Has, IsSound}
use health_mon.Monitor.Calls.{machine-IsSound, tick_total, SameWorker-IsSound}
use health_mon.Monitor.Drain.{tick_same}
use health_mon.Runner.{
  Runner, escaped, collect, collect_one, settle, Future, pending, finished, Evaluated, returned,
  raised, malformed, broke_out, run_one, finish, complete, due_checks, dispatch_one, dispatch_all,
  dispatch, is_running, record_schedule_lag, beat, cycle, or_same,
}
use health_mon.Runner.Ready.{Bears, InFlight, IsReady, Steps, collect-Steps}

abbrev postpone : ℕ → CheckSpec → CheckState → CheckState
postpone now spec st = record st { next_due = now + spec.interval }

postpone-IsSane :
    (now : ℕ) (s : CheckSpec) (st : CheckState) → IsSane s st → IsSane s (postpone now s st)
postpone-IsSane now s st h = ground arith

pub dispatch_one-Steps :
    (w : Runner) (now wall : ℕ) (name : String)
    → IsReady w
    → Has w.monitor.machine name
    → Steps w (dispatch_one now wall name w)
unfolding dispatch_one Machine.state
dispatch_one-Steps w now wall name i k = elim (Bool-cases (is_running (lookup name w.inflight))) [
  | inl on ↦ (w, if_on _ _ on, i, refl)
  | inr off ↦
      let r = known-Registered w.monitor.machine name i.sound.valid k in
      let machine : StateMachine = record w.monitor.machine {
        states = insert name (postpone now r.spec r.state) w.monitor.machine.states;
      } in
      let e = update_state_total (postpone now) w.monitor.machine name r in
      (
        record w {
          monitor = record w.monitor {
            machine = machine;
            timings = record_schedule_lag name now r.state w.monitor.timings;
          };
          started = insert name now w.started;
          inflight = insert name (pending now wall) w.inflight;
        },
        if_off _ _ off ∙ rw (r.state_at, r.spec_at) refl,
        record {
          sound = record {
            valid =
                update-IsValid (postpone now) (postpone-IsSane now) w.monitor.machine machine name
                  i.sound.valid e;
            stored = i.sound.stored;
          };
          flying =
              All-insert (InFlight machine) name (pending now wall) w.inflight (k, tt) i.flying;
        },
        refl,
      )
]

dispatch_all-Steps :
    (w : Runner) (now wall : ℕ) (names : List String)
    → IsReady w
    → All (Has w.monitor.machine) names
    → Steps w (dispatch_all now wall names w)
unfolding dispatch_all
dispatch_all-Steps w now wall [] i h = (w, refl, i, refl)
dispatch_all-Steps w now wall (name ∷ rest) i h =
    let (w1, e1, i1, s1) = dispatch_one-Steps w now wall name i h.0 in
    let (w2, e2, i2, s2) =
      dispatch_all-Steps w1 now wall rest i1
        (All-weaken (Has w.monitor.machine) (Has w1.monitor.machine) rest (λ x k. rw s1 k) h.1) in
    (w2, rw e1 e2, i2, s2 ∙ s1)

-- Settings that are registered under their own name.
abbrev pub IsListed : StateMachine → CheckSpec → Type 0
IsListed machine s = lookup s.name machine.specs ≡ some s

values-IsListed :
    (machine : StateMachine) (d : Dict CheckSpec)
    → All Named d
    → Distinct d
    → ((k : String) (s : CheckSpec) → lookup k d ≡ some s → lookup k machine.specs ≡ some s)
    → All (IsListed machine) (values d)
values-IsListed machine [] n u into = tt
values-IsListed machine ((j, s) ∷ d) n u into = (
  ap (λ k. lookup k machine.specs) n.0 ∙ into j s (lookup_self j s d),
  values-IsListed machine d n.1 u.1 (λ k t h. into k t (lookup_weaken k j s t d u.0 h)),
)

pub specs-IsListed :
    (machine : StateMachine) → IsValid machine → All (IsListed machine) (values machine.specs)
specs-IsListed machine v = values-IsListed machine machine.specs v.named v.distinct (λ k s h. h)

-- The due checks are found, and each is registered.
pub due_checks_total :
    (machine : StateMachine) (now : ℕ) (specs : List CheckSpec)
    → IsValid machine
    → All (IsListed machine) specs
    → (names : List String) × (due_checks machine now specs ≡ some names) × All (Has machine) names
unfolding due_checks Machine.state
due_checks_total machine now [] v h = ([], refl, tt)
due_checks_total machine now (s ∷ rest) v h =
    let (names, e, k) = due_checks_total machine now rest v h.1 in
    let here : Has machine s.name = ap is_some h.0 in
    let r = known-Registered machine s.name v here in
    elim (Bool-cases s.enabled) [
      | inl on ↦ elim (Bool-cases (leb r.state.next_due now)) [
        | inl due ↦ (s.name ∷ names, rw (on, r.state_at, e, due) refl, (here, k))
        | inr not_due ↦ (names, rw (on, r.state_at, e, not_due) refl, k)
      ]
      | inr off ↦ (names, rw (off, e) refl, k)
    ]

dispatch-Steps : (w : Runner) (now wall : ℕ) → IsReady w → Steps w (dispatch now wall w)
unfolding dispatch
dispatch-Steps w now wall i =
    let (names, e, k) =
      due_checks_total w.monitor.machine now (values w.monitor.machine.specs) i.sound.valid
        (specs-IsListed w.monitor.machine i.sound.valid) in
    let (w', e', i', s) = dispatch_all-Steps w now wall names i k in (w', rw e e', i', s)

-- What the last statement of a cycle leaves: the tick never raises on a ready runner, so the
-- `except` around it hides nothing.
tick-Ready :
    (w : Runner) (now : ℕ) (delay : Option ℕ)
    → IsReady w
    → IsReady (record w { monitor = or_same w.monitor (tick w.monitor now delay) })
      × ((or_same w.monitor (tick w.monitor now delay)).machine.specs ≡ w.monitor.machine.specs)
tick-Ready w now delay i =
    let (m, e) = tick_total w.monitor now delay i.sound in
    let same = tick_same w.monitor now delay m e in
    let s : IsSound m = SameWorker-IsSound w.monitor m same i.sound in
    let k : m.machine ≡ w.monitor.machine = same.1 in
    rw e (record { sound = s; flying = rw k i.flying }, ap (λ (x : StateMachine). x.specs) k)

-- A cycle returns on every ready runner, and keeps the registered checks.
pub cycle_total :
    (w : Runner) (now wall : ℕ) (at : String → Readings) → IsReady w → Steps w (cycle now wall at w)
unfolding cycle beat
cycle_total w now wall at i =
    let begun : IsReady (beat now w) = record {
      sound = machine-IsSound w.monitor _ i.sound refl refl;
      flying = i.flying;
    } in
    let (w1, e1, i1, s1) = collect-Steps (beat now w) now at w.inflight begun i.flying in
    let (w2, e2, i2, s2) = dispatch-Steps w1 now wall i1 in
    let (i3, s3) = tick-Ready w2 now (some (now - (w.last_beat + w.period))) i2 in
    (_, rw (e1, e2) refl, i3, s3 ∙ s2 ∙ s1)

-- What a check's code gives bears the check's name, and is no BaseException.
abbrev pub Gives : String → Evaluated → Type 0
Gives name (returned r) = r.name ≡ name
Gives name (raised _) = Unit
Gives name malformed = Unit
Gives name broke_out = ⊥

run_one-same :
    (name : String) (now wall : ℕ) (e : Evaluated) (duration : ℕ) (m : Monitor)
    → ((run_one name now wall e duration m).0.machine ≡ m.machine)
      × ((run_one name now wall e duration m).0.results ≡ m.results)
      × (Gives name e → Bears name (run_one name now wall e duration m).1)
unfolding run_one
run_one-same name now wall (returned r) duration m = (refl, refl, λ g. g)
run_one-same name now wall (raised category) duration m = (refl, refl, λ g. refl)
run_one-same name now wall malformed duration m = (refl, refl, λ g. tt)
run_one-same name now wall broke_out duration m = (refl, refl, λ g. g)

finished-Ready :
    (w : Runner) (name : String) (e : Evaluated) (duration now wall : ℕ)
    → IsReady w
    → Gives name e
    → Has w.monitor.machine name
    → let (m, ended) = run_one name now wall e duration w.monitor in
      IsReady (record w { monitor = m; inflight = insert name (finished ended) w.inflight })
finished-Ready w name e duration now wall i g k =
    let (machine, results, bears) = run_one-same name now wall e duration w.monitor in
    record {
      sound = machine-IsSound w.monitor _ i.sound machine results;
      flying =
          rw machine
            (All-insert (InFlight w.monitor.machine) name _ w.inflight (k, bears g) i.flying);
    }

complete-Ready :
    (w : Runner) (name : String) (e : Evaluated) (duration : ℕ)
    → IsReady w
    → Gives name e
    → IsReady (complete name e duration w)
unfolding complete
complete-Ready w name e duration i g = go (lookup name w.inflight) refl
  where
    go : (o : Option Future) → lookup name w.inflight ≡ o → IsReady (finish name e duration o w)
    go none h = i
    go (some (finished _)) h = i
    go (some (pending now wall)) h =
        finished-Ready w name e duration now wall i g
          (All-lookup (InFlight w.monitor.machine) name (pending now wall) w.inflight h i.flying).0

-- A step of the whole: the scheduler runs a cycle, or the pool ends an evaluation.
pub data Turn : Type 0 where
  schedule : ℕ → ℕ → (String → Readings) → Turn
  end : String → Evaluated → ℕ → Turn

unfoldable pub take : Turn → Runner → Option Runner
take (schedule now wall at) w = cycle now wall at w
take (end name e duration) w = some (complete name e duration w)

unfoldable pub take_all : List Turn → Runner → Option Runner
unfolding take
take_all [] w = some w
take_all (t ∷ rest) w = do w' ← take t w; take_all rest w'

abbrev pub BearsName : Turn → Type 0
BearsName (schedule _ _ _) = Unit
BearsName (end name e _) = Gives name e

-- In whatever order the pool ends evaluations between the cycles, and whatever results, Exceptions
-- and timeouts they come to, every run of the scheduler from a ready runner goes on: each cycle
-- returns and leaves a ready runner, as long as a result bears the name of its check and no check
-- ends by a BaseException that is no Exception.
pub turns_total :
    (turns : List Turn) (w : Runner)
    → All BearsName turns
    → IsReady w
    → (w' : Runner) × (take_all turns w ≡ some w') × IsReady w'
unfolding take_all
turns_total [] w n i = (w, refl, i)
turns_total (schedule now wall at ∷ rest) w n i =
    let (w1, e, i1, _) = cycle_total w now wall at i in
    let (w', e', i') = turns_total rest w1 n.1 i1 in (w', rw e e', i')
turns_total (end name e duration ∷ rest) w n i =
    turns_total rest (complete name e duration w) n.1 (complete-Ready w name e duration i n.0)

IsEscaped : String × Future → Type 0
IsEscaped (_, future) = future ≡ finished escaped

collect-escaped :
    (now : ℕ) (at : String → Readings) (items : Dict Future) (w : Runner)
    → AnyOf IsEscaped items
    → collect now at items w ≡ none
unfolding collect collect_one settle IsEscaped
collect-escaped now at [] w h = absurd h
collect-escaped now at ((name, future) ∷ rest) w (inl here) = rw here refl
collect-escaped now at ((name, future) ∷ rest) w (inr later) =
    elim (Option-cases (collect_one now at name future w)) [
      | inl e ↦ rw e refl
      | inr (w', e) ↦ rw e (collect-escaped now at rest w' later)
    ]

-- One check that ended by a BaseException ends the scheduler thread at its next cycle, whatever else
-- is in flight.
escaped_ends_scheduler :
    (w : Runner) (now wall : ℕ) (at : String → Readings)
    → AnyOf IsEscaped w.inflight
    → cycle now wall at w ≡ none
unfolding cycle beat
escaped_ends_scheduler w now wall at h = rw (collect-escaped now at w.inflight (beat now w) h) refl
