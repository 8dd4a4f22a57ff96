-- ===== src/Monitor/Drain.antt =====
-- A worker that was asked to stop (monitor.py, `begin_shutdown`).
use health_mon.Common.{
  ℕ, Bool, true, false, ◌||◌, String, ◌≡◌, refl, sym, ◌∙◌, ap, Option, none, some, List, arith,
  if◌then◌else◌, ◌>>=◌, >>=-eq-some, some_inj, if_off,
}
use health_mon.Model.{Status, Readiness}
use health_mon.Events.{emit, worker_draining}
use health_mon.Aggregate
use health_mon.Machine.{StateMachine}
use health_mon.Monitor.{liveness, Monitor, live_status, aggregate_status, readiness}
use health_mon.Monitor.Intake.{note_readiness, tick, begin_shutdown}

-- What a tick leaves alone.
abbrev pub SameWorker : Monitor → Monitor → Type 0
SameWorker m m' =
    (m'.draining ≡ m.draining)
    × (m'.machine ≡ m.machine)
    × (m'.self_faults ≡ m.self_faults)
    × (m'.loop_beat ≡ m.loop_beat)
    × (m'.lag_threshold ≡ m.lag_threshold)
    × (m'.results ≡ m.results)

pub aggregate_status_same :
    (m : Monitor) (now : ℕ) (found : Monitor × Status)
    → aggregate_status m now ≡ some found
    → SameWorker m found.0
unfolding aggregate_status
aggregate_status_same m now found h =
    (ground arith, ground arith, ground arith, ground arith, ground arith, ground arith)

pub SameWorker-trans : (a b c : Monitor) → SameWorker a b → SameWorker b c → SameWorker a c
SameWorker-trans a b c (p, q, r, s, t, u) (p', q', r', s', t', u') =
    (p' ∙ p, q' ∙ q, r' ∙ r, s' ∙ s, t' ∙ t, u' ∙ u)

note_readiness_same :
    (m : Monitor) (current : Readiness) (lines : Option (List String)) (m' : Monitor)
    → note_readiness m current lines ≡ some m'
    → SameWorker m m'
unfolding note_readiness
note_readiness_same m current lines m' h =
    (ground arith, ground arith, ground arith, ground arith, ground arith, ground arith)

pub tick_same :
    (m : Monitor) (now : ℕ) (delay : Option ℕ) (m' : Monitor)
    → tick m now delay ≡ some m'
    → SameWorker m m'
unfolding tick
tick_same m now delay m' h =
    let (found, h1, h2) = >>=-eq-some (aggregate_status _ now) _ h in
    SameWorker-trans m found.0 m' (aggregate_status_same _ now found h1)
      (note_readiness_same found.0 _ _ m' h2)

-- A shutdown that begins takes the worker out of rotation and leaves its liveness alone: at every
-- later time readiness is `unready`, whatever the checks say, /live answers what it would have
-- answered, and a second signal changes nothing.
pub shutdown_effect :
    (m : Monitor) (reason : String) (now : ℕ) (m' : Monitor)
    → m.draining ≡ false
    → begin_shutdown m reason now ≡ some m'
    → ((t : ℕ) → readiness m' t ≡ some (m', Readiness.unready))
      × ((t : ℕ) → live_status m' t ≡ live_status m t)
      × ((again : String) (t : ℕ) → begin_shutdown m' again t ≡ some m')
unfolding begin_shutdown readiness live_status
shutdown_effect m reason now m' idle h =
    let begun : tick
          (record m {
            draining = true;
            drain_reason = reason;
            events = emit m.events (worker_draining reason);
          })
          now none
        ≡ some m' =
      ground arith in
    let (p, q, r, s, u, _) = tick_same _ now none m' begun in
    (λ t. rw p refl, λ t. rw (r, s, u) refl, λ again t. rw p refl)

-- The verdict of `_aggregate_status`, as a function of what it reads.
abbrev pub verdict_at : StateMachine → Bool → Option ℕ → ℕ → Option Status
verdict_at machine done deadline now = do
  complete ← if done then some false else Aggregate.boot_complete machine
  Aggregate.aggregate machine now (if done || complete then none else deadline)

aggregate_status_verdict :
    (m : Monitor) (now : ℕ) (found : Monitor × Status)
    → aggregate_status m now ≡ some found
    → verdict_at m.machine m.boot_done m.boot_deadline now ≡ some found.1
unfolding aggregate_status
aggregate_status_verdict m now found h = ground arith

pub liveness_same : (a b : Monitor) (now : ℕ) → SameWorker a b → liveness b now ≡ liveness a now
unfolding liveness live_status
liveness_same a b now (p, q, r, s, u, _) = ground arith

abbrev pub undrained : ℕ → Monitor × Status → Option (Monitor × Readiness)
undrained now found = some (found.0, Aggregate.readiness found.1 (liveness found.0 now))

pub readiness_verdict :
    (m : Monitor) (now : ℕ) (m' : Monitor) (v : Readiness)
    → m.draining ≡ false
    → readiness m now ≡ some (m', v)
    → (status : Status) × (verdict_at m.machine m.boot_done m.boot_deadline now ≡ some status)
      × (v ≡ Aggregate.readiness status (liveness m now))
unfolding readiness
readiness_verdict m now m' v idle h =
    let answer : Monitor × Readiness = (m', v) in
    let plain : (aggregate_status m now >>= undrained now) ≡ some answer =
      sym (if_off (some (m, Readiness.unready)) _ idle) ∙ h in
    let (found, h1, h2) = >>=-eq-some (aggregate_status m now) (undrained now) plain in
    (
      found.1,
      aggregate_status_verdict m now found h1,
      sym (ap (λ x. x.1) (some_inj h2))
          ∙ ap (Aggregate.readiness found.1)
              (liveness_same m found.0 now (aggregate_status_same m now found h1)),
    )
