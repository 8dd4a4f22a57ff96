-- ===== src/Runner/Ready.antt =====
-- What holds of a runner between two steps of it, and that its invariant survives each step of the
-- scheduler and of the pool.
use health_mon.Common.{
  ℕ, String, ◌≡◌, refl, ◌∙◌, inl, inr, Option, some, [], ◌∷◌, ◌++◌, All, All-weaken, is_some, if_on,
  if_off, Bool-cases,
}
use health_mon.Common.Dict.{Dict, lookup, delete, All-delete}
use health_mon.Model.{CheckResult}
use health_mon.Machine
use health_mon.Machine.{StateMachine, update_state}
use health_mon.Machine.Runs.{known-Registered}
use health_mon.Monitor.Intake.{Readings}
use health_mon.Monitor.Sound.{Has, IsSound}
use health_mon.Monitor.Calls.{apply_total, machine-IsSound}
use health_mon.Runner.{
  Runner, Ended, result, failed, escaped, Future, pending, finished, hand_in, time_out,
  timeout_result, settle, collect_one, collect, overdue,
}

-- A result bears the name of the check that it is of, and no BaseException waits to be raised again.
abbrev pub Bears : String → Ended → Type 0
Bears name (result r) = r.name ≡ name
Bears name failed = Unit
Bears name escaped = ⊥

abbrev pub Fits : String → Future → Type 0
Fits name (pending _ _) = Unit
Fits name (finished e) = Bears name e

-- An evaluation in flight is of a registered check.
abbrev pub InFlight : StateMachine → String × Future → Type 0
InFlight machine (name, future) = Has machine name × Fits name future

pub record IsReady (w : Runner) : Type 0 where
  pub sound : IsSound w.monitor
  pub flying : All (InFlight w.monitor.machine) w.inflight

-- A step that returns, leaves a ready runner and keeps the registered checks.
abbrev pub Steps : Runner → Option Runner → Type 0
Steps w o =
    (w' : Runner) × (o ≡ some w')
    × IsReady w'
    × (w'.monitor.machine.specs ≡ w.monitor.machine.specs)

pub hand_in-Steps :
    (w : Runner) (r : CheckResult) (at : Readings)
    → IsReady w
    → Has w.monitor.machine r.name
    → Steps w (hand_in r at w)
unfolding hand_in
hand_in-Steps w r at i k =
    let (found, e, sound, specs) = apply_total w.monitor r at i.sound k in
    (
      record w { monitor = found.0; actions = w.actions ++ found.1 ∷ [] },
      rw e refl,
      record {
        sound = sound;
        flying =
            All-weaken (InFlight w.monitor.machine) (InFlight found.0.machine) w.inflight
              (λ x h. (rw specs h.0, h.1)) i.flying;
      },
      specs,
    )

time_out-Steps :
    (w : Runner) (name : String) (timeout : ℕ) (at : Readings)
    → IsReady w
    → Has w.monitor.machine name
    → Steps w (time_out name timeout at w)
unfolding time_out timeout_result
time_out-Steps w name timeout at i k =
    hand_in-Steps _ (timeout_result name at.now at.wall timeout) at
      (record {
        sound = machine-IsSound w.monitor _ i.sound refl refl;
        flying = All-delete (InFlight w.monitor.machine) name w.inflight i.flying;
      })
      k

settle-Steps :
    (w : Runner) (name : String) (e : Ended) (at : Readings)
    → IsReady w
    → Has w.monitor.machine name
    → Bears name e
    → Steps w (settle name e at w)
unfolding settle
settle-Steps w name escaped at i k b = absurd b
settle-Steps w name failed at i k b = (w, refl, i, refl)
settle-Steps w name (result r) at i k b = elim (Bool-cases (is_some (lookup name w.timed_out))) [
  | inl late ↦ (
    record w { timed_out = delete name w.timed_out },
    if_on _ _ late,
    record { sound = i.sound; flying = i.flying },
    refl,
  )
  | inr fresh ↦
      let (w', e, i', specs) = hand_in-Steps w r at i (rw b k) in
      (w', if_off _ _ fresh ∙ e, i', specs)
]

pub collect_one-Steps :
    (w : Runner) (now : ℕ) (at : String → Readings) (name : String) (future : Future)
    → IsReady w
    → InFlight w.monitor.machine (name, future)
    → Steps w (collect_one now at name future w)
unfolding collect_one Machine.spec
collect_one-Steps w now at name (pending a b) i (k, _) =
    let r = known-Registered w.monitor.machine name i.sound.valid k in
    elim (Bool-cases (overdue now (lookup name w.started) r.spec.timeout)) [
      | inl late ↦
          let (w', e, i', specs) = time_out-Steps w name r.spec.timeout (at name) i k in
          (w', rw r.spec_at (if_on _ _ late ∙ e), i', specs)
      | inr early ↦ (w, rw r.spec_at (if_off _ _ early), i, refl)
    ]
collect_one-Steps w now at name (finished o) i (k, b) =
    settle-Steps _ name o (at name)
      (record {
        sound = i.sound;
        flying = All-delete (InFlight w.monitor.machine) name w.inflight i.flying;
      })
      k b

-- Every turn over what was in flight returns, whatever the turns before it did.
pub collect-Steps :
    (w : Runner) (now : ℕ) (at : String → Readings) (items : Dict Future)
    → IsReady w
    → All (InFlight w.monitor.machine) items
    → Steps w (collect now at items w)
unfolding collect
collect-Steps w now at [] i h = (w, refl, i, refl)
collect-Steps w now at ((name, future) ∷ rest) i h =
    let (w1, e1, i1, s1) = collect_one-Steps w now at name future i h.0 in
    let (w2, e2, i2, s2) = collect-Steps w1 now at rest i1 (
      All-weaken (InFlight w.monitor.machine) (InFlight w1.monitor.machine) rest
        (λ x k. (rw s1 k.0, k.1)) h.1) in
    (w2, rw e1 e2, i2, s2 ∙ s1)
