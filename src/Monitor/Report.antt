-- ===== src/Monitor/Report.antt =====
-- What a worker answers: its snapshot, /ready, /live and the reasons agree with one another.
use mathlib.Core.Path.{subst}
use health_mon.Common.{
  ℕ, Bool, true, false, ◌≡◌, refl, sym, ◌∙◌, ap, ◌||◌, ◌>>=◌, ◌↔◌, String, Option, none, some, List,
  [], ◌∷◌, arith, inl, inr, if◌then◌else◌, >>=-eq-some, some_inj, Bool-cases,
}
use health_mon.Common.Dict.{Dict}
use health_mon.Model.{
  Status, Readiness, CheckResult, Snapshot, snapshot_readiness, snapshot_liveness,
}
use health_mon.Aggregate
use health_mon.Aggregate.Reasons.{reasons_iff_ready}
use health_mon.Machine.Invariant.{IsValid}
use health_mon.Monitor.{
  Monitor, aggregate_status, liveness, live_status, readiness, readiness_reasons,
}
use health_mon.Monitor.Intake.{snapshot, project, assemble}
use health_mon.Monitor.Drain.{
  aggregate_status_same, liveness_same, readiness_verdict, verdict_at, undrained,
}

-- The vocabulary of a snapshot and the one of aggregate.py give the same readiness.
assembled_readiness :
    (m : Monitor) (status : Status) (projected : Dict CheckResult) (lines : List String)
    (now wall build : ℕ)
    → snapshot_readiness (assemble m status projected lines now wall build).1
      ≡ (if m.draining then Readiness.unready else Aggregate.readiness status (liveness m now))
unfolding assemble snapshot_readiness Aggregate.readiness liveness
assembled_readiness m status projected lines now wall build = ground arith

answer_of :
    (b : Bool) (m : Monitor) (now : ℕ) (found : Monitor × Status)
    → aggregate_status m now ≡ some found
    → (seen : Monitor) × ((if b
          then some (m, Readiness.unready)
          else aggregate_status m now >>= undrained now)
        ≡ some (
          seen,
          (if b then Readiness.unready else Aggregate.readiness found.1 (liveness found.0 now)),
        ))
answer_of true m now found h = (m, refl)
answer_of false m now found h = (found.0, rw h refl)

readiness_seen :
    (m : Monitor) (now : ℕ) (found : Monitor × Status)
    → aggregate_status m now ≡ some found
    → (seen : Monitor) × (readiness m now
        ≡ some (
          seen,
          (if found.0.draining
              then Readiness.unready
              else Aggregate.readiness found.1 (liveness found.0 now)),
        ))
unfolding readiness
readiness_seen m now found h =
    let (seen, answer) = answer_of m.draining m now found h in
    (
      seen,
      answer
          ∙ ap
              (λ b. some (
                seen,
                (if b
                    then Readiness.unready
                    else Aggregate.readiness found.1 (liveness found.0 now)),
              ))
              (sym (aggregate_status_same m now found h).0),
    )

assembled_liveness :
    (m : Monitor) (status : Status) (projected : Dict CheckResult) (lines : List String)
    (now wall build : ℕ)
    → snapshot_liveness (assemble m status projected lines now wall build).1 ≡ liveness m now
unfolding assemble snapshot_liveness liveness
assembled_liveness m status projected lines now wall build = refl

assembled_reasons :
    (m : Monitor) (status : Status) (projected : Dict CheckResult) (lines : List String)
    (now wall build : ℕ)
    → readiness_reasons (assemble m status projected lines now wall build).0 now
      ≡ readiness_reasons m now
unfolding assemble readiness_reasons liveness live_status
assembled_reasons m status projected lines now wall build = refl

-- A snapshot answers what the worker answers at the moment it is built: the same readiness, the
-- same liveness, and the reasons that the worker gives after it.
pub snapshot_answers :
    (m : Monitor) (now wall build : ℕ) (m' : Monitor) (snap : Snapshot)
    → snapshot m now wall build ≡ some (m', snap)
    → ((seen : Monitor) × (readiness m now ≡ some (seen, snapshot_readiness snap)))
      × (snapshot_liveness snap ≡ liveness m now)
      × (readiness_reasons m' now ≡ some snap.reasons)
unfolding snapshot assemble
snapshot_answers m now wall build m' snap h =
    let (found, h1, h2) = >>=-eq-some (aggregate_status m now) _ h in
    let (projected, h3, h4) = >>=-eq-some (project found.0.machine now found.0.results) _ h2 in
    let (lines, h5, h6) = >>=-eq-some (readiness_reasons found.0 now) _ h4 in
    let (seen, answer) = readiness_seen m now found h1 in
    subst
      (λ x.
        ((seen : Monitor) × (readiness m now ≡ some (seen, snapshot_readiness x.1)))
        × (snapshot_liveness x.1 ≡ liveness m now)
        × (readiness_reasons x.0 now ≡ some x.1.reasons))
      (some_inj h6)
      (
        (
          seen,
          answer
              ∙ ap (λ r. some (seen, r))
                  (sym (assembled_readiness found.0 found.1 projected lines now wall build)),
        ),
        assembled_liveness found.0 found.1 projected lines now wall build
            ∙ liveness_same m found.0 now (aggregate_status_same m now found h1),
        assembled_reasons found.0 found.1 projected lines now wall build ∙ h5,
      )

verdict_aggregate :
    (m : Monitor) (now : ℕ) (status : Status)
    → verdict_at m.machine m.boot_done m.boot_deadline now ≡ some status
    → (deadline : Option ℕ) × (Aggregate.aggregate m.machine now deadline ≡ some status)
verdict_aggregate m now status h =
    let (complete, _, h2) =
      >>=-eq-some (if m.boot_done then some false else Aggregate.boot_complete m.machine) _ h in
    ((if m.boot_done || complete then none else m.boot_deadline), h2)

drained_reasons :
    (m : Monitor) (now : ℕ) (lines : List String)
    → Aggregate.reasons m.machine (liveness m now) now ≡ some lines
    → readiness_reasons m now ≡ some (if m.draining then m.drain_reason ∷ lines else lines)
unfolding readiness_reasons
drained_reasons m now lines h = rw h refl

unready_at :
    (m : Monitor) (now : ℕ) (m' : Monitor) (answer : Readiness)
    → m.draining ≡ true
    → readiness m now ≡ some (m', answer)
    → answer ≡ Readiness.unready
unfolding readiness
unready_at m now m' answer on h = ground arith

-- On a valid machine every answer of /ready has its reasons: they always come out, and the worker
-- is ready exactly when there is none. So a worker that is told to drain, whose loop is stuck or
-- whose dependencies are in any way unwell says why.
readiness_explained :
    (m : Monitor) (now : ℕ) (m' : Monitor) (answer : Readiness)
    → IsValid m.machine
    → readiness m now ≡ some (m', answer)
    → (lines : List String) × (readiness_reasons m now ≡ some lines)
      × ((answer ≡ Readiness.ready) ↔ (lines ≡ []))
readiness_explained m now m' answer v h = elim (Bool-cases m.draining) [
  | inl on ↦
      let (_, lines, _, written, _) = reasons_iff_ready m.machine now none (liveness m now) v in
      let no : answer ≡ Readiness.unready = unready_at m now m' answer on h in
      (
        m.drain_reason ∷ lines,
        drained_reasons m now lines written
            ∙ ap (λ b. some (if b then m.drain_reason ∷ lines else lines)) on,
        (λ yes. ground arith, λ e. ground arith),
      )
  | inr off ↦
      let (status, at, same) = readiness_verdict m now m' answer off h in
      let (deadline, agg) = verdict_aggregate m now status at in
      let (status', lines, agg', written, ready_iff) =
        reasons_iff_ready m.machine now deadline (liveness m now) v in
      let agree : status' ≡ status = some_inj (sym agg' ∙ agg) in
      let value : Aggregate.readiness status' (liveness m now) ≡ answer =
        ap (λ s. Aggregate.readiness s (liveness m now)) agree ∙ sym same in
      (
        lines,
        drained_reasons m now lines written
            ∙ ap (λ b. some (if b then m.drain_reason ∷ lines else lines)) off,
        subst (λ r. (r ≡ Readiness.ready) ↔ (lines ≡ [])) value ready_iff,
      )
]
