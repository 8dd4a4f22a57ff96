-- ===== src/Monitor/Frame.antt =====
-- Building a snapshot and running the restart policy leave the worker's own state alone.
use mathlib.Core.Path.{subst}
use health_mon.Common.{
  ℕ, Bool, true, false, not, ◌||◌, String, ◌≡◌, refl, Option, none, some, List, if◌then◌else◌,
  >>=-eq-some, some_inj,
}
use health_mon.Common.Dict.{Dict}
use health_mon.Model.{Status, CheckResult, Snapshot}
use health_mon.Restart.{Action, RestartPolicy}
use health_mon.Monitor.{Monitor, aggregate_status, readiness_reasons}
use health_mon.Monitor.Intake.{
  project, assemble, snapshot, watch, policy_step, run_policy, Readings,
}
use health_mon.Monitor.Drain.{SameWorker, SameWorker-trans, aggregate_status_same}

assemble_same :
    (m : Monitor) (status : Status) (projected : Dict CheckResult) (lines : List String)
    (now wall build : ℕ)
    → SameWorker m (assemble m status projected lines now wall build).0
unfolding assemble
assemble_same m status projected lines now wall build = (refl, refl, refl, refl, refl, refl)

pub snapshot_same :
    (m : Monitor) (now wall build : ℕ) (found : Monitor × Snapshot)
    → snapshot m now wall build ≡ some found
    → SameWorker m found.0
unfolding snapshot
snapshot_same m now wall build found h =
    let (seen, h1, h2) = >>=-eq-some (aggregate_status m now) _ h in
    let (projected, h3, h4) = >>=-eq-some (project seen.0.machine now seen.0.results) _ h2 in
    let (lines, h5, h6) = >>=-eq-some (readiness_reasons seen.0 now) _ h4 in
    subst (λ x. SameWorker m x.0) (some_inj h6)
      (SameWorker-trans m seen.0 (assemble seen.0 seen.1 projected lines now wall build).0
        (aggregate_status_same m now seen h1)
        (assemble_same seen.0 seen.1 projected lines now wall build))

watch_same :
    (m : Monitor) (p : RestartPolicy) (at : Readings) (o : Option (Monitor × Snapshot))
    → snapshot m at.now at.wall at.build ≡ o
    → SameWorker m (watch m p at o).0
unfolding watch
watch_same m p at none h = (refl, refl, refl, refl, refl, refl)
watch_same m p at (some (m', snap)) h = snapshot_same m at.now at.wall at.build (m', snap) h

same_if :
    (m : Monitor) (b : Bool) (x y : Monitor × Action)
    → SameWorker m x.0
    → SameWorker m y.0
    → SameWorker m (if b then x else y).0
same_if m true x y hx hy = hx
same_if m false x y hx hy = hy

policy_step_same :
    (m : Monitor) (at : Readings) (o : Option RestartPolicy) → SameWorker m (policy_step m at o).0
unfolding policy_step
policy_step_same m at none = (refl, refl, refl, refl, refl, refl)
policy_step_same m at (some p) =
    same_if m (not p.enabled || p.latched) _ _ (refl, refl, refl, refl, refl, refl)
      (watch_same m p at (snapshot m at.now at.wall at.build) refl)

pub run_policy_same : (m : Monitor) (at : Readings) → SameWorker m (run_policy m at).0
unfolding run_policy
run_policy_same m at = policy_step_same m at m.policy
