-- ===== src/Runner/Late.antt =====
-- What happens to the evaluation after one that timed out (runners/thread_.py, `_collect`).
use health_mon.Common.{
  ℕ, true, false, String, ◌≡◌, refl, sym, ◌∙◌, ap, none, some, arith, is_some, if_on, if_off,
  >>=-eq-some, some_inj, eq_iff,
}
use health_mon.Common.Dict.{lookup, lookup-insert_self, lookup-delete}
use health_mon.Model.{CheckResult}
use health_mon.Machine
use health_mon.Machine.{update_state}
use health_mon.Machine.Check.{CheckSpec}
use health_mon.Monitor.Intake.{Readings, apply}
use health_mon.Runner.{
  Runner, result, pending, finished, Evaluated, run_one, finish, complete, hand_in, time_out,
  settle, collect_one, overdue, dispatch_one, is_running,
}

-- The name is marked as timed out.
abbrev pub Marked : Runner → String → Type 0
Marked w name = lookup name w.timed_out ≡ some true

hand_in-frame :
    (w w' : Runner) (r : CheckResult) (at : Readings)
    → hand_in r at w ≡ some w'
    → (w'.inflight ≡ w.inflight) × (w'.timed_out ≡ w.timed_out)
unfolding hand_in
hand_in-frame w w' r at h =
    let (found, e, h1) = >>=-eq-some (apply w.monitor r at) _ h in
    (
      sym (ap (λ (x : Runner). x.inflight) (some_inj h1)),
      sym (ap (λ (x : Runner). x.timed_out) (some_inj h1)),
    )

time_out-Marked :
    (w w' : Runner) (name : String) (timeout : ℕ) (at : Readings)
    → time_out name timeout at w ≡ some w'
    → (lookup name w'.inflight ≡ none) × Marked w' name
unfolding time_out
time_out-Marked w w' name timeout at h =
    let (flying, marked) = hand_in-frame _ w' _ at h in
    (
      ap (lookup name) flying
          ∙ ground (arith, lookup-delete name name w.inflight, eq_iff name name),
      ap (lookup name) marked ∙ lookup-insert_self name true w.timed_out,
    )

collect_one-Marked :
    (w w' : Runner) (now : ℕ) (at : String → Readings) (name : String) (a b : ℕ) (spec : CheckSpec)
    → Machine.spec w.monitor.machine name ≡ some spec
    → overdue now (lookup name w.started) spec.timeout ≡ true
    → collect_one now at name (pending a b) w ≡ some w'
    → (lookup name w'.inflight ≡ none) × Marked w' name
unfolding collect_one
collect_one-Marked w w' now at name a b spec known late h =
    let (s, e, h1) = >>=-eq-some (Machine.spec w.monitor.machine name) _ h in
    let same : s ≡ spec = some_inj (sym e ∙ known) in
    let late' : overdue now (lookup name w.started) s.timeout ≡ true = rw same late in
    time_out-Marked w w' name s.timeout (at name) (sym (if_on _ _ late') ∙ h1)

dispatch_one-frame :
    (w w' : Runner) (now wall : ℕ) (name : String)
    → lookup name w.inflight ≡ none
    → dispatch_one now wall name w ≡ some w'
    → (lookup name w'.inflight ≡ some (pending now wall)) × (w'.timed_out ≡ w.timed_out)
unfolding dispatch_one
dispatch_one-frame w w' now wall name idle h =
    let off : is_running (lookup name w.inflight) ≡ false = ap is_running idle in
    let (st, e1, h1) =
      >>=-eq-some (Machine.state w.monitor.machine name) _ (sym (if_off _ _ off) ∙ h) in
    let (machine, e2, h2) = >>=-eq-some (update_state _ w.monitor.machine name) _ h1 in
    (
      ap (λ (x : Runner). lookup name x.inflight) (sym (some_inj h2))
          ∙ lookup-insert_self name (pending now wall) w.inflight,
      ap (λ (x : Runner). x.timed_out) (sym (some_inj h2)),
    )

finish-frame :
    (w : Runner) (name : String) (e : Evaluated) (duration now wall : ℕ)
    → let w' = finish name e duration (some (pending now wall)) w in
      (lookup name w'.inflight ≡ some (finished (run_one name now wall e duration w.monitor).1))
      × (w'.timed_out ≡ w.timed_out)
unfolding finish
finish-frame w name e duration now wall = (lookup-insert_self name _ w.inflight, refl)

settle-Marked :
    (w : Runner) (now : ℕ) (at : String → Readings) (name : String) (r : CheckResult)
    → Marked w name
    → (w' : Runner) × (collect_one now at name (finished (result r)) w ≡ some w')
      × (w'.monitor ≡ w.monitor)
unfolding collect_one settle
settle-Marked w now at name r m = (_, if_on _ _ (ap is_some m), refl)

-- If an evaluation ran into its timeout, the check was started afresh and that new evaluation
-- finished with a result, then the result, whatever it is, is dropped: collecting it leaves the
-- monitor as it is. The mark that is meant for the late result of the old evaluation, which is no
-- longer in flight and never collected, hits the next fresh one.
pub fresh_result_dropped :
    (w w1 w2 : Runner) (now : ℕ) (at : String → Readings) (name : String) (a b : ℕ)
    (spec : CheckSpec) (again wall : ℕ) (e : Evaluated) (duration later : ℕ)
    (readings : String → Readings) (r : CheckResult)
    → Machine.spec w.monitor.machine name ≡ some spec
    → overdue now (lookup name w.started) spec.timeout ≡ true
    → collect_one now at name (pending a b) w ≡ some w1
    → dispatch_one again wall name w1 ≡ some w2
    → (run_one name again wall e duration w2.monitor).1 ≡ result r
    → let w3 = complete name e duration w2 in
      (lookup name w3.inflight ≡ some (finished (result r)))
      × (w4 : Runner) × (collect_one later readings name (finished (result r)) w3 ≡ some w4)
      × (w4.monitor ≡ w3.monitor)
unfolding complete
fresh_result_dropped w w1 w2 now at name a b spec again wall e duration later readings r known late
      h1 h2 ends =
    let (idle, marked) = collect_one-Marked w w1 now at name a b spec known late h1 in
    let (fresh, kept) = dispatch_one-frame w1 w2 again wall name idle h2 in
    let (done, kept') = finish-frame w2 name e duration again wall in
    let is : finish name e duration (some (pending again wall)) w2
        ≡ finish name e duration (lookup name w2.inflight) w2 =
      ap (λ o. finish name e duration o w2) (sym fresh) in
    let (w4, e4, same) = settle-Marked _ later readings name r (
      ap (λ (x : Runner). lookup name x.timed_out) (sym is)
      ∙ ap (lookup name) (kept' ∙ kept)
      ∙ marked) in
    (
      ap (λ (x : Runner). lookup name x.inflight) (sym is)
          ∙ done
          ∙ ap (λ ended. some (finished ended)) ends,
      w4,
      e4,
      same,
    )
