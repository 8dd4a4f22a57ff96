-- ===== src/Aggregate/Reasons.antt =====
-- The reasons of core/aggregate.py: there is one exactly when the worker is not plainly ready.
use health_mon.Common.{
  ℕ, String, Bool, true, false, ◌&&◌, ◌≡◌, ◌≢◌, refl, ◌↔◌, Option, none, some, List, [], ◌∷◌, ◌++◌,
  All, any, all, filter, is_empty, if◌then◌else◌, arith,
}
use health_mon.Model.{Status, Readiness, Liveness, same_status, same_liveness, alive, unalive}
use health_mon.Machine.{StateMachine, enabled_specs, state}
use health_mon.Machine.Check.{CheckSpec, CheckState}
use health_mon.Machine.Invariant.{IsValid}
use health_mon.Aggregate.{
  View, is_critical, view_ok, is_booting, aggregate, readiness, reason_of, check_reasons, reasons,
}
use health_mon.Aggregate.Verdict.{is_sick, is_fine, verdict}
use health_mon.Aggregate.Views.{Found, reading, AllRead, enabled-Found}
use health_mon.Aggregate.Worker.{aggregate_total}

-- A check that reports anything but OK gives a line.
reason_of-empty :
    (s : CheckSpec) (v : Status) (st : CheckState)
    → v ≢ Status.starting
    → v ≢ Status.disabled
    → is_empty (reason_of s v st) ≡ same_status v Status.ok
unfolding reason_of
reason_of-empty s v st a b = ground arith

is_empty-append {ℓ} :
    {A : Type ℓ} (xs ys : List A) → is_empty (xs ++ ys) ≡ is_empty xs && is_empty ys
is_empty-append [] ys = refl
is_empty-append (x ∷ xs) ys = refl

-- The lines over all checks, and whether there are none.
check_reasons_total :
    (m : StateMachine) (now : ℕ) (specs : List CheckSpec) (views : List View)
    → IsValid m
    → All (Found m.specs) specs
    → AllRead m now specs views
    → (lines : List String) × (check_reasons m now specs ≡ some lines)
      × (is_empty lines ≡ all view_ok views)
unfolding check_reasons state
check_reasons_total m now [] [] v f r = ([], refl, refl)
check_reasons_total m now [] (_ ∷ _) v f r = absurd r
check_reasons_total m now (_ ∷ _) [] v f r = absurd r
check_reasons_total m now (s ∷ specs) ((s', x) ∷ views) v f r =
    let here = reading m now s v f.0 in
    let (lines, e, empty) = check_reasons_total m now specs views v f.1 r.3 in
    (
      reason_of s x here.state ++ lines,
      rw (r.1, here.state_at, e),
      rw (
        is_empty-append (reason_of s x here.state) lines,
        reason_of-empty s x here.state r.2.0 r.2.1,
        empty,
      ),
    )

no_ok_no_boot :
    (deadline : Option ℕ) (now : ℕ) (views : List View)
    → all view_ok views ≡ true
    → is_booting deadline now views ≡ false
unfolding is_booting
no_ok_no_boot none now views h = refl
no_ok_no_boot (some deadline) now views h = ground (arith, all_ok_filter views h)
  where
    all_ok_filter :
        (views : List View)
        → all view_ok views ≡ true
        → all view_ok (filter is_critical views) ≡ true
    all_ok_filter [] h = refl
    all_ok_filter (v ∷ views) h = ground (arith, all_ok_filter views)

fine_is_ok :
    (m : StateMachine) (now : ℕ) (specs : List CheckSpec) (views : List View)
    → AllRead m now specs views
    → (any is_sick views ≡ false) × (all is_fine views ≡ true)
    → all view_ok views ≡ true
fine_is_ok m now [] [] r h = refl
fine_is_ok m now [] (_ ∷ _) r h = absurd r
fine_is_ok m now (_ ∷ _) [] r h = absurd r
fine_is_ok m now (s ∷ specs) ((s', x) ∷ views) r h =
    ground (arith, r.2.0, r.2.1, fine_is_ok m now specs views r.3)

ok_is_fine :
    (views : List View)
    → all view_ok views ≡ true
    → (any is_sick views ≡ false) × (all is_fine views ≡ true)
ok_is_fine [] h = (refl, refl)
ok_is_fine ((s, x) ∷ views) h = ground (arith, ok_is_fine views)

ready_iff :
    (status : Status) (liveness : Liveness)
    → status ≢ Status.disabled
    → (readiness status liveness ≡ Readiness.ready) ↔ ((status ≡ Status.ok) × (liveness ≡ alive))
unfolding readiness
ready_iff status liveness h = ground arith

verdict_ok :
    (booting : Bool) (views : List View)
    → ((if booting then Status.starting else verdict views) ≡ Status.ok)
      ↔ ((booting ≡ false) × (any is_sick views ≡ false) × (all is_fine views ≡ true))
verdict_ok booting views = ground arith

verdict-ne-disabled :
    (booting : Bool) (views : List View)
    → (if booting then Status.starting else verdict views) ≢ Status.disabled
verdict-ne-disabled booting views = ground arith

abbrev lag_line : Liveness → List String
lag_line liveness =
    if same_liveness liveness unalive then "event loop lag above threshold" ∷ [] else []

reasons_lines :
    (m : StateMachine) (liveness : Liveness) (now : ℕ) (lines : List String)
    → check_reasons m now (enabled_specs m) ≡ some lines
    → reasons m liveness now ≡ some (lag_line liveness ++ lines)
unfolding reasons
reasons_lines m liveness now lines e = rw e

no_lines_iff :
    (status : Status) (liveness : Liveness) (lines : List String) (ok : Bool)
    → (status ≡ Status.ok) ↔ (ok ≡ true)
    → status ≢ Status.disabled
    → is_empty lines ≡ ok
    → (readiness status liveness ≡ Readiness.ready) ↔ (lag_line liveness ++ lines ≡ [])
no_lines_iff status alive [] ok e d n = ground (arith, ready_iff status alive d)
no_lines_iff status alive (x ∷ lines) ok e d n = ground (arith, ready_iff status alive d)
no_lines_iff status unalive lines ok e d n = ground (arith, ready_iff status unalive d)

-- On a valid machine the verdict and its reasons always come out, and the worker is ready exactly
-- when the list of reasons is empty: every answer but `ready` carries at least one line.
pub reasons_iff_ready :
    (m : StateMachine) (now : ℕ) (deadline : Option ℕ) (liveness : Liveness)
    → IsValid m
    → (status : Status) × (lines : List String) × (aggregate m now deadline ≡ some status)
      × (reasons m liveness now ≡ some lines)
      × ((readiness status liveness ≡ Readiness.ready) ↔ (lines ≡ []))
reasons_iff_ready m now deadline liveness v =
    let (views, e, read, agg) = aggregate_total m now deadline v in
    let specs = enabled_specs m in
    let (lines, written, empty) =
      check_reasons_total m now specs views v (enabled-Found m v) read in
    let booting = is_booting deadline now views in
    let ok_iff : ((if booting then Status.starting else verdict views) ≡ Status.ok)
        ↔ (all view_ok views ≡ true) =
      (
        λ h.
            fine_is_ok m now specs views read
              (((verdict_ok booting views).0 h).1, ((verdict_ok booting views).0 h).2),
        λ h.
            (verdict_ok booting views).1
              (no_ok_no_boot deadline now views h, (ok_is_fine views h).0, (ok_is_fine views h).1),
      ) in
    (
      (if booting then Status.starting else verdict views),
      lag_line liveness ++ lines,
      agg,
      reasons_lines m liveness now lines written,
      no_lines_iff _ liveness lines (all view_ok views) ok_iff (verdict-ne-disabled booting views)
          empty,
    )
