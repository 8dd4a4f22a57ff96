-- ===== src/Aggregate/Worker.antt =====
-- The verdict of `aggregate` on the checks of a machine.
use mathlib.Core.Path.{subst}
use health_mon.Common.{
  ℕ, ◌≤◌, true, false, ◌≡◌, refl, sym, ◌∙◌, ap, ◌↔◌, ◌⊎◌, inl, inr, Option, none, some, List, [],
  ◌∷◌, Memᴰ, any, is_empty, if◌then◌else◌, arith, some_inj, Bool-cases, ◌>>=◌,
}
use health_mon.Model.{Status}
use health_mon.Machine.{StateMachine, enabled_specs, effective}
use health_mon.Machine.Check.{CheckSpec}
use health_mon.Machine.Invariant.{IsValid}
use health_mon.Aggregate.{View, views_of, is_booting, worst_of, aggregate}
use health_mon.Aggregate.Verdict.{is_sick, verdict, worst_of-verdict}
use health_mon.Aggregate.Views.{AllRead, views_total, enabled-Found}

empty_views :
    (m : StateMachine) (now : ℕ) {views : List View} → views_of m now [] ≡ some views → views ≡ []
unfolding views_of
empty_views m now e = sym (some_inj e)

empty_not_booting : (deadline : Option ℕ) (now : ℕ) → is_booting deadline now [] ≡ false
unfolding is_booting
empty_not_booting deadline now = ground arith

-- The code with its early return for no checks, against the same without.
judge : StateMachine → ℕ → Option ℕ → List CheckSpec → Option Status
judge m now deadline specs = if is_empty specs then some Status.ok else do
  views ← views_of m now specs
  some (if is_booting deadline now views then Status.starting else worst_of Status.ok views)

judge_views :
    (m : StateMachine) (now : ℕ) (deadline : Option ℕ) (specs : List CheckSpec) (views : List View)
    → views_of m now specs ≡ some views
    → judge m now deadline specs
      ≡ some (if is_booting deadline now views then Status.starting else verdict views)
unfolding judge
judge_views m now deadline [] views e = rw (empty_views m now e, empty_not_booting deadline now)
judge_views m now deadline (s ∷ specs) views e = rw (e, worst_of-verdict views)

aggregate-judge :
    (m : StateMachine) (now : ℕ) (deadline : Option ℕ)
    → aggregate m now deadline ≡ judge m now deadline (enabled_specs m)
unfolding aggregate judge
aggregate-judge m now deadline = refl

-- On a valid machine `aggregate` always returns, and what it returns is the verdict over the
-- statuses that the enabled checks report, unless the boot grace holds it at starting.
pub aggregate_total :
    (m : StateMachine) (now : ℕ) (deadline : Option ℕ)
    → IsValid m
    → (views : List View) × (views_of m now (enabled_specs m) ≡ some views)
      × AllRead m now (enabled_specs m) views
      × (aggregate m now deadline
          ≡ some (if is_booting deadline now views then Status.starting else verdict views))
aggregate_total m now deadline v =
    let (views, e, read) = views_total m now (enabled_specs m) v (enabled-Found m v) in
    (
      views,
      e,
      read,
      aggregate-judge m now deadline ∙ judge_views m now deadline (enabled_specs m) views e,
    )

-- An enabled critical check that reports failing, or that has no current measurement.
abbrev pub IsSick : StateMachine → ℕ → CheckSpec → Type 0
IsSick m now s =
    (s.critical ≡ true)
    × ((effective m s.name now ≡ some Status.failing)
        ⊎ (effective m s.name now ≡ some Status.unknown))

IsSick-found :
    (m : StateMachine) (now : ℕ) (specs : List CheckSpec) (views : List View)
    → AllRead m now specs views
    → any is_sick views ≡ true
    → (s : CheckSpec) × Memᴰ s specs × IsSick m now s
IsSick-found m now [] [] r h = cc
IsSick-found m now [] (_ ∷ _) r h = absurd r
IsSick-found m now (_ ∷ _) [] r h = absurd r
IsSick-found m now (s ∷ specs) ((s', v) ∷ views) r h = elim (Bool-cases (is_sick (s', v))) [
  | inl sick ↦ (s, Memᴰ.head refl, sick_here s' v sick r.0 r.1)
  | inr not_sick ↦
      let (t, there, sick) = IsSick-found m now specs views r.3 (ground arith) in
      (t, Memᴰ.tail there, sick)
]
  where
    sick_here :
        (s' : CheckSpec) (v : Status)
        → is_sick (s', v) ≡ true
        → s' ≡ s
        → effective m s.name now ≡ some v
        → IsSick m now s
    sick_here s' v sick e at = ground arith

sick_head :
    (m : StateMachine) (now : ℕ) (s t : CheckSpec) (v : Status)
    → t ≡ s
    → effective m s.name now ≡ some v
    → IsSick m now s
    → is_sick (t, v) ≡ true
sick_head m now s t v e at h = ground arith

found_sick :
    (m : StateMachine) (now : ℕ) (s : CheckSpec) (specs : List CheckSpec) (views : List View)
    → AllRead m now specs views
    → Memᴰ s specs
    → IsSick m now s
    → any is_sick views ≡ true
found_sick m now s [] views r mem h = elim mem [ ]
found_sick m now s (t ∷ specs) [] r mem h = absurd r
found_sick m now s (t ∷ specs) ((t', v) ∷ views) r (Memᴰ.head e) h =
    let here : is_sick (t', v) ≡ true = sick_head m now t t' v r.0 r.1 (subst (IsSick m now) e h) in
    rw here
found_sick m now s (t ∷ specs) ((t', v) ∷ views) r (Memᴰ.tail there) h =
    ground (arith, found_sick m now s specs views r.3 there h)

-- The boot grace is over: there is none, or its deadline has come.
abbrev pub GraceOver : Option ℕ → ℕ → Type 0
GraceOver none now = Unit
GraceOver (some deadline) now = deadline ≤ now

not_booting :
    (deadline : Option ℕ) (now : ℕ) (views : List View)
    → GraceOver deadline now
    → is_booting deadline now views ≡ false
unfolding is_booting
not_booting none now views g = refl
not_booting (some deadline) now views g = ground arith

failing_verdict :
    (views : List View) → (verdict views ≡ Status.failing) ↔ (any is_sick views ≡ true)
failing_verdict views = ground arith

-- Once the boot grace is over, a valid machine is failing exactly when some enabled critical check
-- reports failing or has no current measurement. So no check that is not critical can make the
-- worker fail, and no check that is switched off.
pub aggregate_failing_iff :
    (m : StateMachine) (now : ℕ) (deadline : Option ℕ)
    → IsValid m
    → GraceOver deadline now
    → (aggregate m now deadline ≡ some Status.failing)
      ↔ ((s : CheckSpec) × Memᴰ s (enabled_specs m) × IsSick m now s)
aggregate_failing_iff m now deadline v g =
    let (views, e, r, agg) = aggregate_total m now deadline v in
    let plain : aggregate m now deadline ≡ some (verdict views) =
      rw (not_booting deadline now views g) at agg in
    (
      λ h.
          IsSick-found m now (enabled_specs m) views r
            ((failing_verdict views).0 (some_inj (sym plain ∙ h))),
      λ w.
          plain
          ∙ ap some
              ((failing_verdict views).1 (found_sick m now w.0 (enabled_specs m) views r w.1 w.2)),
    )
