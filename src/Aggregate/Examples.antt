-- ===== src/Aggregate/Examples.antt =====
-- Tests of core/aggregate.py on two checks, one critical, and the theorems at that input.
use health_mon.Common.{◌≡◌, refl, ◌↔◌, String, none, some, List, [], ◌∷◌, Memᴰ, arith}
use health_mon.Common.Dict.{lookup}
use health_mon.Model.{Status, Readiness, alive}
use health_mon.Machine.{enabled_specs, effective, state}
use health_mon.Machine.Check.{CheckSpec, check_effective}
use health_mon.Machine.Examples.{two_checks, two_checks-IsValid}
use health_mon.Aggregate.{aggregate, views_of, is_booting, worst_of, readiness, reasons}
use health_mon.Aggregate.Worker.{IsSick, aggregate_failing_iff}
use health_mon.Aggregate.Reasons.{reasons_iff_ready}

-- Nothing measured yet: held at starting within the grace, failing after it.
cold_start :
    (aggregate two_checks 5 (some 30) ≡ some Status.starting)
    × (aggregate two_checks 30 (some 30) ≡ some Status.failing)
unfolding aggregate enabled_specs views_of effective lookup check_effective is_booting worst_of
cold_start = (refl, refl)

first_reasons :
    reasons two_checks alive 5
    ≡ some (
        "critical check db has not completed its first evaluation"
        ∷ "non-critical check cache has not completed its first evaluation" ∷ [])
unfolding reasons enabled_specs effective lookup check_effective state
first_reasons = refl

aggregate_failing_iff_example :
    (aggregate two_checks 30 (some 30) ≡ some Status.failing)
    ↔ ((s : CheckSpec) × Memᴰ s (enabled_specs two_checks) × IsSick two_checks 30 s)
aggregate_failing_iff_example =
    aggregate_failing_iff two_checks 30 (some 30) two_checks-IsValid (omega arith)

reasons_iff_ready_example :
    (status : Status) × (lines : List String) × (aggregate two_checks 5 none ≡ some status)
    × (reasons two_checks alive 5 ≡ some lines)
    × ((readiness status alive ≡ Readiness.ready) ↔ (lines ≡ []))
reasons_iff_ready_example = reasons_iff_ready two_checks 5 none alive two_checks-IsValid
