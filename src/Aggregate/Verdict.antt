-- ===== src/Aggregate/Verdict.antt =====
-- The loop of core/aggregate.py against a description that has no loop and no severities.
use health_mon.Common.{Bool, ◌&&◌, ◌||◌, ◌≡◌, refl, List, [], ◌∷◌, arith, any, all, if◌then◌else◌}
use health_mon.Model.{Status, same_status}
use health_mon.Aggregate.{View, worst_of, is_ok}

-- A critical check that fails, or that has no measurement.
abbrev pub is_sick : View → Bool
is_sick (s, v) = s.critical && (same_status v Status.failing || same_status v Status.unknown)

abbrev pub is_fine : View → Bool
is_fine (s, v) = is_ok v || same_status v Status.disabled

abbrev pub verdict : List View → Status
verdict views =
    if any is_sick views
    then Status.failing
    else if all is_fine views
    then Status.ok
    else Status.degraded

worst_of-failing : (views : List View) → worst_of Status.failing views ≡ Status.failing
unfolding worst_of
worst_of-failing [] = refl
worst_of-failing ((s, v) ∷ rest) = ground (arith, worst_of-failing rest)

worst_of-degraded :
    (views : List View)
    → worst_of Status.degraded views
      ≡ (if any is_sick views then Status.failing else Status.degraded)
unfolding worst_of
worst_of-degraded [] = refl
worst_of-degraded ((s, v) ∷ rest) = ground (arith, worst_of-failing rest, worst_of-degraded rest)

-- The loop of `aggregate` computes this verdict: failing when a critical check is failing or
-- unknown, otherwise OK when every check is OK or disabled, otherwise degraded. The order of the
-- checks does not matter, and no other status comes out.
pub worst_of-verdict : (views : List View) → worst_of Status.ok views ≡ verdict views
unfolding worst_of
worst_of-verdict [] = refl
worst_of-verdict ((s, v) ∷ rest) =
    ground (arith, worst_of-failing rest, worst_of-degraded rest, worst_of-verdict rest)
