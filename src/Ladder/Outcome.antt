-- ===== src/Ladder/Outcome.antt =====
-- The results that an adapter builds: `ok`, `degraded` and `fail` of BaseCheck in checks/base.py.
-- `latency` is the time since the evaluation began.
use health_mon.Common.{ℕ, String, Option, none, some}
use health_mon.Common.Dict.{Dict}
use health_mon.Model.{Status, Evidence, ErrorCategory, CheckResult, Primitive}
use health_mon.Ladder.{BaseCheck, CheckContext}

result_of :
    Status
    → Option ErrorCategory
    → BaseCheck
    → CheckContext
    → ℕ
    → Evidence
    → Option String
    → Dict Primitive
    → CheckResult
result_of status category check ctx latency evidence detail observed = record {
  name = check.name;
  status = status;
  checked_at = ctx.now;
  wall_clock = ctx.wall;
  evidence = evidence;
  latency = some latency;
  category = category;
  evidence_age = some 0;
  detail = detail;
  observed = observed;
}

unfoldable pub passed : BaseCheck → CheckContext → ℕ → Evidence → Dict Primitive → CheckResult
unfolding result_of
passed check ctx latency evidence observed =
    result_of Status.ok none check ctx latency evidence none observed

unfoldable pub degrade :
    BaseCheck
    → CheckContext
    → ErrorCategory
    → ℕ
    → Evidence
    → Option String
    → Dict Primitive
    → CheckResult
unfolding result_of
degrade check ctx category latency evidence detail observed =
    result_of Status.degraded (some category) check ctx latency evidence detail observed

unfoldable pub fail :
    BaseCheck
    → CheckContext
    → ErrorCategory
    → ℕ
    → Evidence
    → Option String
    → Dict Primitive
    → CheckResult
unfolding result_of
fail check ctx category latency evidence detail observed =
    result_of Status.failing (some category) check ctx latency evidence detail observed
