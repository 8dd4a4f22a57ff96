-- ===== src/Probes/Factory.antt =====
-- ProbeFactory of probes/factory.py: from a definition to a check that is registered with the
-- monitor. The builders are the caller's: what one comes to is a function of the probe with its
-- params resolved. The check that it gives is known by its name and its latency policy.
use health_mon.Common.{ℕ, Bool, true, false, String, Option, none, some, List, [], ◌∷◌, ◌++◌}
use health_mon.Common.Dict.{Dict, lookup, set_default}
use health_mon.Machine.Check
use health_mon.Machine.Check.{CheckSpec}
use health_mon.Monitor.{Monitor, register}
use health_mon.Probes.{
  Value, number, pos, unknown_type, built_nothing, not_a_mapping, refused_by_builder, Failure,
  config, other_error, Result, ok, err, ◌>>=◌, Python,
}
use health_mon.Probes.Spec.{ProbeSpec, registration, with_params}
use health_mon.Probes.Definition.{Definition, from_raw, label_of}
use health_mon.Probes.Context.{resolved_params}

-- What a builder comes to: a check, None, a ProbeConfigError or another exception.
pub data Built : Type 0 where
  check nothing refused crashed : Built

abbrev pub Builder : Type 0
Builder = ProbeSpec → Dict Value → Built

-- What `create` sets on the check that a builder gives.
pub record BuiltCheck : Type 0 where
  pub name : String
  pub latency_warn_ms : Option ℕ
  pub latency_critical_ms : Option ℕ

threshold_params : List (String × (ProbeSpec → Option ℕ))
threshold_params =
    ("pool_warn_ratio", λ s. s.pool_warn_ratio)
    ∷ ("pool_critical_ratio", λ s. s.pool_critical_ratio)
    ∷ ("stale_after", λ s. s.stale_after_seconds)
    ∷ ("max_idle", λ s. s.stale_after_seconds)
    ∷ []

promote : String → Option ℕ → Dict Value → Dict Value
promote param none params = params
promote param (some n) params = set_default param (number (pos n)) params

promote_each : List (String × (ProbeSpec → Option ℕ)) → ProbeSpec → Dict Value → Dict Value
unfolding promote
promote_each [] spec params = params
promote_each ((param, of) ∷ rest) spec params =
    promote_each rest spec (promote param (of spec) params)

-- _promote_thresholds
unfoldable pub promote_thresholds : ProbeSpec → ProbeSpec
unfolding promote_each threshold_params
promote_thresholds spec = record spec { params = promote_each threshold_params spec spec.params }

unfoldable pub finish : ProbeSpec → Built → Result BuiltCheck
finish spec check = ok (record {
  name = spec.name;
  latency_warn_ms = spec.latency_warn_ms;
  latency_critical_ms = spec.latency_critical_ms;
})
finish spec nothing = err (config (built_nothing spec.name))
finish spec refused = err (config (refused_by_builder spec.name))
finish spec crashed = err other_error

unfoldable pub build : Python → ProbeSpec → Dict Value → Option Builder → Result BuiltCheck
unfolding finish
build py spec context none = err (config (unknown_type spec.name spec.type))
build py spec context (some builder) = do
  params ← resolved_params spec.name spec.params context
  resolved ← with_params py spec params
  finish spec (builder (promote_thresholds resolved) context)

-- create
unfoldable pub create : Python → Dict Builder → ProbeSpec → Dict Value → Result BuiltCheck
unfolding build
create py builders spec context = build py spec context (lookup spec.type builders)

-- install
unfoldable pub install :
    Python → Dict Builder → Monitor → ProbeSpec → Dict Value → Result (Monitor × BuiltCheck)
unfolding create
install py builders m spec context = do
  c ← create py builders spec context
  ok (register m (registration spec), c)

-- _install_broken, of a check that always reports FAILING
unfoldable pub install_broken : Monitor → ProbeSpec → Monitor
install_broken m spec = register m (registration spec)

-- The settings of a check that is registered with no more than a name, and as not critical.
abbrev pub default_settings : String → CheckSpec
default_settings name = Check.post_init (record {
  name = name;
  critical = false;
  enabled = true;
  interval = 10_000_000;
  timeout = 3_000_000;
  ttl = 30_000_000;
  failure_threshold = 3;
  success_threshold = 2;
  breaker_threshold = 5;
  jitter = 200;
  max_silence = 30_000_000;
  backoff_initial = 5_000_000;
  backoff_max = 60_000_000;
  backoff_multiplier = 2_000;
  backoff_jitter = 100;
  max_backoff = none;
})

-- An element of the list of probes: a spec, a mapping, or anything else.
pub data Raw : Type 0 where
  built : ProbeSpec → Raw
  definition : Definition → Raw
  stray : Raw

unfoldable pub name_of : Raw → String
name_of (built spec) = spec.name
name_of (definition d) = label_of d "unnamed-probe"
name_of stray = "unnamed-probe"

-- _install_unparsable
unfoldable pub install_unparsable : Monitor → Raw → Monitor
unfolding name_of
install_unparsable m raw = register m (default_settings (name_of raw))

-- ProbeSpec.from_raw, unless the element is a spec already
unfoldable pub parse : Python → Raw → Result ProbeSpec
unfolding from_raw
parse py (built spec) = ok spec
parse py (definition d) = from_raw py d
parse py stray = err (config not_a_mapping)

-- The state of the loop of install_from_config: the monitor and the list `installed`.
abbrev pub Installed : Type 0
Installed = Monitor × List BuiltCheck

-- An `except ProbeConfigError` that raises again if `strict`, and else goes on with a placeholder.
abbrev pub unless_strict : Bool → Failure → Installed → Result Installed
unless_strict false (config e) instead = ok instead
unless_strict strict e instead = err e

unfoldable pub keep_check :
    Bool → Result (Monitor × BuiltCheck) → Monitor → List BuiltCheck → Result Installed
keep_check strict (ok (m, c)) broken done = ok (m, done ++ c ∷ [])
keep_check strict (err e) broken done = unless_strict strict e (broken, done)

unfoldable pub install_parsed :
    Bool
    → Python
    → Dict Builder
    → Dict Value
    → Raw
    → Result ProbeSpec
    → Installed
    → Result Installed
unfolding keep_check
install_parsed strict py builders context raw (ok spec) (m, done) =
    keep_check strict (install py builders m spec context) (install_broken m spec) done
install_parsed strict py builders context raw (err e) (m, done) =
    unless_strict strict e (install_unparsable m raw, done)

-- The body of the loop of install_from_config
unfoldable pub install_one :
    Bool → Python → Dict Builder → Dict Value → Raw → Installed → Result Installed
unfolding install_parsed
install_one strict py builders context raw found =
    install_parsed strict py builders context raw (parse py raw) found

-- install_from_config
unfoldable pub install_from_config :
    Bool → Python → Dict Builder → Dict Value → List Raw → Installed → Result Installed
unfolding install_one
install_from_config strict py builders context [] found = ok found
install_from_config strict py builders context (raw ∷ rest) found = do
  found' ← install_one strict py builders context raw found
  install_from_config strict py builders context rest found'
