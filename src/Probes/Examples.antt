-- ===== src/Probes/Examples.antt =====
-- Probe definitions as tests, and the theorems applied to them.
use health_mon.Common.{
  ℕ, ◌≤◌, ◌<◌, ◌≡◌, refl, Bool, true, false, String, Option, none, some, List, [], ◌∷◌, arith, All,
  if◌then◌else◌, leb, str_eq,
}
use health_mon.Common.Dict.{Dict, lookup}
use health_mon.Machine.Check.{backoff_base}
use health_mon.Monitor.{register}
use health_mon.Monitor.Sound.{Has, IsSound}
use health_mon.Monitor.Examples.{worker, worker-IsSound}
use health_mon.Probes.{
  ℤ, pos, negsuc, Value, number, text, null, config, overlap, not_positive, shrinking_backoff,
  Ensures-ok, not_buildable, type_error, value_error, missing_reference, live, Result, ok, err,
  Python, special, nan, unmodelled,
}
use health_mon.Probes.Spec.{RawSpec, ProbeSpec, post_init, with_params, registration}
use health_mon.Probes.Definition.{Definition, raw_spec, from_raw}
use health_mon.Probes.Factory.{
  Built, check, nothing, refused, crashed, Builder, Raw, built, definition, stray, Installed,
  install_from_config,
}
use health_mon.Probes.Bounds.{InBounds, post_init-Ensures}
use health_mon.Probes.Acceptable.{with_params-again}
use health_mon.Probes.Registered.{registration-sane}
use health_mon.Probes.Tame.{CalmBuilder}
use health_mon.Probes.Lenient.{lenient_install, IsProper}

-- An interpreter that reads no text as a number but "nan".
abbrev py : Python
py = record {
  float_of = λ s. if str_eq s "nan" then some (special nan) else none;
  int_of = λ _. none;
}

abbrev or_else : ProbeSpec → Result ProbeSpec → ProbeSpec
or_else s (ok s') = s'
or_else s (err _) = s

abbrev redis : RawSpec
redis = raw_spec "redis" "cache" (("interval", number (pos 5_000)) ∷ [])

abbrev blank : ProbeSpec
blank = record {
  type = "";
  name = "";
  critical = true;
  enabled = true;
  interval = 0;
  timeout = 0;
  failure_threshold = 0;
  success_threshold = 0;
  max_silence = 0;
  ttl = pos 0;
  backoff_initial = 0;
  backoff_max = 0;
  backoff_multiplier = 0;
  backoff_jitter = 0;
  latency_warn_ms = none;
  latency_critical_ms = none;
  pool_warn_ratio = none;
  pool_critical_ratio = none;
  stale_after_seconds = none;
  params = [];
}

abbrev cache : ProbeSpec
cache = or_else blank (post_init py redis)

accepts : post_init py redis ≡ ok cache
unfolding post_init raw_spec health_mon.Probes.Spec.positive_field health_mon.Probes.to_float lookup
    health_mon.Probes.Spec.timeout_of health_mon.Probes.Spec.count_field health_mon.Probes.to_int
    health_mon.Probes.Spec.natural_field health_mon.Probes.Spec.ttl_of
accepts = refl

derives : (cache.timeout ≡ 2_000) × (cache.ttl ≡ pos 12_000)
unfolding post_init raw_spec health_mon.Probes.Spec.positive_field health_mon.Probes.to_float lookup
    health_mon.Probes.Spec.timeout_of health_mon.Probes.Spec.count_field health_mon.Probes.to_int
    health_mon.Probes.Spec.natural_field health_mon.Probes.Spec.ttl_of
derives = (refl, refl)

cache-InBounds : InBounds cache
cache-InBounds = Ensures-ok InBounds (post_init py redis) accepts (post_init-Ensures py redis)

registration-sane_example :
    let c = registration cache in
    (0 < c.timeout)
    × (c.timeout ≤ c.interval)
    × (0 < c.success_threshold)
    × (backoff_base c 1 ≡ c.backoff_initial)
    × (backoff_base c 2 ≤ backoff_base c 5)
    × (backoff_base c 5 ≤ c.backoff_max)
    × IsSound (register worker c)
registration-sane_example =
    registration-sane py redis cache worker 2 5 accepts worker-IsSound (omega arith)

with_params-again_example : with_params py cache (("url", text "@redis") ∷ []) ≡ (
    if leb cache.interval cache.timeout
    then err (config (overlap cache.name))
    else ok (record cache { params = ("url", text "@redis") ∷ [] }))
with_params-again_example = with_params-again py redis cache (("url", text "@redis") ∷ []) accepts

-- An interval of one thousandth of a second: the derived timeout is as long as the interval, so the
-- definition is accepted and refused when it is validated again.
abbrev hasty : RawSpec
hasty = raw_spec "redis" "hasty" (("interval", number (pos 1)) ∷ [])

abbrev hasty_spec : ProbeSpec
hasty_spec = or_else blank (post_init py hasty)

hasty_accepted : post_init py hasty ≡ ok hasty_spec
unfolding post_init raw_spec health_mon.Probes.Spec.positive_field health_mon.Probes.to_float lookup
    health_mon.Probes.Spec.timeout_of health_mon.Probes.Spec.count_field health_mon.Probes.to_int
    health_mon.Probes.Spec.natural_field health_mon.Probes.Spec.ttl_of
hasty_accepted = refl

hasty_refused : with_params py hasty_spec [] ≡ err (config (overlap "hasty"))
unfolding with_params raw_spec health_mon.Probes.Spec.positive_field health_mon.Probes.to_float
    lookup health_mon.Probes.Spec.timeout_of health_mon.Probes.Spec.count_field
    health_mon.Probes.to_int health_mon.Probes.Spec.natural_field health_mon.Probes.Spec.ttl_of
hasty_refused = refl

-- A text where a number is due, and null there.
wordy : post_init py (raw_spec "redis" "w" (("interval", text "fast") ∷ [])) ≡ err value_error
unfolding post_init raw_spec health_mon.Probes.Spec.positive_field health_mon.Probes.to_float lookup
wordy = refl

-- What the source would make of NaN is not modelled.
undefined : post_init py (raw_spec "redis" "w" (("interval", text "nan") ∷ [])) ≡ err unmodelled
unfolding post_init raw_spec health_mon.Probes.Spec.positive_field health_mon.Probes.to_float lookup
undefined = refl

empty_interval :
    from_raw py (record {
      type = some (text "redis");
      name = some (text "e");
      rest = ("interval", null) ∷ [];
    })
    ≡ err (config (not_buildable "e"))
unfolding from_raw lookup health_mon.Probes.Spec.positive_field health_mon.Probes.to_float
    health_mon.Common.Dict.delete
empty_interval = refl

-- An alias is read, and an unknown key becomes a param.
renames :
    from_raw py (record {
      type = some (text "redis");
      name = some (text "cache");
      rest =
          ("url", text "redis://")
          ∷ ("interval", number (pos 5_000))
          ∷ ("max_backoff", number (pos 60_000))
          ∷ [];
    })
    ≡ ok (record cache { params = ("url", text "redis://") ∷ [] })
unfolding from_raw lookup health_mon.Common.Dict.insert health_mon.Common.Dict.delete
    health_mon.Probes.Spec.positive_field health_mon.Probes.to_float
    health_mon.Probes.Spec.timeout_of health_mon.Probes.Spec.count_field health_mon.Probes.to_int
    health_mon.Probes.Spec.natural_field health_mon.Probes.Spec.ttl_of
renames = refl

abbrev bad : Definition
bad = record {
  type = some (text "redis");
  name = some (text "bad");
  rest = ("interval", number (pos 0)) ∷ [];
}

abbrev raws : List Raw
raws = built cache ∷ definition bad ∷ stray ∷ []

abbrev builders : Dict Builder
builders = ("redis", λ _ _. check) ∷ []

raws-IsProper : All (IsProper py) raws
unfolding health_mon.Probes.Factory.parse lookup health_mon.Probes.Spec.positive_field
    health_mon.Probes.to_float health_mon.Common.Dict.delete
raws-IsProper = (cache-InBounds, (tt, (tt, tt)))

builders_calm : All CalmBuilder builders
builders_calm = (λ s context e. absurd (ground arith), tt)

lenient_install_example :
    (found : Installed) × (install_from_config false py builders [] raws (worker, []) ≡ ok found)
    × IsSound found.0
    × Has found.0.machine "bad"
unfolding health_mon.Probes.Lenient.registered_name health_mon.Probes.Factory.parse
    health_mon.Probes.Spec.positive_field health_mon.Probes.to_float lookup
    health_mon.Probes.Spec.timeout_of health_mon.Probes.Spec.count_field health_mon.Probes.to_int
    health_mon.Probes.Spec.natural_field health_mon.Probes.Spec.ttl_of health_mon.Common.Dict.delete
    health_mon.Probes.Factory.name_of
lenient_install_example =
    lenient_install py builders [] raws worker [] "bad" raws-IsProper builders_calm worker-IsSound
      refl
