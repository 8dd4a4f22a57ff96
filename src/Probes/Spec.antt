-- ===== src/Probes/Spec.antt =====
-- ProbeSpec of probes/spec.py: its validation, what a mapping is turned into, and what it is
-- registered with. The `type` and the `name` that it is given are texts; an empty one stands for
-- null too. A number that is NaN or infinite ends the model (`to_float`). Times are in thousandths
-- of a second, latencies in thousandths of a millisecond.
use health_mon.Common.{
  ℕ, zero, suc, ◌+◌, ◌*◌, ◌/◌, min, Bool, true, false, ◌&&◌, String, Option, none, some, [], ltb,
  leb, str_eq, if◌then◌else◌,
}
use health_mon.Common.Dict.{Dict}
use health_mon.Machine.Check
use health_mon.Machine.Check.{CheckSpec}
use health_mon.Probes.{
  ℤ, pos, negsuc, Value, null, flag, number, ProbeConfigError, missing_type, not_positive,
  below_one, is_negative, not_a_fraction, shrinking_backoff, backoff_inverted, pool_inverted,
  latency_inverted, overlap, config, Result, ok, err, ◌>>=◌, ◌>>◌, refuse_if, Python, one, to_float,
  to_int, truthy,
}

-- The fields as they are given to the constructor.
pub record RawSpec : Type 0 where
  pub type : String
  pub name : String
  pub critical : Value
  pub enabled : Value
  pub interval : Value
  pub timeout : Value
  pub failure_threshold : Value
  pub success_threshold : Value
  pub max_silence : Value
  pub ttl : Value
  pub backoff_initial : Value
  pub backoff_max : Value
  pub backoff_multiplier : Value
  pub backoff_jitter : Value
  pub latency_warn_ms : Value
  pub latency_critical_ms : Value
  pub pool_warn_ratio : Value
  pub pool_critical_ratio : Value
  pub stale_after_seconds : Value

pub record ProbeSpec : Type 0 where
  pub type : String
  pub name : String
  pub critical : Bool
  pub enabled : Bool
  pub interval : ℕ
  pub timeout : ℕ
  pub failure_threshold : ℕ
  pub success_threshold : ℕ
  pub max_silence : ℕ
  pub ttl : ℤ
  pub backoff_initial : ℕ
  pub backoff_max : ℕ
  pub backoff_multiplier : ℕ
  pub backoff_jitter : ℕ
  pub latency_warn_ms : Option ℕ
  pub latency_critical_ms : Option ℕ
  pub pool_warn_ratio : Option ℕ
  pub pool_critical_ratio : Option ℕ
  pub stale_after_seconds : Option ℕ
  pub params : Dict Value

-- `if value <= 0: raise`, and the value otherwise
abbrev pub positive_or : ProbeConfigError → ℤ → Result ℕ
positive_or e (pos zero) = err (config e)
positive_or e (pos (suc n)) = ok (suc n)
positive_or e (negsuc n) = err (config e)

-- `if value < 0: raise`
abbrev pub natural_or : ProbeConfigError → ℤ → Result ℕ
natural_or e (pos n) = ok n
natural_or e (negsuc n) = err (config e)

-- `if not 0.0 < value <= 1.0: raise`
abbrev pub fraction_or : ProbeConfigError → ℤ → Result ℕ
fraction_or e (pos n) = if ltb 0 n && leb n one then ok n else err (config e)
fraction_or e (negsuc n) = err (config e)

-- `if value is None: continue`
abbrev pub unless_none : Value → (Value → Result ℕ) → Result (Option ℕ)
unless_none null f = ok none
unless_none v f = do n ← f v; ok (some n)

-- The upper threshold is given, and below the lower one.
abbrev pub inverted : Option ℕ → Option ℕ → Bool
inverted (some warn) (some critical) = ltb critical warn
inverted _ _ = false

abbrev pub name_or_type : String → String → String
name_or_type String.[] type = type
name_or_type name type = name

-- round(min(2.0, interval / 2.0), 3), where a tie goes up
abbrev pub derived_timeout : ℕ → ℕ
derived_timeout interval = (min (2 * (2 * one)) interval + 1) / 2

unfoldable pub given_timeout : Python → String → Value → Result (ℕ × Bool)
given_timeout py name v = do
  z ← to_float py v
  n ← positive_or (not_positive name "timeout") z
  ok (n, true)

-- The timeout, and whether it was given.
unfoldable pub timeout_of : Python → String → ℕ → Value → Result (ℕ × Bool)
unfolding given_timeout
timeout_of py name interval null = do
  n ← positive_or (not_positive name "timeout") (pos (derived_timeout interval))
  ok (n, false)
timeout_of py name interval v = given_timeout py name v

-- round(interval * 2 + timeout, 3) where none is given. A given one is not validated.
unfoldable pub ttl_of : Python → ℕ → ℕ → Value → Result ℤ
ttl_of py interval timeout null = ok (pos (interval * 2 + timeout))
ttl_of py interval timeout v = to_float py v

unfoldable pub positive_field : Python → String → String → Value → Result ℕ
positive_field py name field v = do z ← to_float py v; positive_or (not_positive name field) z

unfoldable pub count_field : Python → String → String → Value → Result ℕ
count_field py name field v = do z ← to_int py v; positive_or (below_one name field) z

unfoldable pub natural_field : Python → String → String → Value → Result ℕ
natural_field py name field v = do z ← to_float py v; natural_or (is_negative name field) z

unfoldable pub fraction_field : Python → String → String → Value → Result ℕ
fraction_field py name field v = do z ← to_float py v; fraction_or (not_a_fraction name field) z

-- `if self.backoff_multiplier < 1.0: raise`
abbrev pub multiplier_or : ProbeConfigError → ℤ → Result ℕ
multiplier_or e (pos n) = if ltb n one then err (config e) else ok n
multiplier_or e (negsuc n) = err (config e)

-- What the checks of __post_init__ come to, in three parts.
pub record Cadence : Type 0 where
  pub interval : ℕ
  pub max_silence : ℕ
  pub timeout : ℕ × Bool
  pub failure_threshold : ℕ
  pub success_threshold : ℕ

pub record Backoff : Type 0 where
  pub initial : ℕ
  pub most : ℕ
  pub jitter : ℕ
  pub multiplier : ℕ

pub record Thresholds : Type 0 where
  pub latency_warn : Option ℕ
  pub latency_critical : Option ℕ
  pub stale_after : Option ℕ
  pub pool_warn : Option ℕ
  pub pool_critical : Option ℕ

unfoldable pub cadence_of : Python → String → RawSpec → Result Cadence
cadence_of py name r = do
  interval ← positive_field py name "interval" r.interval
  max_silence ← positive_field py name "max_silence" r.max_silence
  timeout ← timeout_of py name interval r.timeout
  fails ← count_field py name "failure_threshold" r.failure_threshold
  oks ← count_field py name "success_threshold" r.success_threshold
  ok (record {
    interval = interval;
    max_silence = max_silence;
    timeout = timeout;
    failure_threshold = fails;
    success_threshold = oks;
  })

unfoldable pub backoff_of : Python → String → RawSpec → Result Backoff
backoff_of py name r = do
  initial ← natural_field py name "backoff_initial" r.backoff_initial
  most ← natural_field py name "backoff_max" r.backoff_max
  jitter ← natural_field py name "backoff_jitter" r.backoff_jitter
  given ← to_float py r.backoff_multiplier
  multiplier ← multiplier_or (shrinking_backoff name) given
  refuse_if (ltb most initial) (backoff_inverted name)
  ok (record { initial = initial; most = most; jitter = jitter; multiplier = multiplier })

unfoldable pub thresholds_of : Python → String → RawSpec → Result Thresholds
thresholds_of py name r = do
  warn ← unless_none r.latency_warn_ms (positive_field py name "latency_warn_ms")
  critical ← unless_none r.latency_critical_ms (positive_field py name "latency_critical_ms")
  stale ← unless_none r.stale_after_seconds (positive_field py name "stale_after_seconds")
  pool_warn ← unless_none r.pool_warn_ratio (fraction_field py name "pool_warn_ratio")
  pool_critical ← unless_none r.pool_critical_ratio (fraction_field py name "pool_critical_ratio")
  refuse_if (inverted pool_warn pool_critical) (pool_inverted name)
  refuse_if (inverted warn critical) (latency_inverted name)
  ok (record {
    latency_warn = warn;
    latency_critical = critical;
    stale_after = stale;
    pool_warn = pool_warn;
    pool_critical = pool_critical;
  })

abbrev pub assemble : RawSpec → String → Cadence → Backoff → Thresholds → ℤ → ProbeSpec
assemble r name c b t ttl = record {
  type = r.type;
  name = name;
  critical = truthy r.critical;
  enabled = truthy r.enabled;
  interval = c.interval;
  timeout = c.timeout.0;
  failure_threshold = c.failure_threshold;
  success_threshold = c.success_threshold;
  max_silence = c.max_silence;
  ttl = ttl;
  backoff_initial = b.initial;
  backoff_max = b.most;
  backoff_multiplier = b.multiplier;
  backoff_jitter = b.jitter;
  latency_warn_ms = t.latency_warn;
  latency_critical_ms = t.latency_critical;
  pool_warn_ratio = t.pool_warn;
  pool_critical_ratio = t.pool_critical;
  stale_after_seconds = t.stale_after;
  params = [];
}

-- __post_init__, check by check in the order of the source
unfoldable pub post_init : Python → RawSpec → Result ProbeSpec
unfolding cadence_of backoff_of thresholds_of
post_init py r = do
  refuse_if (str_eq r.type "") missing_type
  let name = name_or_type r.name r.type
  c ← cadence_of py name r
  b ← backoff_of py name r
  t ← thresholds_of py name r
  refuse_if (c.timeout.1 && leb c.interval c.timeout.0) (overlap name)
  ttl ← ttl_of py c.interval c.timeout.0 r.ttl
  ok (assemble r name c b t ttl)

abbrev pub number_of : Option ℕ → Value
number_of none = null
number_of (some n) = number (pos n)

-- The fields of a spec as the arguments of the constructor, as `replace` gives them: the timeout and
-- the ttl are given then, also where they were derived.
unfoldable pub fields_of : ProbeSpec → RawSpec
fields_of s = record {
  type = s.type;
  name = s.name;
  critical = flag s.critical;
  enabled = flag s.enabled;
  interval = number (pos s.interval);
  timeout = number (pos s.timeout);
  failure_threshold = number (pos (s.failure_threshold * one));
  success_threshold = number (pos (s.success_threshold * one));
  max_silence = number (pos s.max_silence);
  ttl = number s.ttl;
  backoff_initial = number (pos s.backoff_initial);
  backoff_max = number (pos s.backoff_max);
  backoff_multiplier = number (pos s.backoff_multiplier);
  backoff_jitter = number (pos s.backoff_jitter);
  latency_warn_ms = number_of s.latency_warn_ms;
  latency_critical_ms = number_of s.latency_critical_ms;
  pool_warn_ratio = number_of s.pool_warn_ratio;
  pool_critical_ratio = number_of s.pool_critical_ratio;
  stale_after_seconds = number_of s.stale_after_seconds;
}

-- with_params, whose `replace` validates the fields again
unfoldable pub with_params : Python → ProbeSpec → Dict Value → Result ProbeSpec
unfolding fields_of post_init
with_params py s params = do s' ← post_init py (fields_of s); ok (record s' { params = params })

-- A time of the machine, in microseconds, of one in thousandths. The machine's model has no time
-- below zero: a ttl below zero, which nothing refuses, is registered as zero.
abbrev pub micros : ℕ → ℕ
micros n = n * 1000

abbrev pub ttl_micros : ℤ → ℕ
ttl_micros (pos n) = micros n
ttl_micros (negsuc n) = 0

-- registration_kwargs, and the CheckSpec that HealthMonitor.register makes of them
unfoldable pub registration : ProbeSpec → CheckSpec
unfolding Check.post_init
registration s = Check.post_init (record {
  name = s.name;
  critical = s.critical;
  enabled = s.enabled;
  interval = micros s.interval;
  timeout = micros s.timeout;
  ttl = ttl_micros s.ttl;
  failure_threshold = s.failure_threshold;
  success_threshold = s.success_threshold;
  breaker_threshold = 5;
  jitter = 200;
  max_silence = micros s.max_silence;
  backoff_initial = micros s.backoff_initial;
  backoff_max = micros s.backoff_max;
  backoff_multiplier = s.backoff_multiplier;
  backoff_jitter = s.backoff_jitter;
  max_backoff = none;
})
