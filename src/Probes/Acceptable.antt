-- ===== src/Probes/Acceptable.antt =====
-- What the validation accepts: a spec whose fields are in bounds goes through it unchanged.
use health_mon.Common.{
  ℕ, zero, suc, ◌*◌, ◌/◌, ◌≤◌, ◌<◌, ◌≡◌, refl, ◌&&◌, Bool, true, false, String, Option, none, some,
  [], arith, ltb, leb, if◌then◌else◌,
}
use health_mon.Common.Dict.{Dict}
use health_mon.Probes.{
  pos, Value, number, ProbeConfigError, ok, err, ◌>>=◌, Ensures-ok, Python, one, to_float, to_int,
  truthy, shrinking_backoff, overlap, config, Failure, refuse_if, ◌>>◌,
}
use health_mon.Probes.Spec.{
  RawSpec, ProbeSpec, positive_or, multiplier_or, unless_none, timeout_of, given_timeout, ttl_of,
  positive_field, count_field, natural_field, fraction_field, post_init, number_of, fields_of,
  with_params,
}
use health_mon.Probes.Fields.{WhereGiven, IsFraction}
use health_mon.Probes.Bounds.{InBounds, post_init-Ensures}

positive_or-pos : (e : ProbeConfigError) (n : ℕ) → 0 < n → positive_or e (pos n) ≡ ok n
positive_or-pos e zero h = absurd (omega arith)
positive_or-pos e (suc n) h = refl

positive_field-number :
    (py : Python) (name field : String) (n : ℕ)
    → 0 < n
    → positive_field py name field (number (pos n)) ≡ ok n
unfolding positive_field to_float
positive_field-number py name field n h = positive_or-pos _ n h

count_field-number :
    (py : Python) (name field : String) (n : ℕ)
    → 0 < n
    → count_field py name field (number (pos (n * one))) ≡ ok n
unfolding count_field to_int
count_field-number py name field n h =
    let e : n * one / one ≡ n = omega arith in rw e (positive_or-pos _ n h)

natural_field-number :
    (py : Python) (name field : String) (n : ℕ)
    → natural_field py name field (number (pos n)) ≡ ok n
unfolding natural_field to_float
natural_field-number py name field n = refl

positive_field-given :
    (py : Python) (name field : String) (o : Option ℕ)
    → WhereGiven (λ n. 0 < n) o
    → unless_none (number_of o) (positive_field py name field) ≡ ok o
positive_field-given py name field none h = refl
positive_field-given py name field (some n) h = rw (positive_field-number py name field n h) refl

fraction_field-given :
    (py : Python) (name field : String) (o : Option ℕ)
    → WhereGiven IsFraction o
    → unless_none (number_of o) (fraction_field py name field) ≡ ok o
unfolding fraction_field to_float
fraction_field-given py name field none h = refl
fraction_field-given py name field (some n) h =
    let e : ltb 0 n && leb n one ≡ true = ground arith in rw e refl

multiplier_or-one : (e : ProbeConfigError) (n : ℕ) → one ≤ n → multiplier_or e (pos n) ≡ ok n
multiplier_or-one e n h = ground arith

timeout_of-number :
    (py : Python) (name : String) (i n : ℕ)
    → 0 < n
    → timeout_of py name i (number (pos n)) ≡ ok (n, true)
unfolding timeout_of given_timeout to_float
timeout_of-number py name i n h = rw (positive_or-pos _ n h) refl

if-ok :
    (b : Bool) (e : Failure) (s : ProbeSpec) (params : Dict Value)
    → ((if b then err e else ok (record s { params = [] })) >>= λ s'.
        ok (record s' { params = params }))
      ≡ (if b then err e else ok (record s { params = params }))
if-ok true e s params = refl
if-ok false e s params = refl

overlap-last :
    (b : Bool) (name : String) (s : ProbeSpec)
    → (refuse_if b (overlap name) >> ok s) ≡ (if b then err (config (overlap name)) else ok s)
overlap-last true name s = refl
overlap-last false name s = refl

post_init-fields_of :
    (py : Python) (s : ProbeSpec)
    → InBounds s
    → post_init py (fields_of s) ≡ (
        if leb s.interval s.timeout
        then err (config (overlap s.name))
        else ok (record s { params = [] }))
unfolding post_init fields_of ttl_of to_float truthy
post_init-fields_of py s b =
    let ordered : ltb s.backoff_max s.backoff_initial ≡ false = ground (arith, b.backoff_ordered) in
    rw
      (
        b.typed,
        b.named,
        positive_field-number py s.name "interval" s.interval b.interval_pos,
        positive_field-number py s.name "max_silence" s.max_silence b.silence_pos,
        timeout_of-number py s.name s.interval s.timeout b.timeout_pos,
        count_field-number py s.name "failure_threshold" s.failure_threshold b.fails_pos,
        count_field-number py s.name "success_threshold" s.success_threshold b.oks_pos,
        natural_field-number py s.name "backoff_initial" s.backoff_initial,
        natural_field-number py s.name "backoff_max" s.backoff_max,
        natural_field-number py s.name "backoff_jitter" s.backoff_jitter,
        multiplier_or-one (shrinking_backoff s.name) s.backoff_multiplier b.growing,
        ordered,
        positive_field-given py s.name "latency_warn_ms" s.latency_warn_ms b.warn_pos,
        positive_field-given py s.name "latency_critical_ms" s.latency_critical_ms b.critical_pos,
        positive_field-given py s.name "stale_after_seconds" s.stale_after_seconds b.stale_pos,
        fraction_field-given py s.name "pool_warn_ratio" s.pool_warn_ratio b.pool_warn_fraction,
        fraction_field-given py s.name "pool_critical_ratio" s.pool_critical_ratio
            b.pool_critical_fraction,
        b.pools_ordered,
        b.latencies_ordered,
      )
      (overlap-last (leb s.interval s.timeout) s.name _)

pub with_params-InBounds :
    (py : Python) (s : ProbeSpec) (params : Dict Value)
    → InBounds s
    → with_params py s params ≡ (
        if leb s.interval s.timeout
        then err (config (overlap s.name))
        else ok (record s { params = params }))
unfolding with_params
with_params-InBounds py s params b =
    rw (post_init-fields_of py s b)
      (if-ok (leb s.interval s.timeout) (config (overlap s.name)) s params)

-- The factory validates a spec again when it has resolved the params. A spec that was let through is
-- let through again unchanged but for its params, and is refused only where its timeout is not
-- shorter than its interval.
pub with_params-again :
    (py : Python) (r : RawSpec) (s : ProbeSpec) (params : Dict Value)
    → post_init py r ≡ ok s
    → with_params py s params ≡ (
        if leb s.interval s.timeout
        then err (config (overlap s.name))
        else ok (record s { params = params }))
unfolding with_params
with_params-again py r s params h =
    with_params-InBounds py s params (Ensures-ok InBounds _ h (post_init-Ensures py r))
