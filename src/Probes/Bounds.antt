-- ===== src/Probes/Bounds.antt =====
-- What the validation of probes/spec.py guarantees of every spec that it lets through.
use health_mon.Common.{◌≤◌, ◌<◌, ◌≡◌, ◌⊎◌, ◌&&◌, false, String, ltb, leb, str_eq}
use health_mon.Probes.{
  ℤ, refuse_if, Python, one, Ensures, Ensures-bind, missing_type, shrinking_backoff,
  backoff_inverted, pool_inverted, latency_inverted, overlap, >>=-Ensures, to_float,
}
use health_mon.Probes.Spec.{
  RawSpec, ProbeSpec, multiplier_or, unless_none, inverted, timeout_of, ttl_of, positive_field,
  count_field, natural_field, fraction_field, post_init, name_or_type,
}
use health_mon.Probes.Spec.{
  Cadence, Backoff, Thresholds, cadence_of, backoff_of, thresholds_of, assemble,
}
use health_mon.Probes.Fields.{
  WhereGiven, IsFraction, Timed, positive_field-Ensures, count_field-Ensures,
  fraction_field-Ensures, unless_none-Ensures, multiplier_or-Ensures, refuse_if-Ensures,
  timeout_of-Ensures, name_or_type-again, timeout-within, ltb-off,
}

pub record InBounds (s : ProbeSpec) : Type 0 where
  pub typed : str_eq s.type "" ≡ false
  pub named : name_or_type s.name s.type ≡ s.name
  pub interval_pos : 0 < s.interval
  pub silence_pos : 0 < s.max_silence
  pub timeout_pos : 0 < s.timeout
  pub timeout_within : (s.timeout < s.interval) ⊎ ((s.timeout ≡ 1) × (s.interval ≡ 1))
  pub fails_pos : 0 < s.failure_threshold
  pub oks_pos : 0 < s.success_threshold
  pub growing : one ≤ s.backoff_multiplier
  pub backoff_ordered : s.backoff_initial ≤ s.backoff_max
  pub warn_pos : WhereGiven (λ n. 0 < n) s.latency_warn_ms
  pub critical_pos : WhereGiven (λ n. 0 < n) s.latency_critical_ms
  pub stale_pos : WhereGiven (λ n. 0 < n) s.stale_after_seconds
  pub pool_warn_fraction : WhereGiven IsFraction s.pool_warn_ratio
  pub pool_critical_fraction : WhereGiven IsFraction s.pool_critical_ratio
  pub pools_ordered : inverted s.pool_warn_ratio s.pool_critical_ratio ≡ false
  pub latencies_ordered : inverted s.latency_warn_ms s.latency_critical_ms ≡ false

record Paced (c : Cadence) : Type 0 where
  interval_pos : 0 < c.interval
  silence_pos : 0 < c.max_silence
  timed : Timed c.interval c.timeout
  fails_pos : 0 < c.failure_threshold
  oks_pos : 0 < c.success_threshold

paced :
    (c : Cadence)
    → 0 < c.interval
    → 0 < c.max_silence
    → Timed c.interval c.timeout
    → 0 < c.failure_threshold
    → 0 < c.success_threshold
    → Paced c
paced c a b t d e = record {
  interval_pos = a;
  silence_pos = b;
  timed = t;
  fails_pos = d;
  oks_pos = e;
}

cadence_of-Ensures :
    (py : Python) (name : String) (r : RawSpec) → Ensures Paced (cadence_of py name r)
unfolding cadence_of
cadence_of-Ensures py name r =
    >>=-Ensures (λ n. 0 < n) Paced (positive_field py name "interval" r.interval) _
      (positive_field-Ensures py _ _ _)
      (λ interval p1.
        >>=-Ensures (λ n. 0 < n) Paced (positive_field py name "max_silence" r.max_silence) _
          (positive_field-Ensures py _ _ _)
          (λ silence p2.
            >>=-Ensures (Timed interval) Paced (timeout_of py name interval r.timeout) _
              (timeout_of-Ensures py _ interval _)
              (λ timeout p3.
                >>=-Ensures (λ n. 0 < n) Paced
                  (count_field py name "failure_threshold" r.failure_threshold) _
                  (count_field-Ensures py _ _ _)
                  (λ fails p4.
                    >>=-Ensures (λ n. 0 < n) Paced
                      (count_field py name "success_threshold" r.success_threshold) _
                      (count_field-Ensures py _ _ _) (λ oks p5. paced _ p1 p2 p3 p4 p5)))))

Growing : Backoff → Type 0
Growing b = (one ≤ b.multiplier) × (b.initial ≤ b.most)

growing : (b : Backoff) → one ≤ b.multiplier → b.initial ≤ b.most → Growing b
unfolding Growing
growing b g o = (g, o)

backoff_of-Ensures :
    (py : Python) (name : String) (r : RawSpec) → Ensures Growing (backoff_of py name r)
unfolding backoff_of
backoff_of-Ensures py name r =
    Ensures-bind Growing (natural_field py name "backoff_initial" r.backoff_initial) _ (λ initial.
      Ensures-bind Growing (natural_field py name "backoff_max" r.backoff_max) _ (λ most.
        Ensures-bind Growing (natural_field py name "backoff_jitter" r.backoff_jitter) _ (λ jitter.
          Ensures-bind Growing (to_float py r.backoff_multiplier) _ (λ given.
            >>=-Ensures (λ n. one ≤ n) Growing (multiplier_or (shrinking_backoff name) given) _
              (multiplier_or-Ensures _ given)
              (λ multiplier p1.
                >>=-Ensures (λ _. ltb most initial ≡ false) Growing
                  (refuse_if (ltb most initial) (backoff_inverted name)) _ (refuse_if-Ensures _ _)
                  (λ _ p2. growing _ p1 (ltb-off most initial p2)))))))

record Ordered (t : Thresholds) : Type 0 where
  warn_pos : WhereGiven (λ n. 0 < n) t.latency_warn
  critical_pos : WhereGiven (λ n. 0 < n) t.latency_critical
  stale_pos : WhereGiven (λ n. 0 < n) t.stale_after
  pool_warn_fraction : WhereGiven IsFraction t.pool_warn
  pool_critical_fraction : WhereGiven IsFraction t.pool_critical
  pools_ordered : inverted t.pool_warn t.pool_critical ≡ false
  latencies_ordered : inverted t.latency_warn t.latency_critical ≡ false

ordered :
    (t : Thresholds)
    → WhereGiven (λ n. 0 < n) t.latency_warn
    → WhereGiven (λ n. 0 < n) t.latency_critical
    → WhereGiven (λ n. 0 < n) t.stale_after
    → WhereGiven IsFraction t.pool_warn
    → WhereGiven IsFraction t.pool_critical
    → inverted t.pool_warn t.pool_critical ≡ false
    → inverted t.latency_warn t.latency_critical ≡ false
    → Ordered t
ordered t a b c d e f g = record {
  warn_pos = a;
  critical_pos = b;
  stale_pos = c;
  pool_warn_fraction = d;
  pool_critical_fraction = e;
  pools_ordered = f;
  latencies_ordered = g;
}

thresholds_of-Ensures :
    (py : Python) (name : String) (r : RawSpec) → Ensures Ordered (thresholds_of py name r)
unfolding thresholds_of
thresholds_of-Ensures py name r =
    >>=-Ensures (WhereGiven (λ n. 0 < n)) Ordered
      (unless_none r.latency_warn_ms (positive_field py name "latency_warn_ms")) _
      (unless_none-Ensures (λ n. 0 < n) r.latency_warn_ms _ (positive_field-Ensures py _ _))
      (λ warn o1.
        >>=-Ensures (WhereGiven (λ n. 0 < n)) Ordered
          (unless_none r.latency_critical_ms (positive_field py name "latency_critical_ms")) _
          (unless_none-Ensures (λ n. 0 < n) r.latency_critical_ms _ (positive_field-Ensures py _ _))
          (λ critical o2.
            >>=-Ensures (WhereGiven (λ n. 0 < n)) Ordered
              (unless_none r.stale_after_seconds (positive_field py name "stale_after_seconds")) _
              (unless_none-Ensures (λ n. 0 < n) r.stale_after_seconds _
                (positive_field-Ensures py _ _))
              (λ stale o3.
                >>=-Ensures (WhereGiven IsFraction) Ordered
                  (unless_none r.pool_warn_ratio (fraction_field py name "pool_warn_ratio")) _
                  (unless_none-Ensures IsFraction r.pool_warn_ratio _
                    (fraction_field-Ensures py _ _))
                  (λ pool_warn o4.
                    >>=-Ensures (WhereGiven IsFraction) Ordered
                      (unless_none r.pool_critical_ratio
                        (fraction_field py name "pool_critical_ratio"))
                      _
                      (unless_none-Ensures IsFraction r.pool_critical_ratio _
                        (fraction_field-Ensures py _ _))
                      (λ pool_critical o5.
                        >>=-Ensures (λ _. inverted pool_warn pool_critical ≡ false) Ordered
                          (refuse_if (inverted pool_warn pool_critical) (pool_inverted name)) _
                          (refuse_if-Ensures _ _)
                          (λ _ p1.
                            >>=-Ensures (λ _. inverted warn critical ≡ false) Ordered
                              (refuse_if (inverted warn critical) (latency_inverted name)) _
                              (refuse_if-Ensures _ _) (λ _ p2. ordered _ o1 o2 o3 o4 o5 p1 p2)))))))

assemble-InBounds :
    (r : RawSpec) (c : Cadence) (b : Backoff) (t : Thresholds) (ttl : ℤ)
    → str_eq r.type "" ≡ false
    → Paced c
    → Growing b
    → Ordered t
    → c.timeout.1 && leb c.interval c.timeout.0 ≡ false
    → InBounds (assemble r (name_or_type r.name r.type) c b t ttl)
unfolding Growing
assemble-InBounds r c b t ttl typed p g o off = record {
  typed = typed;
  named = name_or_type-again r.name r.type;
  interval_pos = p.interval_pos;
  silence_pos = p.silence_pos;
  timeout_pos = p.timed.0;
  timeout_within = timeout-within c.interval c.timeout p.timed off;
  fails_pos = p.fails_pos;
  oks_pos = p.oks_pos;
  growing = g.0;
  backoff_ordered = g.1;
  warn_pos = o.warn_pos;
  critical_pos = o.critical_pos;
  stale_pos = o.stale_pos;
  pool_warn_fraction = o.pool_warn_fraction;
  pool_critical_fraction = o.pool_critical_fraction;
  pools_ordered = o.pools_ordered;
  latencies_ordered = o.latencies_ordered;
}

pub post_init-Ensures : (py : Python) (r : RawSpec) → Ensures InBounds (post_init py r)
unfolding post_init
post_init-Ensures py r =
    let name = name_or_type r.name r.type in
    >>=-Ensures (λ _. str_eq r.type "" ≡ false) InBounds (refuse_if (str_eq r.type "") missing_type)
      _ (refuse_if-Ensures _ _)
      (λ _ typed.
        >>=-Ensures Paced InBounds (cadence_of py name r) _ (cadence_of-Ensures py name r) (λ c p.
          >>=-Ensures Growing InBounds (backoff_of py name r) _ (backoff_of-Ensures py name r)
            (λ b g.
              >>=-Ensures Ordered InBounds (thresholds_of py name r) _
                (thresholds_of-Ensures py name r)
                (λ t o.
                  >>=-Ensures (λ _. c.timeout.1 && leb c.interval c.timeout.0 ≡ false) InBounds
                    (refuse_if (c.timeout.1 && leb c.interval c.timeout.0) (overlap name)) _
                    (refuse_if-Ensures _ _)
                    (λ _ off.
                      Ensures-bind InBounds (ttl_of py c.interval c.timeout.0 r.ttl) _
                        (λ ttl. assemble-InBounds r c b t ttl typed p g o off))))))
