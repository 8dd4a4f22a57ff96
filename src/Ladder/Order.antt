-- ===== src/Ladder/Order.antt =====
-- The order of evidence in checks/base.py, and its latency policy.
use health_mon.Common.{
  ℕ, ◌-◌, ◌≤◌, false, ◌≡◌, ◌≢◌, refl, sym, ◌∙◌, ap, ◌⊎◌, inl, inr, String, str_eq, Option, none,
  some, arith, Bool-cases, if_off,
}
use health_mon.Model.{Status, ErrorCategory, CheckResult, same_status, severity}
use health_mon.Ladder.{
  BaseCheck, CheckContext, Probed, TrafficRecord, traffic_result, carry_forward, probe_result,
  newest_traffic, get, apply_latency_policy, judge_latency, slow, reaches, threshold_of,
}

-- Introspection found no fault.
abbrev pub Inconclusive : Option CheckResult → Type 0
Inconclusive none = Unit
Inconclusive (some r) = r.status ≡ Status.ok

-- The worker's own traffic with the dependency: its record, and that the newest of it is at most
-- `max_silence` old.
abbrev pub HasTraffic : BaseCheck → CheckContext → TrafficRecord → ℕ → Type 0
HasTraffic check ctx t newest =
    (str_eq check.dependency "" ≡ false)
    × (get check.dependency ctx.traffic ≡ some t)
    × (newest_traffic t ≡ some newest)
    × (ctx.now - newest ≤ ctx.max_silence)

-- There is such traffic, and it is what from_traffic gives; or there is none.
abbrev FromTraffic : BaseCheck → CheckContext → Option CheckResult → Type 0
FromTraffic check ctx o =
    ((t : TrafficRecord) × (newest : ℕ) × HasTraffic check ctx t newest
      × (o ≡ some (traffic_result check ctx t (ctx.now - newest))))
    ⊎ (((t : TrafficRecord) (newest : ℕ) → ¬ HasTraffic check ctx t newest) × (o ≡ none))

ok_mildest : (s : Status) → severity Status.ok ≤ severity s
unfolding severity
ok_mildest s = ground arith

-- A result that the latency policy made worse.
record Slowed (show : ℕ → String) (r judged : CheckResult) : Type 0 where
  status : Status
  latency : ℕ
  threshold : ℕ
  was_ok : r.status ≡ Status.ok
  not_ok : status ≢ Status.ok
  slowed : judged ≡ slow show r latency status threshold

Slowed-category :
    (show : ℕ → String) (r judged : CheckResult)
    → Slowed show r judged
    → judged.category ≡ some ErrorCategory.slow
unfolding slow
Slowed-category show r judged s = ap (λ (x : CheckResult). x.category) s.slowed

Slowed-status :
    (show : ℕ → String) (r judged : CheckResult) → Slowed show r judged → judged.status ≢ Status.ok
unfolding slow
Slowed-status show r judged s h = s.not_ok (sym (ap (λ (x : CheckResult). x.status) s.slowed) ∙ h)

judge_latency_cases :
    (show : ℕ → String) (check : BaseCheck) (r : CheckResult) (latency : Option ℕ)
    → r.status ≡ Status.ok
    → (judge_latency show check r latency ≡ r) ⊎ Slowed show r (judge_latency show check r latency)
unfolding judge_latency
judge_latency_cases show check r none e = inl refl
judge_latency_cases show check r (some l) e = elim (Bool-cases (reaches check.latency_critical l)) [
  | inl critical ↦ inr (record {
    status = Status.failing;
    latency = l;
    threshold = threshold_of check.latency_critical;
    was_ok = e;
    not_ok = λ h. ground arith;
    slowed = rw critical refl;
  })
  | inr below ↦ elim (Bool-cases (reaches check.latency_warn l)) [
    | inl warn ↦ inr (record {
      status = Status.degraded;
      latency = l;
      threshold = threshold_of check.latency_warn;
      was_ok = e;
      not_ok = λ h. ground arith;
      slowed = rw (below, warn) refl;
    })
    | inr fast ↦ inl (rw (below, fast) refl)
  ]
]

policy_cases :
    (show : ℕ → String) (check : BaseCheck) (r : CheckResult)
    → (apply_latency_policy show check r ≡ r) ⊎ Slowed show r (apply_latency_policy show check r)
unfolding apply_latency_policy
policy_cases show check r = elim (Bool-cases (same_status r.status Status.ok)) [
  | inl on ↦ rw on (judge_latency_cases show check r r.latency (ground arith))
  | inr off ↦ rw off (inl refl)
]

policy_spares :
    (show : ℕ → String) (check : BaseCheck) (r : CheckResult)
    → r.status ≢ Status.ok
    → apply_latency_policy show check r ≡ r
unfolding apply_latency_policy
policy_spares show check r h =
    let off : same_status r.status Status.ok ≡ false = ground arith in if_off _ r off

abbrev conclude : CheckResult → Option CheckResult → CheckResult
conclude below none = below
conclude below (some r) = r

module _ (show : ℕ → String) where
  -- Introspection found a fault, which is the answer as it is.
  abbrev pub FaultDecides : Option CheckResult → CheckResult → Type 0
  FaultDecides introspected answer =
      (r : CheckResult) × (introspected ≡ some r) × (r.status ≢ Status.ok) × (answer ≡ r)

  -- It found none, and there is recent traffic: the answer is that of the traffic, under the latency
  -- policy.
  abbrev pub TrafficDecides : BaseCheck → CheckContext → Option CheckResult → CheckResult → Type 0
  TrafficDecides check ctx introspected answer =
      Inconclusive introspected
      × (t : TrafficRecord) × (newest : ℕ) × HasTraffic check ctx t newest
      × (answer ≡ apply_latency_policy show check (traffic_result check ctx t (ctx.now - newest)))

  -- It found none, and there is no recent traffic: the answer is that of the probe.
  abbrev pub ProbeDecides :
      BaseCheck → CheckContext → Option CheckResult → Probed → CheckResult → Type 0
  ProbeDecides check ctx introspected probed answer =
      Inconclusive introspected
      × ((t : TrafficRecord) (newest : ℕ) → ¬ HasTraffic check ctx t newest)
      × (answer
          ≡ apply_latency_policy show check
              (carry_forward introspected (probe_result check ctx probed)))

  -- The latency policy never makes a verdict better, leaves every result alone that is not OK, and
  -- names no other cause than slowness for what it makes worse. Applied again it changes nothing.
  pub latency_only_worsens :
      (check : BaseCheck) (r : CheckResult)
      → let judged = apply_latency_policy show check r in
        (severity r.status ≤ severity judged.status)
        × (r.status ≢ Status.ok → judged ≡ r)
        × ((judged ≡ r) ⊎ (judged.category ≡ some ErrorCategory.slow))
        × (apply_latency_policy show check judged ≡ judged)
  latency_only_worsens check r = elim (policy_cases show check r) [
    | inl same ↦ (
      rw (ap (λ (x : CheckResult). severity x.status) same) (omega arith),
      policy_spares show check r,
      inl same,
      ap (apply_latency_policy show check) same,
    )
    | inr s ↦ (
      rw s.was_ok (ok_mildest _),
      policy_spares show check r,
      inr (Slowed-category show r (apply_latency_policy show check r) s),
      policy_spares show check _ (Slowed-status show r (apply_latency_policy show check r) s),
    )
  ]
