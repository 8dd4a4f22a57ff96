-- ===== src/Restart/Firing.antt =====
-- When policy/restart.py fires.
use mathlib.Core.Path.{ap₂}
use health_mon.Common.{
  ℕ, suc, ◌+◌, ◌≤◌, ◌<◌, Bool, true, false, ◌≡◌, refl, sym, ◌∙◌, ap, ◌⊎◌, inl, inr, Option, none,
  some, List, [], ◌∷◌, All, any, arith, Bool-cases, if◌then◌else◌,
}
use health_mon.Model.{Status, ErrorCategory, CheckResult, same_status}
use health_mon.Restart.{
  RestartPolicy, nothing, Sight, is_trigger, is_self_fault, is_dependency_fault, cooling, observe,
}
use health_mon.Restart.Budget.{Look, fired, policy_after, fires}

-- Some check fails with a category that the policy is triggered by.
abbrev pub sees : (ErrorCategory → Bool) → Sight → Bool
sees triggers snap = any (is_trigger triggers) snap.results

-- How many observations at the end of the history saw that, with no other between them.
abbrev pub hits : (ErrorCategory → Bool) → List Look → ℕ
hits triggers [] = 0
hits triggers (e ∷ older) = if sees triggers e.snap then suc (hits triggers older) else 0

-- The settings of a policy, which no observation changes.
abbrev SameSettings : RestartPolicy → RestartPolicy → Type 0
SameSettings p q =
    (p.triggers ≡ q.triggers)
    × (p.after_cycles ≡ q.after_cycles)
    × (p.min_uptime ≡ q.min_uptime)
    × (p.cooldown ≡ q.cooldown)

observe_settings :
    (p : RestartPolicy) (snap : Sight) (now draw : ℕ) → SameSettings (observe p snap now draw).0 p
unfolding observe
observe_settings p snap now draw = (ground arith, ground arith, ground arith, ground arith)

after_settings : (p : RestartPolicy) (history : List Look) → SameSettings (policy_after p history) p
after_settings p [] = (refl, refl, refl, refl)
after_settings p (e ∷ older) =
    let (a, b, c, d) = observe_settings (policy_after p older) e.snap e.now e.draw in
    let (a', b', c', d') = after_settings p older in (a ∙ a', b ∙ b', c ∙ c', d ∙ d')

-- An observation that leaves the policy unlatched found it so, and counted.
observe_streak :
    (p : RestartPolicy) (snap : Sight) (now draw : ℕ)
    → p.enabled ≡ true
    → (observe p snap now draw).0.latched ≡ false
    → (p.latched ≡ false)
      × ((observe p snap now draw).0.streak ≡ (if sees p.triggers snap then p.streak + 1 else 0))
unfolding observe
observe_streak p snap now draw on l = ground arith

enabled-observe :
    (p : RestartPolicy) (snap : Sight) (now draw : ℕ)
    → (observe p snap now draw).0.enabled ≡ p.enabled
unfolding observe
enabled-observe p snap now draw = ground arith

enabled-after :
    (p : RestartPolicy) (history : List Look) → (policy_after p history).enabled ≡ p.enabled
enabled-after p [] = refl
enabled-after p (e ∷ older) =
    enabled-observe (policy_after p older) e.snap e.now e.draw ∙ enabled-after p older

streak_of_history :
    (p : RestartPolicy) (history : List Look)
    → p.enabled ≡ true
    → p.streak ≡ 0
    → (policy_after p history).latched ≡ false
    → (policy_after p history).streak ≡ hits p.triggers history
streak_of_history p [] on fresh l = fresh
streak_of_history p (e ∷ older) on fresh l =
    let q = policy_after p older in
    let (l', counted) = observe_streak q e.snap e.now e.draw (enabled-after p older ∙ on) l in
    let (same, _, _, _) = after_settings p older in
    let before = streak_of_history p older on fresh l' in
    rw (counted, same, before) (suc_if (sees p.triggers e.snap) (hits p.triggers older))
  where
    suc_if : (b : Bool) (n : ℕ) → (if b then n + 1 else 0) ≡ (if b then suc n else 0)
    suc_if b n = ground arith

-- What must hold at an observation that fires.
observe_needs :
    (p : RestartPolicy) (snap : Sight) (now draw : ℕ)
    → fired (observe p snap now draw).1 ≡ true
    → (p.enabled ≡ true)
      × (p.latched ≡ false)
      × (sees p.triggers snap ≡ true)
      × (p.after_cycles ≤ suc p.streak)
      × (p.min_uptime ≤ snap.uptime)
      × (cooling p.last_restart p.cooldown now ≡ false)
unfolding observe
observe_needs p snap now draw f =
    (ground arith, ground arith, ground arith, ground arith, ground arith, ground arith)

observe_last :
    (p : RestartPolicy) (snap : Sight) (now draw : ℕ)
    → (observe p snap now draw).0.last_restart
      ≡ (if fired (observe p snap now draw).1 then some now else p.last_restart)
unfolding observe
observe_last p snap now draw = ground arith

abbrev pub newest_of : List ℕ → Option ℕ
newest_of [] = none
newest_of (t ∷ _) = some t

last_of_fires :
    (p : RestartPolicy) (history : List Look)
    → p.last_restart ≡ none
    → (policy_after p history).last_restart ≡ newest_of (fires p history)
last_of_fires p [] fresh = fresh
last_of_fires p (e ∷ older) fresh =
    ground
      (arith, observe_last (policy_after p older) e.snap e.now e.draw, last_of_fires p older fresh)

-- A policy that starts fresh fires only when it is enabled, the last `after_cycles` observations
-- all saw a triggering failure, the process has been up for `min_uptime`, and the last firing, if
-- there was one, lies at least `cooldown` back.
pub restart_needs :
    (p : RestartPolicy) (older : List Look) (e : Look)
    → p.streak ≡ 0
    → p.last_restart ≡ none
    → fired (observe (policy_after p older) e.snap e.now e.draw).1 ≡ true
    → (p.enabled ≡ true)
      × (0 < hits p.triggers (e ∷ older))
      × (p.after_cycles ≤ hits p.triggers (e ∷ older))
      × (p.min_uptime ≤ e.snap.uptime)
      × (cooling (newest_of (fires p older)) p.cooldown e.now ≡ false)
restart_needs p older e fresh never f =
    let q = policy_after p older in
    let (on, open_, seen, cycles, up, cool) = observe_needs q e.snap e.now e.draw f in
    let (trig, aft, mn, cd) = after_settings p older in
    let on' = sym (enabled-after p older) ∙ on in
    let streak = streak_of_history p older on' fresh open_ in
    let seen' : sees p.triggers e.snap ≡ true = rw (← trig) seen in
    (
      on',
      rw seen' (omega arith),
      rw seen' (omega arith),
      omega arith,
      sym (ap₂ (λ l c. cooling l c e.now) (last_of_fires p older never) cd) ∙ cool,
    )

-- A failure that names a dependency fault, or no cause.
abbrev pub IsDependencyFailure : CheckResult → Type 0
IsDependencyFailure r =
    r.status ≡ Status.failing
    → (r.category ≡ none)
      ⊎ ((c : ErrorCategory) × (r.category ≡ some c) × (is_dependency_fault c ≡ true))

faults_disjoint : (c : ErrorCategory) → is_dependency_fault c ≡ true → is_self_fault c ≡ false
unfolding is_dependency_fault is_self_fault
faults_disjoint ErrorCategory.timeout h = refl
faults_disjoint c h = ground arith

not_a_trigger : (r : CheckResult) → IsDependencyFailure r → is_trigger is_self_fault r ≡ false
not_a_trigger r h = elim (Bool-cases (same_status r.status Status.failing)) [
  | inl failing ↦ cause (h (ground arith))
  | inr other ↦ rw other
]
  where
    cause :
        (r.category ≡ none)
          ⊎ ((c : ErrorCategory) × (r.category ≡ some c) × (is_dependency_fault c ≡ true))
        → is_trigger is_self_fault r ≡ false
    cause (inl nothing_known) = ground arith
    cause (inr (c, named, fault)) = ground (arith, faults_disjoint c fault)

sees_none :
    (results : List CheckResult)
    → All IsDependencyFailure results
    → any (is_trigger is_self_fault) results ≡ false
sees_none [] h = refl
sees_none (r ∷ results) h = ground (arith, not_a_trigger r h.0, sees_none results h.1)

observe_unseen :
    (p : RestartPolicy) (snap : Sight) (now draw : ℕ)
    → p.enabled ≡ true
    → p.latched ≡ false
    → sees p.triggers snap ≡ false
    → ((observe p snap now draw).1 ≡ nothing) × ((observe p snap now draw).0.streak ≡ 0)
unfolding observe
observe_unseen p snap now draw on l s = (ground arith, ground arith)

-- With the default triggers, an enabled policy that is not latched and sees only dependency
-- failures, or failures without a cause, among the failing checks does nothing to the process, and
-- starts its count of cycles again.
pub dependency_outage_no_restart :
    (p : RestartPolicy) (snap : Sight) (now draw : ℕ)
    → p.triggers ≡ is_self_fault
    → p.enabled ≡ true
    → p.latched ≡ false
    → All IsDependencyFailure snap.results
    → ((observe p snap now draw).1 ≡ nothing) × ((observe p snap now draw).0.streak ≡ 0)
dependency_outage_no_restart p snap now draw default on l h =
    observe_unseen p snap now draw on l (ap (λ t. sees t snap) default ∙ sees_none snap.results h)
