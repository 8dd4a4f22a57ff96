-- ===== src/Restart/Budget.antt =====
-- The hourly budget of policy/restart.py over a whole history of observations.
use health_mon.Common.{
  ℕ, ◌≤◌, ◌<◌, Bool, true, false, ◌≡◌, refl, ◌∙◌, inl, inr, List, [], ◌∷◌, ◌++◌, filter, length,
  arith, Bool-cases, if◌then◌else◌,
}
use health_mon.Restart.{RestartPolicy, Action, nothing, Sight, is_recent, observe}

abbrev pub fired : Action → Bool
fired nothing = false
fired _ = true

-- One observation: what is seen, the clock reading and the draw.
pub record Look : Type 0 where
  pub snap : Sight
  pub now : ℕ
  pub draw : ℕ

-- The policy after a history of observations, and the times at which it fired, the newest first.
abbrev pub policy_after : RestartPolicy → List Look → RestartPolicy
policy_after p [] = p
policy_after p (e ∷ older) = (observe (policy_after p older) e.snap e.now e.draw).0

abbrev pub fires : RestartPolicy → List Look → List ℕ
fires p [] = []
fires p (e ∷ older) =
    if fired (observe (policy_after p older) e.snap e.now e.draw).1
    then e.now ∷ fires p older
    else fires p older

abbrev pub latest : List Look → ℕ
latest [] = 0
latest (e ∷ _) = e.now

-- The clock does not run backwards.
abbrev pub InOrder : List Look → Type 0
InOrder [] = Unit
InOrder (e ∷ older) = (latest older ≤ e.now) × InOrder older

-- How many of the times lie in the hour that ends at `t`.
abbrev pub recent_count : ℕ → List ℕ → ℕ
recent_count t xs = length (filter (is_recent t) xs)

recent_count-filter :
    (now t : ℕ) (xs : List ℕ)
    → now ≤ t
    → recent_count t (filter (is_recent now) xs) ≡ recent_count t xs
recent_count-filter now t [] h = refl
recent_count-filter now t (x ∷ xs) h = ground (arith, recent_count-filter now t xs h)

recent_count-append :
    (t x : ℕ) (xs : List ℕ) → recent_count t (xs ++ x ∷ []) ≡ recent_count t (x ∷ xs)
recent_count-append t x [] = refl
recent_count-append t x (y ∷ xs) = ground (arith, recent_count-append t x xs)

recent_count-cons :
    (t x : ℕ) (xs ys : List ℕ)
    → recent_count t xs ≡ recent_count t ys
    → recent_count t (x ∷ xs) ≡ recent_count t (x ∷ ys)
recent_count-cons t x xs ys h = ground arith

recent_count_anti : (now t : ℕ) (xs : List ℕ) → now ≤ t → recent_count t xs ≤ recent_count now xs
recent_count_anti now t [] h = omega arith
recent_count_anti now t (x ∷ xs) h = ground (arith, recent_count_anti now t xs h)

-- What one observation does to the recorded restarts.
observe_quiet :
    (p : RestartPolicy) (snap : Sight) (now draw t : ℕ)
    → now ≤ t
    → fired (observe p snap now draw).1 ≡ false
    → recent_count t (observe p snap now draw).0.restarts ≡ recent_count t p.restarts
unfolding observe
observe_quiet p snap now draw t h q = ground (arith, recent_count-filter now t p.restarts h)

observe_firing :
    (p : RestartPolicy) (snap : Sight) (now draw t : ℕ)
    → now ≤ t
    → fired (observe p snap now draw).1 ≡ true
    → (recent_count t (observe p snap now draw).0.restarts ≡ recent_count t (now ∷ p.restarts))
      × (recent_count now p.restarts < p.max_per_hour)
unfolding observe
observe_firing p snap now draw t h q = ground (
  arith,
  recent_count-filter now t p.restarts h,
  recent_count-append t now (filter (is_recent now) p.restarts),
)

max_per_hour-observe :
    (p : RestartPolicy) (snap : Sight) (now draw : ℕ)
    → (observe p snap now draw).0.max_per_hour ≡ p.max_per_hour
unfolding observe
max_per_hour-observe p snap now draw = ground arith

max_per_hour-after :
    (p : RestartPolicy) (history : List Look)
    → (policy_after p history).max_per_hour ≡ p.max_per_hour
max_per_hour-after p [] = refl
max_per_hour-after p (e ∷ older) =
    max_per_hour-observe (policy_after p older) e.snap e.now e.draw ∙ max_per_hour-after p older

-- The recorded restarts count every firing that a later hour can still see.
recorded :
    (p : RestartPolicy) (history : List Look) (t : ℕ)
    → p.restarts ≡ []
    → InOrder history
    → latest history ≤ t
    → recent_count t (policy_after p history).restarts ≡ recent_count t (fires p history)
recorded p [] t none_yet o h = rw none_yet refl
recorded p (e ∷ older) t none_yet o h =
    let before = recorded p older t none_yet o.1 (omega arith) in
    elim (Bool-cases (fired (observe (policy_after p older) e.snap e.now e.draw).1)) [
      | inl fires_now ↦
          let (grown, _) =
            observe_firing (policy_after p older) e.snap e.now e.draw t h fires_now in
          rw fires_now (grown ∙ recent_count-cons t e.now _ _ before)
      | inr quiet ↦
          rw quiet (observe_quiet (policy_after p older) e.snap e.now e.draw t h quiet ∙ before)
    ]

-- However the observations go, as long as the clock does not run backwards, a policy that starts
-- with no restart on record fires at most `max_per_hour` times in the hour that ends at the latest
-- observation.
pub restart_budget :
    (p : RestartPolicy) (history : List Look)
    → p.restarts ≡ []
    → InOrder history
    → recent_count (latest history) (fires p history) ≤ p.max_per_hour
restart_budget p [] none_yet o = omega arith
restart_budget p (e ∷ older) none_yet o =
    elim (Bool-cases (fired (observe (policy_after p older) e.snap e.now e.draw).1)) [
      | inl fires_now ↦
          let (_, room) =
            observe_firing (policy_after p older) e.snap e.now e.draw e.now (omega arith)
              fires_now in
          rw fires_now (
            ground
              (arith, room, max_per_hour-after p older, recorded p older e.now none_yet o.1 o.0))
      | inr quiet ↦ rw quiet (
          omega (
            arith,
            recent_count_anti (latest older) e.now (fires p older) o.0,
            restart_budget p older none_yet o.1,
          ))
    ]
