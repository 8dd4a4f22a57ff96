-- ===== src/Recorder/Suppression.antt =====
-- The monitor's own probes never count as traffic.
use health_mon.Common.{
  ℕ, suc, zero, ◌-◌, ◌≡◌, refl, sym, ◌∙◌, Bool, true, false, String, Option, none, List, [], ◌∷◌,
  if_on, if_off, arith,
}
use mathlib.Core.Path.{subst}
use health_mon.Model.{ErrorCategory}
use health_mon.Track.{Exit, returned, raised, escaped}
use health_mon.Recorder.{
  Task, open_scope, close_scope, success, failure, note_success, note_failure, category_of, wrapped,
  reset,
}

-- What a task does: it opens and closes probe scopes, and calls a dependency.
pub data Step : Type 0 where
  open_probe close_probe : Step
  call : String → Exit → Option ErrorCategory → ℕ → ℕ → Step

unfoldable pub step : Step → Task → Task
step open_probe t = open_scope t
step close_probe t = close_scope t
step (call dep exit classified started now) t = wrapped dep exit classified started now t

unfoldable pub run : List Step → Task → Task
unfolding step
run [] t = t
run (s ∷ rest) t = run rest (step s t)

-- What is recorded of a call that no probe makes.
unfoldable pub recorded : String → Exit → Option ErrorCategory → ℕ → ℕ → Task → Task
recorded dep returned classified started now t = note_success dep (now - started) now t
recorded dep raised classified started now t = note_failure dep (category_of none classified) now t
recorded dep escaped classified started now t = t

-- The steps without the calls that stand inside a probe scope, and without the scopes, of `depth`
-- that are open: what is left of them is recorded, with no flag to look at.
unfoldable pub outside : ℕ → List Step → Task → Task
unfolding recorded
outside depth [] t = t
outside depth (open_probe ∷ rest) t = outside (suc depth) rest t
outside zero (close_probe ∷ rest) t = outside zero rest t
outside (suc depth) (close_probe ∷ rest) t = outside depth rest t
outside zero (call dep exit classified started now ∷ rest) t =
    outside zero rest (recorded dep exit classified started now t)
outside (suc depth) (call _ _ _ _ _ ∷ rest) t = outside (suc depth) rest t

-- So many scopes are open.
abbrev pub Open : ℕ → Bool → List Bool → Type 0
Open zero active tokens = (active ≡ false) × (tokens ≡ [])
Open (suc depth) active [] = false ≡ true
Open (suc depth) active (before ∷ rest) = (active ≡ true) × Open depth before rest

-- The two records of calls.
abbrev pub Agree : Task → Task → Type 0
Agree t u = (t.traffic ≡ u.traffic) × (t.timings ≡ u.timings)

wrapped_inside :
    (dep : String) (exit : Exit) (c : Option ErrorCategory) (started now : ℕ) (t : Task)
    → t.active ≡ true
    → wrapped dep exit c started now t ≡ t
unfolding wrapped success failure
wrapped_inside dep returned c started now t h = if_on _ _ h
wrapped_inside dep raised c started now t h = if_on _ _ h
wrapped_inside dep escaped c started now t h = refl

wrapped_outside :
    (dep : String) (exit : Exit) (c : Option ErrorCategory) (started now : ℕ) (t : Task)
    → t.active ≡ false
    → wrapped dep exit c started now t ≡ recorded dep exit c started now t
unfolding wrapped success failure recorded
wrapped_outside dep returned c started now t h = if_off _ _ h
wrapped_outside dep raised c started now t h = if_off _ _ h
wrapped_outside dep escaped c started now t h = refl

-- A record of a call leaves the scopes alone, and looks at the records from before only.
recorded-Agree :
    (dep : String) (exit : Exit) (c : Option ErrorCategory) (started now : ℕ) (t u : Task)
    → Agree t u
    → ((recorded dep exit c started now t).active ≡ t.active)
      × ((recorded dep exit c started now t).tokens ≡ t.tokens)
      × Agree (recorded dep exit c started now t) (recorded dep exit c started now u)
unfolding recorded note_success note_failure
recorded-Agree dep returned c started now t u (a, b) = (refl, refl, rw (a, b) (refl, refl))
recorded-Agree dep raised c started now t u (a, b) = (refl, refl, rw (a, b) (refl, refl))
recorded-Agree dep escaped c started now t u h = (refl, refl, h)

active_inside :
    (depth : ℕ) (active : Bool) (tokens : List Bool)
    → Open (suc depth) active tokens
    → active ≡ true
active_inside depth active [] o = cc
active_inside depth active (_ ∷ _) o = o.0

open_scope-Open :
    (depth : ℕ) (t : Task)
    → Open depth t.active t.tokens
    → Open (suc depth) (open_scope t).active (open_scope t).tokens
unfolding open_scope
open_scope-Open depth t o = (refl, o)

reset-Open :
    (depth : ℕ) (tokens : List Bool) (t : Task)
    → Open (suc depth) t.active tokens
    → Open depth (reset tokens t).active (reset tokens t).tokens × Agree (reset tokens t) t
unfolding reset
reset-Open depth [] t o = absurd (ground arith)
reset-Open depth (before ∷ rest) t o = (o.1, (refl, refl))

reset_none : (tokens : List Bool) (t : Task) → tokens ≡ [] → reset tokens t ≡ t
unfolding reset
reset_none [] t e = refl
reset_none (_ ∷ _) t e = cc

open_scope-Agree : (t u : Task) → Agree t u → Agree (open_scope t) u
unfolding open_scope
open_scope-Agree t u a = a

-- A health probe never counts as traffic: whatever a task does, with probe scopes inside one another
-- and calls anywhere, its traffic log and its timings are those of the calls outside all scopes.
pub probes_leave_no_traffic :
    (todo : List Step) (depth : ℕ) (t u : Task)
    → Open depth t.active t.tokens
    → Agree t u
    → Agree (run todo t) (outside depth todo u)
unfolding run step outside close_scope
probes_leave_no_traffic [] depth t u o a = a
probes_leave_no_traffic (open_probe ∷ rest) depth t u o a =
    probes_leave_no_traffic rest (suc depth) (open_scope t) u (open_scope-Open depth t o)
      (open_scope-Agree t u a)
probes_leave_no_traffic (close_probe ∷ rest) zero t u o a =
    subst (λ x. Agree (run rest x) (outside zero rest u)) (sym (reset_none t.tokens t o.1))
      (probes_leave_no_traffic rest zero t u o a)
probes_leave_no_traffic (close_probe ∷ rest) (suc depth) t u o a =
    let (o', same) = reset-Open depth t.tokens t o in
    probes_leave_no_traffic rest depth (reset t.tokens t) u o' (same.0 ∙ a.0, same.1 ∙ a.1)
probes_leave_no_traffic (call dep exit c started now ∷ rest) zero t u o a =
    let (active, tokens, a') = recorded-Agree dep exit c started now t u a in
    subst (λ x. Agree (run rest x) (outside zero rest (recorded dep exit c started now u)))
      (sym (wrapped_outside dep exit c started now t o.0))
      (probes_leave_no_traffic rest zero (recorded dep exit c started now t) _
        (active ∙ o.0, tokens ∙ o.1) a')
probes_leave_no_traffic (call dep exit c started now ∷ rest) (suc depth) t u o a =
    subst (λ x. Agree (run rest x) (outside (suc depth) rest u))
      (sym (wrapped_inside dep exit c started now t (active_inside depth t.active t.tokens o)))
      (probes_leave_no_traffic rest (suc depth) t u o a)
