-- ===== src/Probes/Tame.antt =====
-- The exceptions of the factory: `create` raises only ProbeConfigErrors, unless a builder does more.
use health_mon.Common.{
  ◌≡◌, refl, inl, inr, Bool, true, false, String, Option, none, some, [], ◌∷◌, All, arith, leb,
  if◌then◌else◌, Option-cases, ◌≢◌,
}
use health_mon.Common.Dict.{Dict, lookup, All-lookup}
use health_mon.Probes.{
  Value, null, flag, number, not_finite, text, items, mapping, live, Items, nil, cons, Entries, end,
  entry, ◌>>=◌, ProbeConfigError, config, type_error, value_error, other_error, unmodelled, Result,
  ok, err, Python,
}
use health_mon.Probes.Spec.{ProbeSpec, with_params}
use health_mon.Probes.Context.{
  resolved_params, resolve, resolve_items, resolve_entries, refer, found, meaning, Meaning, literal,
  reference,
}
use health_mon.Probes.Factory.{
  Built, check, nothing, refused, crashed, Builder, finish, build, create,
}
use health_mon.Probes.Bounds.{InBounds}
use health_mon.Probes.Acceptable.{with_params-InBounds}

-- It returns, or it raises a ProbeConfigError.
abbrev pub Tame {ℓ} : {A : Type ℓ} → Result A → Type 0
Tame (ok _) = Unit
Tame (err (config _)) = Unit
Tame (err e) = false ≡ true

Tame-bind {ℓ κ} :
    {A : Type ℓ} {B : Type κ} (o : Result A) (f : A → Result B)
    → Tame o
    → ((a : A) → o ≡ ok a → Tame (f a))
    → Tame (o >>= f)
Tame-bind (ok a) f t h = h a refl
Tame-bind (err (config e)) f t h = tt
Tame-bind (err type_error) f t h = absurd (ground arith)
Tame-bind (err value_error) f t h = absurd (ground arith)
Tame-bind (err other_error) f t h = absurd (ground arith)
Tame-bind (err unmodelled) f t h = absurd (ground arith)

found-Tame : (name key : String) (o : Option Value) → Tame (found name key o)
unfolding found
found-Tame name key none = tt
found-Tame name key (some v) = tt

refer-Tame :
    (name key : String) (m : Meaning) (context : Dict Value) → Tame (refer name key m context)
unfolding refer
refer-Tame name key (literal s) context = tt
refer-Tame name key (reference ref) context = found-Tame name key (lookup ref context)

mutual
  unfolding resolve

  resolve-Tame :
      (name key : String) (v : Value) (context : Dict Value) → Tame (resolve name key v context)
  resolve-Tame name key null context = tt
  resolve-Tame name key (flag b) context = tt
  resolve-Tame name key (number z) context = tt
  resolve-Tame name key (not_finite z) context = tt
  resolve-Tame name key (text s) context = refer-Tame name key (meaning s) context
  resolve-Tame name key (items xs) context =
      Tame-bind (resolve_items name key xs context) _ (resolve_items-Tame name key xs context)
        (λ _ _. tt)
  resolve-Tame name key (mapping es) context =
      Tame-bind (resolve_entries name key es context) _ (resolve_entries-Tame name key es context)
        (λ _ _. tt)
  resolve-Tame name key (live s) context = tt

  resolve_items-Tame :
      (name key : String) (xs : Items) (context : Dict Value)
      → Tame (resolve_items name key xs context)
  resolve_items-Tame name key nil context = tt
  resolve_items-Tame name key (cons v rest) context =
      Tame-bind (resolve name key v context) _ (resolve-Tame name key v context) (λ _ _.
        Tame-bind (resolve_items name key rest context) _ (resolve_items-Tame name key rest context)
          (λ _ _. tt))

  resolve_entries-Tame :
      (name key : String) (es : Entries) (context : Dict Value)
      → Tame (resolve_entries name key es context)
  resolve_entries-Tame name key end context = tt
  resolve_entries-Tame name key (entry k v rest) context =
      Tame-bind (resolve name key v context) _ (resolve-Tame name key v context) (λ _ _.
        Tame-bind (resolve_entries name key rest context) _
          (resolve_entries-Tame name key rest context) (λ _ _. tt))

resolved_params-Tame :
    (name : String) (params context : Dict Value) → Tame (resolved_params name params context)
unfolding resolved_params
resolved_params-Tame name [] context = tt
resolved_params-Tame name ((k, v) ∷ rest) context =
    Tame-bind (resolve name k v context) _ (resolve-Tame name k v context) (λ _ _.
      Tame-bind (resolved_params name rest context) _ (resolved_params-Tame name rest context)
        (λ _ _. tt))

-- A builder raises nothing but a ProbeConfigError.
abbrev pub CalmBuilder : String × Builder → Type 0
CalmBuilder (_, b) = (s : ProbeSpec) (context : Dict Value) → b s context ≢ crashed

finish-Tame : (s : ProbeSpec) (o : Built) → o ≢ crashed → Tame (finish s o)
unfolding finish
finish-Tame s check h = tt
finish-Tame s nothing h = tt
finish-Tame s refused h = tt
finish-Tame s crashed h = absurd (h refl)

with_params-Tame :
    (py : Python) (s : ProbeSpec) (params : Dict Value)
    → InBounds s
    → Tame (with_params py s params)
with_params-Tame py s params b =
    rw (with_params-InBounds py s params b) (either (leb s.interval s.timeout) _ _)
  where
    either :
        (c : Bool) (e : ProbeConfigError) (s : ProbeSpec)
        → Tame (if c then err (config e) else ok s)
    either true e s = tt
    either false e s = tt

pub create-Tame :
    (py : Python) (builders : Dict Builder) (s : ProbeSpec) (context : Dict Value)
    → InBounds s
    → All CalmBuilder builders
    → Tame (create py builders s context)
unfolding create build
create-Tame py builders s context b calm = elim (Option-cases (lookup s.type builders)) [
  | inl e ↦ rw e tt
  | inr (f, e) ↦ rw e (
      Tame-bind (resolved_params s.name s.params context) _
        (resolved_params-Tame s.name s.params context)
        (λ params _.
          Tame-bind (with_params py s params) _ (with_params-Tame py s params b) (λ resolved _.
            finish-Tame s _ (All-lookup CalmBuilder s.type f builders e calm _ context))))
]
