-- ===== src/Common/Dict.antt =====
-- Python's `dict` with string keys, as an association list in insertion order.
use mathlib.Core.Path.{◌≡◌, refl, sym, ◌∙◌, subst, subst₂}
use mathlib.Core.Logic.{inl, inr}
use mathlib.Core.Bool.{false}
use mathlib.Core.Option.{Option, none, some}
use mathlib.Core.List.{List, [], ◌∷◌}
use Prim.Native.String.{String}
use native.Mathlib.Omega.{arith}
use text.Mathlib.Text.{◌==◌}
use text.Mathlib.TextEquality.{eq_iff}
use health_mon.Common.Lists.{All}
use health_mon.Common.Tests.{if◌then◌else◌, is_some, Bool-cases, Option-cases}

abbrev pub Dict {ℓ} : Type ℓ → Type ℓ
Dict V = List (String × V)

module _ {ℓ} {V : Type ℓ} where
  -- d.get(k); `d[k]` raises where this is `none`.
  unfoldable pub lookup : String → Dict V → Option V
  lookup k [] = none
  lookup k ((j, v) ∷ d) = if j == k then some v else lookup k d

  -- d[k] = v: a key that is there keeps its place.
  unfoldable pub insert : String → V → Dict V → Dict V
  insert k v [] = (k, v) ∷ []
  insert k v ((j, w) ∷ d) = let rest = insert k v d in if j == k then (k, v) ∷ d else (j, w) ∷ rest

  -- d.setdefault(k, v)
  unfoldable pub set_default : String → V → Dict V → Dict V
  set_default k v [] = (k, v) ∷ []
  set_default k v ((j, w) ∷ d) =
      let rest = set_default k v d in if j == k then (j, w) ∷ d else (j, w) ∷ rest

  -- del d[k]; a key stands at most once.
  unfoldable pub delete : String → Dict V → Dict V
  delete k [] = []
  delete k ((j, v) ∷ d) = let rest = delete k d in if j == k then rest else (j, v) ∷ rest

  abbrev pub keys : Dict V → List String
  keys [] = []
  keys ((j, _) ∷ d) = j ∷ keys d

  abbrev pub values : Dict V → List V
  values [] = []
  values ((_, v) ∷ d) = v ∷ values d

  pub lookup-insert :
      (k j : String) (v : V) (d : Dict V)
      → lookup j (insert k v d) ≡ (if k == j then some v else lookup j d)
  unfolding lookup insert
  lookup-insert k j v [] = refl
  lookup-insert k j v ((i, w) ∷ d) =
      ground (arith, eq_iff k j, eq_iff i k, eq_iff i j, lookup-insert k j v d)

  pub lookup-insert_self : (k : String) (v : V) (d : Dict V) → lookup k (insert k v d) ≡ some v
  lookup-insert_self k v d = ground (arith, lookup-insert k k v d, eq_iff k k)

  pub lookup-insert_ne :
      (k j : String) (v : V) (d : Dict V) → (k == j) ≡ false → lookup j (insert k v d) ≡ lookup j d
  lookup-insert_ne k j v d h = ground (arith, lookup-insert k j v d)

  pub lookup-delete :
      (k j : String) (d : Dict V) → lookup j (delete k d) ≡ (if k == j then none else lookup j d)
  unfolding lookup delete
  lookup-delete k j [] = ground arith
  lookup-delete k j ((i, w) ∷ d) =
      ground (arith, eq_iff k j, eq_iff i k, eq_iff i j, lookup-delete k j d)

  pub lookup-set_default :
      (k j : String) (v : V) (d : Dict V)
      → lookup j (set_default k v d)
        ≡ (if k == j then (if is_some (lookup k d) then lookup k d else some v) else lookup j d)
  unfolding lookup set_default
  lookup-set_default k j v [] = ground arith
  lookup-set_default k j v ((i, w) ∷ d) =
      ground (arith, eq_iff k j, eq_iff i k, eq_iff i j, lookup-set_default k j v d)

  -- A value found after a write is the one written, under its key, or was there before.
  pub lookup-insert_cases :
      (P : V → Type 0) (k j : String) (v w : V) (d : Dict V)
      → lookup j (insert k v d) ≡ some w
      → (k ≡ j → P v)
      → (lookup j d ≡ some w → P w)
      → P w
  lookup-insert_cases P k j v w d h new old = elim (Bool-cases (k == j)) [
    | inl same ↦
        let e : v ≡ w = ground (arith, lookup-insert k j v d) in
        subst P e (new ((eq_iff k j).0 same))
    | inr other ↦ old (sym (lookup-insert_ne k j v d other) ∙ h)
  ]

  pub lookup-set_default_cases :
      (P : V → Type 0) (k j : String) (v w : V) (d : Dict V)
      → lookup j (set_default k v d) ≡ some w
      → P v
      → (lookup j d ≡ some w → P w)
      → P w
  lookup-set_default_cases P k j v w d h new old = elim (Option-cases (lookup j d)) [
    | inl fresh ↦
        let e : v ≡ w = ground (arith, lookup-set_default k j v d, eq_iff k j) in subst P e new
    | inr (x, there) ↦ old (ground (arith, lookup-set_default k j v d, eq_iff k j))
  ]

  -- What holds of every entry and of the one that is written holds after the write.
  pub All-insert :
      (P : String × V → Type 0) (k : String) (v : V) (d : Dict V)
      → P (k, v)
      → All P d
      → All P (insert k v d)
  unfolding insert
  All-insert P k v [] new h = (new, tt)
  All-insert P k v ((j, w) ∷ d) new h = elim (Bool-cases (j == k)) [
    | inl same ↦ rw same (new, h.1)
    | inr other ↦ rw other (h.0, All-insert P k v d new h.1)
  ]

  pub All-delete :
      (P : String × V → Type 0) (k : String) (d : Dict V) → All P d → All P (delete k d)
  unfolding delete
  All-delete P k [] h = tt
  All-delete P k ((j, w) ∷ d) h = elim (Bool-cases (j == k)) [
    | inl same ↦ rw same (All-delete P k d h.1)
    | inr other ↦ rw other (h.0, All-delete P k d h.1)
  ]

  -- An entry that a lookup finds is one of the entries.
  pub All-lookup :
      (P : String × V → Type 0) (k : String) (v : V) (d : Dict V)
      → lookup k d ≡ some v
      → All P d
      → P (k, v)
  unfolding lookup
  All-lookup P k v [] e h = cc
  All-lookup P k v ((j, w) ∷ d) e h = elim (Bool-cases (j == k)) [
    | inl same ↦
        let e1 : j ≡ k = (eq_iff j k).0 same in
        let e2 : w ≡ v = ground arith in subst₂ (λ x y. P (x, y)) e1 e2 h.0
    | inr other ↦ All-lookup P k v d (ground arith) h.1
  ]

  -- No key stands twice.
  abbrev pub Distinct : Dict V → Type ℓ
  Distinct [] = Unit
  Distinct ((k, _) ∷ d) = (lookup k d ≡ none) × Distinct d

  pub Distinct-insert : (k : String) (v : V) (d : Dict V) → Distinct d → Distinct (insert k v d)
  unfolding lookup insert
  Distinct-insert k v [] h = (refl, tt)
  Distinct-insert k v ((j, w) ∷ d) h = elim (Bool-cases (j == k)) [
    | inl same ↦ rw (same, ← (eq_iff j k).0 same) (h.0, h.1)
    | inr other ↦ rw other (
      ground (arith, lookup-insert k j v d, eq_iff k j, eq_iff j k, h.0),
      Distinct-insert k v d h.1,
    )
  ]

  pub lookup_self : (k : String) (v : V) (d : Dict V) → lookup k ((k, v) ∷ d) ≡ some v
  unfolding lookup
  lookup_self k v d = ground (arith, eq_iff k k)

  -- Where keys are distinct, what the rest of a dict holds the whole dict holds.
  pub lookup_weaken :
      (k j : String) (v w : V) (d : Dict V)
      → lookup j d ≡ none
      → lookup k d ≡ some w
      → lookup k ((j, v) ∷ d) ≡ some w
  unfolding lookup
  lookup_weaken k j v w d fresh h = ground (arith, eq_iff j k)

  -- Overwriting a key that is there leaves the keys and their order alone.
  pub keys-insert :
      (k : String) (v w : V) (d : Dict V) → lookup k d ≡ some w → keys (insert k v d) ≡ keys d
  unfolding lookup insert
  keys-insert k v w [] h = cc
  keys-insert k v w ((i, u) ∷ d) h = ground (arith, eq_iff i k, keys-insert k v w d)

-- Writing or defaulting one key in two dicts of the same keys keeps the keys equal.
pub keys-insert-set_default {ℓ κ} :
    {V : Type ℓ} {W : Type κ} (k : String) (v : V) (w : W) (d : Dict V) (e : Dict W)
    → keys d ≡ keys e
    → keys (insert k v d) ≡ keys (set_default k w e)
unfolding insert set_default
keys-insert-set_default k v w [] [] h = refl
keys-insert-set_default k v w [] (_ ∷ e) h = cc
keys-insert-set_default k v w (_ ∷ d) [] h = cc
keys-insert-set_default k v w ((i, a) ∷ d) ((j, b) ∷ e) h =
    ground (arith, eq_iff i k, eq_iff j k, keys-insert-set_default k v w d e)

-- A key of one dict is a key of another that has the same keys.
pub lookup_of_keys {ℓ κ} :
    {V : Type ℓ} {W : Type κ} (k : String) (d : Dict V) (e : Dict W)
    → keys d ≡ keys e
    → is_some (lookup k d) ≡ is_some (lookup k e)
unfolding lookup
lookup_of_keys k [] [] h = refl
lookup_of_keys k [] (_ ∷ e) h = cc
lookup_of_keys k (_ ∷ d) [] h = cc
lookup_of_keys k ((i, a) ∷ d) ((j, b) ∷ e) h =
    ground (arith, eq_iff i k, eq_iff j k, lookup_of_keys k d e)
