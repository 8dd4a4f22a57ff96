-- ===== src/Yaml/Words.antt =====
-- The lengths of what `strip`, `split` and slices give, and that `_scalar` never runs out of fuel.
use health_mon.Common.{
  ℕ, zero, suc, ◌≤◌, ◌<◌, true, ◌≡◌, refl, Option, List, [], ◌∷◌, ◌==◌, is_empty, is_some, length,
  All, ◌&&◌, All-weaken, Bool-cases, inl, inr, arith,
}
use health_mon.Probes.{ℤ}
use health_mon.Yaml.{Text, Node}
use health_mon.Yaml.Lexis.{lstrip, rstrip, strip, is_space}
use health_mon.Yaml.Scalar.{
  scalar, scalar_of, init, inner, is_bracketed, split_comma, before_comma, each, flow,
}

length-lstrip : (s : Text) → length (lstrip s) ≤ length s
length-lstrip [] = omega arith
length-lstrip (c ∷ s) = elim (Bool-cases (is_space c)) [
  | inl on ↦ rw on (omega (arith, length-lstrip s))
  | inr off ↦ rw off (omega arith)
]

length-rstrip : (s : Text) → length (rstrip s) ≤ length s
length-rstrip [] = omega arith
length-rstrip (c ∷ s) = elim (Bool-cases (is_empty (rstrip s) && is_space c)) [
  | inl on ↦ rw on (omega arith)
  | inr off ↦ rw off (omega (arith, length-rstrip s))
]

pub length-strip : (s : Text) → length (strip s) ≤ length s
length-strip s = omega (arith, length-rstrip (lstrip s), length-lstrip s)

length-init : (c : ℕ) (s : Text) → length (init (c ∷ s)) ≡ length s
length-init c [] = refl
length-init c (d ∷ s) = omega (arith, length-init d s)

init_le : (s : Text) → length (init s) ≤ length s
init_le [] = omega arith
init_le (c ∷ s) = omega (arith, length-init c s)

-- No part is longer than the whole.
abbrev Parts : ℕ → List Text → Type 0
Parts n parts = All (λ p. length p ≤ n) parts

before_comma-Parts :
    (c n : ℕ) (parts : List Text) → Parts n parts → Parts (suc n) (before_comma c parts)
before_comma-Parts c n [] h = (omega arith, tt)
before_comma-Parts c n (p ∷ parts) h =
    (omega (arith, h.0), All-weaken _ _ parts (λ q le. omega (arith, le)) h.1)

split_comma-Parts : (s : Text) → Parts (length s) (split_comma s)
split_comma-Parts [] = (omega arith, tt)
split_comma-Parts (c ∷ s) = elim (Bool-cases (c == b',')) [
  | inl on ↦ rw on (
    omega arith,
    All-weaken _ _ (split_comma s) (λ q le. omega (arith, le)) (split_comma-Parts s),
  )
  | inr off ↦ rw off (before_comma-Parts c (length s) (split_comma s) (split_comma-Parts s))
]

each-total :
    (f : Text → Option Node) (parts : List Text)
    → All (λ p. is_some (f p) ≡ true) parts
    → is_some (each f parts) ≡ true
each-total f [] h = refl
each-total f (p ∷ parts) h = ground (arith, each-total f parts h.1, h.0)

flow-total :
    (f : Text → Option Node) (s : Text)
    → ((p : Text) → length p ≤ length s → is_some (f p) ≡ true)
    → is_some (flow f s) ≡ true
flow-total f [] h = refl
flow-total f (c ∷ s) h =
    let parts = split_comma-Parts (c ∷ s) in
    let found =
      each-total (λ p. f (strip p)) (split_comma (c ∷ s))
        (All-weaken _ _ (split_comma (c ∷ s))
          (λ p le. h (strip p) (omega (arith, le, length-strip p))) parts) in
    ground (arith, found)

inner_shorter : (s : Text) → is_bracketed s ≡ true → suc (length (inner s)) ≤ length s
inner_shorter [] h = cc
inner_shorter (c ∷ s) h = omega (arith, init_le s)

-- With fuel for each character the scalar is read.
scalar-total :
    (reads : Text → Option ℤ) (fuel : ℕ) (s : Text)
    → length s < fuel
    → is_some (scalar reads fuel s) ≡ true
unfolding scalar
scalar-total reads zero s h = absurd (omega arith)
scalar-total reads (suc fuel) s h = elim (Bool-cases (is_bracketed s)) [
  | inl on ↦
      let found = flow-total (scalar reads fuel) (strip (inner s)) (λ p le.
        scalar-total reads fuel p
          (omega (arith, le, length-strip (inner s), inner_shorter s on, h))) in
      ground (arith, found)
  | inr off ↦ ground arith
]

pub scalar_of-total : (reads : Text → Option ℤ) (s : Text) → is_some (scalar_of reads s) ≡ true
unfolding scalar_of
scalar_of-total reads s = scalar-total reads (suc (length s)) s (omega arith)
