-- ===== src/Probes/Fields.antt =====
-- What each field of a probe is known to be once it is through the validation.
use health_mon.Common.{
  ℕ, zero, suc, ◌≤◌, ◌<◌, ◌≡◌, refl, ◌⊎◌, ◌&&◌, Bool, true, false, String, Option, none, some,
  arith, ltb, leb, inl,
}
use mathlib.Core.Path.{subst}
use health_mon.Probes.{
  ℤ, pos, negsuc, Value, ProbeConfigError, Result, ok, err, ◌>>=◌, refuse_if, Python, one, Ensures,
  Ensures-bind, Ensures-if, not_positive, >>=-Ensures, null, flag, number, not_finite, text, items,
  mapping, live, to_float, to_int,
}
use health_mon.Probes.Spec.{
  positive_or, fraction_or, multiplier_or, unless_none, derived_timeout, timeout_of, given_timeout,
  positive_field, count_field, fraction_field, name_or_type,
}

-- What holds of a threshold, where it is given.
abbrev pub WhereGiven : (ℕ → Type 0) → Option ℕ → Type 0
WhereGiven P none = Unit
WhereGiven P (some n) = P n

abbrev pub IsFraction : ℕ → Type 0
IsFraction n = (0 < n) × (n ≤ one)

positive_or-Ensures : (e : ProbeConfigError) (z : ℤ) → Ensures (λ n. 0 < n) (positive_or e z)
positive_or-Ensures e (pos zero) = tt
positive_or-Ensures e (pos (suc n)) = omega arith
positive_or-Ensures e (negsuc n) = tt

positive_or-pos :
    (e : ProbeConfigError) (k : ℕ) → Ensures (λ n. (n ≡ k) × (0 < n)) (positive_or e (pos k))
positive_or-pos e zero = tt
positive_or-pos e (suc k) = (refl, omega arith)

pub positive_field-Ensures :
    (py : Python) (name field : String) (v : Value)
    → Ensures (λ n. 0 < n) (positive_field py name field v)
unfolding positive_field
positive_field-Ensures py name field v =
    Ensures-bind (λ n. 0 < n) (to_float py v) _ (λ z. positive_or-Ensures _ z)

fraction_or-Ensures : (e : ProbeConfigError) (z : ℤ) → Ensures IsFraction (fraction_or e z)
fraction_or-Ensures e (pos n) =
    Ensures-if IsFraction (ltb 0 n && leb n one) _ _ (λ h. ground arith) (λ _. tt)
fraction_or-Ensures e (negsuc n) = tt

pub fraction_field-Ensures :
    (py : Python) (name field : String) (v : Value)
    → Ensures IsFraction (fraction_field py name field v)
unfolding fraction_field
fraction_field-Ensures py name field v =
    Ensures-bind IsFraction (to_float py v) _ (λ z. fraction_or-Ensures _ z)

given-Ensures :
    (P : ℕ → Type 0) (o : Result ℕ) → Ensures P o → Ensures (WhereGiven P) (o >>= λ n. ok (some n))
given-Ensures P (ok n) h = h
given-Ensures P (err e) h = tt

pub unless_none-Ensures :
    (P : ℕ → Type 0) (v : Value) (f : Value → Result ℕ)
    → ((w : Value) → Ensures P (f w))
    → Ensures (WhereGiven P) (unless_none v f)
unless_none-Ensures P null f h = tt
unless_none-Ensures P (flag b) f h = given-Ensures P _ (h (flag b))
unless_none-Ensures P (number z) f h = given-Ensures P _ (h (number z))
unless_none-Ensures P (not_finite z) f h = given-Ensures P _ (h (not_finite z))
unless_none-Ensures P (text s) f h = given-Ensures P _ (h (text s))
unless_none-Ensures P (items xs) f h = given-Ensures P _ (h (items xs))
unless_none-Ensures P (mapping es) f h = given-Ensures P _ (h (mapping es))
unless_none-Ensures P (live s) f h = given-Ensures P _ (h (live s))

pub name_or_type-again :
    (name type : String) → name_or_type (name_or_type name type) type ≡ name_or_type name type
name_or_type-again String.[] String.[] = refl
name_or_type-again String.[] (String.◌∷◌ c s) = refl
name_or_type-again (String.◌∷◌ c s) type = refl

pub count_field-Ensures :
    (py : Python) (name field : String) (v : Value)
    → Ensures (λ n. 0 < n) (count_field py name field v)
unfolding count_field
count_field-Ensures py name field v =
    Ensures-bind (λ n. 0 < n) (to_int py v) _ (λ z. positive_or-Ensures _ z)

pub multiplier_or-Ensures :
    (e : ProbeConfigError) (z : ℤ) → Ensures (λ n. one ≤ n) (multiplier_or e z)
multiplier_or-Ensures e (pos n) =
    Ensures-if (λ k. one ≤ k) (ltb n one) _ _ (λ _. tt) (λ h. ground arith)
multiplier_or-Ensures e (negsuc n) = tt

pub refuse_if-Ensures : (b : Bool) (e : ProbeConfigError) → Ensures (λ _. b ≡ false) (refuse_if b e)
refuse_if-Ensures true e = tt
refuse_if-Ensures false e = refl

-- A derived timeout is inside its interval, but for an interval of one thousandth of a second.
derived_timeout-within :
    (i : ℕ) → 0 < derived_timeout i → (derived_timeout i < i) ⊎ ((derived_timeout i ≡ 1) × (i ≡ 1))
derived_timeout-within i h = grind arith

-- What is known of a timeout before it is compared with the interval.
abbrev pub Timed : ℕ → ℕ × Bool → Type 0
Timed i (t, given) = (0 < t) × (given ≡ false → (t < i) ⊎ ((t ≡ 1) × (i ≡ 1)))

given_timeout-Ensures :
    (py : Python) (name : String) (i : ℕ) (v : Value) → Ensures (Timed i) (given_timeout py name v)
unfolding given_timeout
given_timeout-Ensures py name i v = Ensures-bind (Timed i) (to_float py v) _ (λ z.
    >>=-Ensures (λ n. 0 < n) (Timed i) (positive_or _ z) _ (positive_or-Ensures _ z)
      (λ n p. (p, λ h. ground arith)))

pub timeout_of-Ensures :
    (py : Python) (name : String) (i : ℕ) (v : Value) → Ensures (Timed i) (timeout_of py name i v)
unfolding timeout_of
timeout_of-Ensures py name i null =
    >>=-Ensures (λ n. n ≡ derived_timeout i × 0 < n) (Timed i)
      (positive_or (not_positive name "timeout") (pos (derived_timeout i))) _
      (positive_or-pos _ (derived_timeout i))
      (λ n p. (p.1, λ _. rw p.0 (derived_timeout-within i (subst (λ k. 0 < k) p.0 p.1))))
timeout_of-Ensures py name i (flag b) = given_timeout-Ensures py name i (flag b)
timeout_of-Ensures py name i (number z) = given_timeout-Ensures py name i (number z)
timeout_of-Ensures py name i (not_finite z) = given_timeout-Ensures py name i (not_finite z)
timeout_of-Ensures py name i (text s) = given_timeout-Ensures py name i (text s)
timeout_of-Ensures py name i (items xs) = given_timeout-Ensures py name i (items xs)
timeout_of-Ensures py name i (mapping es) = given_timeout-Ensures py name i (mapping es)
timeout_of-Ensures py name i (live s) = given_timeout-Ensures py name i (live s)

-- The comparison with the interval, which only a given timeout goes through.
pub timeout-within :
    (i : ℕ) (t : ℕ × Bool)
    → Timed i t
    → t.1 && leb i t.0 ≡ false
    → (t.0 < i) ⊎ ((t.0 ≡ 1) × (i ≡ 1))
timeout-within i (t, true) h off = inl (ground arith)
timeout-within i (t, false) h off = h.1 refl

pub ltb-off : (a b : ℕ) → ltb a b ≡ false → b ≤ a
ltb-off a b h = ground arith
