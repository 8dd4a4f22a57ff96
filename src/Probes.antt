-- ===== src/Probes.antt =====
-- probes/spec.py and probes/factory.py: probe definitions, validated when they are wired up. Here
-- are the values that a configuration holds, what a definition may be refused for, and Python's
-- conversions of such values. A finite number is counted in thousandths, so it has three decimals at
-- most. NaN and the infinities can be read and stored, but what the program computes with one is not
-- modelled, nor with a `type` or a `name` of a probe that is neither a text nor empty: there the model
-- ends, with the failure `unmodelled`.
pub mod Spec
pub mod Definition
pub mod Context
pub mod Factory
pub mod Fields
pub mod Bounds
pub mod Acceptable
pub mod Registered
pub mod Tame
pub mod Lenient
mod Examples
use health_mon.Common.{
  ℕ, zero, suc, ◌/◌, Bool, true, false, not, String, Option, none, some, if◌then◌else◌, ◌==◌, ◌≡◌,
  refl,
}
use mathlib.Core.Path.{subst}

pub data ℤ : Type 0 where
  pos : ℕ → ℤ
  negsuc : ℕ → ℤ

-- The floats that are no finite number, and what `float` reads from a text.
pub data Special : Type 0 where
  infinity minus_infinity nan : Special

pub data Float : Type 0 where
  finite : ℤ → Float
  special : Special → Float

-- What a configuration file can hold, and the live objects that it refers to.
mutual
  pub data Value : Type 0 where
    null : Value
    flag : Bool → Value
    number : ℤ → Value
    not_finite : Special → Value
    text : String → Value
    items : Items → Value
    mapping : Entries → Value
    live : String → Value

  pub data Items : Type 0 where
    nil : Items
    cons : Value → Items → Items

  pub data Entries : Type 0 where
    end : Entries
    entry : String → Value → Entries → Entries

-- ProbeConfigError, by the place that raises it, with the name of the probe and of the field.
pub data ProbeConfigError : Type 0 where
  missing_type not_a_mapping : ProbeConfigError
  not_positive below_one is_negative not_a_fraction : String → String → ProbeConfigError
  shrinking_backoff backoff_inverted pool_inverted latency_inverted : String → ProbeConfigError
  overlap : String → ProbeConfigError
  not_buildable : String → ProbeConfigError
  missing_reference : String → String → ProbeConfigError
  unknown_type : String → String → ProbeConfigError
  built_nothing : String → ProbeConfigError
  refused_by_builder : String → ProbeConfigError

-- An exception, where `value_error` is one that is not a ProbeConfigError; or the end of the model.
pub data Failure : Type 0 where
  config : ProbeConfigError → Failure
  type_error value_error other_error unmodelled : Failure

pub data Result {ℓ} (A : Type ℓ) : Type ℓ where
  ok : A → Result A
  err : Failure → Result A

infixl 5 ◌>>=◌
abbrev pub ◌>>=◌ {ℓ μ} : {V : Type ℓ} {W : Type μ} → Result V → (V → Result W) → Result W
err failure >>= next = err failure
ok v >>= next = next v

abbrev pub refuse_if : Bool → ProbeConfigError → Result (Unit {0})
refuse_if true e = err (config e)
refuse_if false e = ok tt

infixl 5 ◌>>◌
abbrev pub ◌>>◌ {μ} : {W : Type μ} → Result (Unit {0}) → Result W → Result W
check >> next = check >>= λ _. next

-- What holds of the value, where there is one.
abbrev pub Ensures {ℓ κ} : {A : Type ℓ} → (A → Type κ) → Result A → Type κ
Ensures P (ok a) = P a
Ensures P (err e) = Unit

pub >>=-Ensures {ℓ κ μ ν} :
    {A : Type ℓ} {B : Type κ} (Q : A → Type μ) (P : B → Type ν) (o : Result A) (f : A → Result B)
    → Ensures Q o
    → ((a : A) → Q a → Ensures P (f a))
    → Ensures P (o >>= f)
>>=-Ensures Q P (ok a) f q h = h a q
>>=-Ensures Q P (err e) f q h = tt

pub Ensures-bind {ℓ κ μ} :
    {A : Type ℓ} {B : Type κ} (P : B → Type μ) (o : Result A) (f : A → Result B)
    → ((a : A) → Ensures P (f a))
    → Ensures P (o >>= f)
Ensures-bind P (ok a) f h = h a
Ensures-bind P (err e) f h = tt

pub Ensures-if {ℓ κ} :
    {A : Type ℓ} (P : A → Type κ) (b : Bool) (x y : Result A)
    → (b ≡ true → Ensures P x)
    → (b ≡ false → Ensures P y)
    → Ensures P (if b then x else y)
Ensures-if P true x y hx hy = hx refl
Ensures-if P false x y hx hy = hy refl

ok_inj {ℓ} : {A : Type ℓ} {a b : A} → ok a ≡ ok b → a ≡ b
ok_inj h = cc

pub Ensures-ok {ℓ κ} :
    {A : Type ℓ} (P : A → Type κ) (o : Result A) {a : A} → o ≡ ok a → Ensures P o → P a
Ensures-ok P (ok b) e h = subst P (ok_inj e) h
Ensures-ok P (err _) e h = cc

-- What the interpreter makes of a text: `float(s)` and `int(s)`, where it does not raise.
pub record Python : Type 0 where
  pub float_of : String → Option Float
  pub int_of : String → Option ℤ

abbrev pub one : ℕ
one = 1000

of_flag : Bool → ℤ
of_flag true = pos one
of_flag false = pos 0

parsed : Option ℤ → Result ℤ
parsed none = err value_error
parsed (some z) = ok z

parsed_float : Option Float → Result ℤ
parsed_float none = err value_error
parsed_float (some (finite z)) = ok z
parsed_float (some (special _)) = err unmodelled

-- float(value)
unfoldable pub to_float : Python → Value → Result ℤ
unfolding of_flag parsed_float
to_float py (number z) = ok z
to_float py (not_finite _) = err unmodelled
to_float py (flag b) = ok (of_flag b)
to_float py (text s) = parsed_float (py.float_of s)
to_float py _ = err type_error

-- int of a number of thousandths: towards zero
whole : ℤ → ℤ
whole (pos n) = pos (n / one)
whole (negsuc n) = if_zero (suc n / one)
  where
    if_zero : ℕ → ℤ
    if_zero zero = pos 0
    if_zero (suc k) = negsuc k

-- int(value), a count and not in thousandths
unfoldable pub to_int : Python → Value → Result ℤ
unfolding of_flag parsed whole
to_int py (number z) = ok (whole z)
to_int py (not_finite _) = err unmodelled
to_int py (flag b) = ok (whole (of_flag b))
to_int py (text s) = parsed (py.int_of s)
to_int py _ = err type_error

abbrev is_empty : String → Bool
is_empty String.[] = true
is_empty (String.◌∷◌ c s) = false

-- bool(value)
unfoldable pub truthy : Value → Bool
truthy null = false
truthy (flag b) = b
truthy (number (pos n)) = not (n == 0)
truthy (number (negsuc n)) = true
truthy (not_finite _) = true
truthy (text s) = not (is_empty s)
truthy (items nil) = false
truthy (items (cons _ _)) = true
truthy (mapping end) = false
truthy (mapping (entry _ _ _)) = true
truthy (live _) = true
