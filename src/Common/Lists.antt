-- ===== src/Common/Lists.antt =====
-- Lists measured by native numbers, and predicates on every or on some element.
use Prim.Native.Nat.{ℕ, zero, suc, ◌+◌, ◌-◌, ◌≤◌}
use mathlib.Core.Path.{◌≡◌, refl, sym, ap, ◌∙◌}
use mathlib.Core.Bool.{Bool, true, false, ◌&&◌, ◌||◌}
use mathlib.Core.List.{List, [], ◌∷◌, ◌++◌}
use native.Mathlib.Omega.{arith}
use mathlib.Core.Logic.{◌⊎◌, inl, inr}
use health_mon.Common.Tests.{if◌then◌else◌, Bool-cases}

module _ {ℓ} {A : Type ℓ} where
  abbrev pub length : List A → ℕ
  length [] = 0
  length (_ ∷ xs) = suc (length xs)

  pub length-append : (xs ys : List A) → length (xs ++ ys) ≡ length xs + length ys
  length-append [] ys = omega arith
  length-append (x ∷ xs) ys = omega (arith, length-append xs ys)

  abbrev pub is_empty : List A → Bool
  is_empty [] = true
  is_empty (_ ∷ _) = false

  abbrev pub filter : (A → Bool) → List A → List A
  filter p [] = []
  filter p (x ∷ xs) = let rest = filter p xs in if p x then x ∷ rest else rest

  -- Python's `any` and `all` over a generator.
  abbrev pub any : (A → Bool) → List A → Bool
  any p [] = false
  any p (x ∷ xs) = p x || any p xs

  abbrev pub all : (A → Bool) → List A → Bool
  all p [] = true
  all p (x ∷ xs) = p x && all p xs

module _ {ℓ κ} {A : Type ℓ} where
  abbrev pub All : (A → Type κ) → List A → Type κ
  All P [] = Unit
  All P (x ∷ xs) = P x × All P xs

  pub All-weaken : (P Q : A → Type κ) (xs : List A) → ((x : A) → P x → Q x) → All P xs → All Q xs
  All-weaken P Q [] f h = tt
  All-weaken P Q (x ∷ xs) f h = (f x h.0, All-weaken P Q xs f h.1)

  pub All-filter_cons :
      (P : A → Type κ) (p : A → Bool) (x : A) (xs : List A)
      → (p x ≡ true → P x)
      → All P (filter p xs)
      → All P (filter p (x ∷ xs))
  All-filter_cons P p x xs here rest = elim (Bool-cases (p x)) [
    | inl on ↦ rw on (here on, rest)
    | inr off ↦ rw off rest
  ]

module _ {ℓ} {A : Type ℓ} where
  abbrev pub get_or : List A → ℕ → A → A
  get_or [] i d = d
  get_or (x ∷ xs) zero d = x
  get_or (x ∷ xs) (suc i) d = get_or xs i d

  abbrev pub drop : ℕ → List A → List A
  drop zero xs = xs
  drop (suc n) [] = []
  drop (suc n) (x ∷ xs) = drop n xs

  pub drop-append : (k : ℕ) (xs ys : List A) → k ≤ length xs → drop k (xs ++ ys) ≡ drop k xs ++ ys
  drop-append zero xs ys h = refl
  drop-append (suc k) [] ys h = absurd (omega arith)
  drop-append (suc k) (x ∷ xs) ys h = drop-append k xs ys (omega arith)

  pub length-drop : (k : ℕ) (xs : List A) → length (drop k xs) ≡ length xs - k
  length-drop zero xs = omega arith
  length-drop (suc k) [] = omega arith
  length-drop (suc k) (x ∷ xs) = omega (arith, length-drop k xs)

  drop_nil : (n : ℕ) → (let none : List A = [] in drop n none ≡ none)
  drop_nil zero = refl
  drop_nil (suc n) = refl

  drop-drop : (j k : ℕ) (xs : List A) → drop j (drop k xs) ≡ drop (k + j) xs
  drop-drop j zero xs = ap (λ n. drop n xs) (omega arith)
  drop-drop j (suc k) [] = drop_nil j ∙ sym (drop_nil (suc k + j))
  drop-drop j (suc k) (x ∷ xs) =
      let later : suc (k + j) ≡ suc k + j = omega arith in
      drop-drop j k xs ∙ ap (λ n. drop n (x ∷ xs)) later

  -- The last n elements.
  abbrev pub newest : ℕ → List A → List A
  newest n xs = drop (length xs - n) xs

  -- What is cut off once does not come back.
  pub newest-append : (n : ℕ) (xs ys : List A) → newest n (newest n xs ++ ys) ≡ newest n (xs ++ ys)
  newest-append n xs ys =
      let k = length xs - n in
      let before : length (drop k xs ++ ys) ≡ length xs - k + length ys =
        length-append (drop k xs) ys ∙ ap (λ l. l + length ys) (length-drop k xs) in
      let whole : length (xs ++ ys) ≡ length xs + length ys = length-append xs ys in
      ap (drop (length (drop k xs ++ ys) - n)) (sym (drop-append k xs ys (omega arith)))
      ∙ drop-drop (length (drop k xs ++ ys) - n) k (xs ++ ys)
      ∙ ap (λ l. drop l (xs ++ ys)) (omega (arith, before, whole))

abbrev pub sum : List ℕ → ℕ
sum [] = 0
sum (x ∷ xs) = x + sum xs

module _ {ℓ} {A : Type ℓ} where
  abbrev pub AnyOf : (A → Type 0) → List A → Type 0
  AnyOf P [] = ⊥
  AnyOf P (x ∷ xs) = P x ⊎ AnyOf P xs
