-- ===== src/Timing/Sorted.antt =====
-- `sorted`: an ascending permutation of its argument.
use mathlib.Core.List.{Perm}
use mathlib.Core.List.Perm
use health_mon.Common.{
  ℕ, zero, suc, ◌≤◌, ◌<◌, inl, inr, List, [], ◌∷◌, All, length, get_or, arith, leb, leb→le,
  Bool-cases,
}
use health_mon.Timing.{sorted, insert_sorted, greatest}

abbrev pub AtLeast : ℕ → List ℕ → Type 0
AtLeast x ys = All (λ y. x ≤ y) ys

abbrev pub IsAscending : List ℕ → Type 0
IsAscending [] = Unit
IsAscending (x ∷ xs) = AtLeast x xs × IsAscending xs

AtLeast-trans : (x y : ℕ) (ys : List ℕ) → x ≤ y → AtLeast y ys → AtLeast x ys
AtLeast-trans x y [] le h = tt
AtLeast-trans x y (z ∷ zs) le h = (omega arith, AtLeast-trans x y zs le h.1)

AtLeast-insert_sorted :
    (y x : ℕ) (ys : List ℕ) → y ≤ x → AtLeast y ys → AtLeast y (insert_sorted x ys)
unfolding insert_sorted
AtLeast-insert_sorted y x [] le h = (le, tt)
AtLeast-insert_sorted y x (z ∷ zs) le h = elim (Bool-cases (leb x z)) [
  | inl before ↦ rw before (le, h)
  | inr after ↦ rw after (h.0, AtLeast-insert_sorted y x zs le h.1)
]

insert_sorted-IsAscending :
    (x : ℕ) (ys : List ℕ) → IsAscending ys → IsAscending (insert_sorted x ys)
unfolding insert_sorted
insert_sorted-IsAscending x [] h = (tt, tt)
insert_sorted-IsAscending x (y ∷ ys) h = elim (Bool-cases (leb x y)) [
  | inl before ↦
      let le : x ≤ y = leb→le x y before in rw before ((le, AtLeast-trans x y ys le h.0), h)
  | inr after ↦
      let le : y ≤ x = ground arith in
      rw after (AtLeast-insert_sorted y x ys le h.0, insert_sorted-IsAscending x ys h.1)
]

pub sorted-IsAscending : (xs : List ℕ) → IsAscending (sorted xs)
unfolding sorted
sorted-IsAscending [] = tt
sorted-IsAscending (x ∷ xs) = insert_sorted-IsAscending x (sorted xs) (sorted-IsAscending xs)

insert_sorted-perm : (x : ℕ) (ys : List ℕ) → Perm (insert_sorted x ys) (x ∷ ys)
unfolding insert_sorted
insert_sorted-perm x [] = Perm.refl (x ∷ [])
insert_sorted-perm x (y ∷ ys) = elim (Bool-cases (leb x y)) [
  | inl before ↦ rw before (Perm.refl (x ∷ y ∷ ys))
  | inr after ↦ rw after (Perm.trans (Perm.cons y (insert_sorted-perm x ys)) (Perm.swap x y ys))
]

pub sorted-perm : (xs : List ℕ) → Perm (sorted xs) xs
unfolding sorted
sorted-perm [] = Perm.refl []
sorted-perm (x ∷ xs) = Perm.trans (insert_sorted-perm x (sorted xs)) (Perm.cons x (sorted-perm xs))

get_or-AtLeast : (x : ℕ) (ys : List ℕ) (j : ℕ) → AtLeast x ys → j < length ys → x ≤ get_or ys j 0
get_or-AtLeast x [] j h lt = absurd (omega arith)
get_or-AtLeast x (y ∷ ys) zero h lt = h.0
get_or-AtLeast x (y ∷ ys) (suc j) h lt = get_or-AtLeast x ys j h.1 (omega arith)

-- In an ascending list a later index has no smaller element.
pub get_or_mono :
    (xs : List ℕ) (i j : ℕ) → IsAscending xs → i ≤ j → j < length xs → get_or xs i 0 ≤ get_or xs j 0
get_or_mono [] i j h le lt = absurd (omega arith)
get_or_mono (x ∷ xs) zero zero h le lt = omega arith
get_or_mono (x ∷ xs) zero (suc j) h le lt = get_or-AtLeast x xs j h.0 (omega arith)
get_or_mono (x ∷ xs) (suc i) zero h le lt = absurd (omega arith)
get_or_mono (x ∷ xs) (suc i) (suc j) h le lt = get_or_mono xs i j h.1 (omega arith) (omega arith)

pub get_or-le-greatest : (xs : List ℕ) (i : ℕ) → get_or xs i 0 ≤ greatest xs
unfolding greatest
get_or-le-greatest [] i = omega arith
get_or-le-greatest (x ∷ xs) zero = omega arith
get_or-le-greatest (x ∷ xs) (suc i) = omega (arith, get_or-le-greatest xs i)
