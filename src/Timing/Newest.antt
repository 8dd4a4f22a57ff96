-- ===== src/Timing/Newest.antt =====
-- A window of core/timing.py against the whole history of what was added to it.
use mathlib.Core.List.{append-nil, append_assoc}
use health_mon.Common.{
  ℕ, zero, suc, ◌+◌, ◌-◌, ◌≤◌, ◌<◌, ◌≡◌, refl, ◌⊎◌, inl, inr, true, false, List, [], ◌∷◌, ◌++◌,
  length, length-append, length-drop, drop-append, newest, drop, sum, arith, ltb, ltb→lt,
  Bool-cases,
}
use health_mon.Timing.{Window, new_window, add_sample, push}

module _ {ℓ} {A : Type ℓ} where
  drop_one : (k : ℕ) (xs : List A) → drop 1 (drop k xs) ≡ drop (suc k) xs
  drop_one zero xs = refl
  drop_one (suc k) [] = refl
  drop_one (suc k) (x ∷ xs) = drop_one k xs

sum-append : (xs ys : List ℕ) → sum (xs ++ ys) ≡ sum xs + sum ys
sum-append [] ys = omega arith
sum-append (x ∷ xs) ys = omega (arith, sum-append xs ys)

push_room :
    (maxlen : ℕ) (history : List ℕ) (x : ℕ)
    → length history < maxlen
    → push maxlen (newest maxlen history) x ≡ newest maxlen (history ++ x ∷ [])
unfolding push
push_room maxlen history x h =
    let none_over : length history - maxlen ≡ 0 = omega arith in
    let still : length (history ++ x ∷ []) - maxlen ≡ 0 =
      omega (arith, length-append history (x ∷ [])) in
    let fits : ltb maxlen (length (history ++ x ∷ [])) ≡ false =
      ground (arith, length-append history (x ∷ [])) in
    rw (none_over, still, fits)

push_full :
    (maxlen : ℕ) (history : List ℕ) (x : ℕ)
    → maxlen ≤ length history
    → push maxlen (newest maxlen history) x ≡ newest maxlen (history ++ x ∷ [])
unfolding push
push_full maxlen history x h =
    let over = length history - maxlen in
    let one_more : length (history ++ x ∷ []) - maxlen ≡ suc over =
      omega (arith, length-append history (x ∷ [])) in
    let full : ltb maxlen (length (drop over history ++ x ∷ [])) ≡ true =
      ground (arith, length-append (drop over history) (x ∷ []), length-drop over history) in
    rw (full, one_more, ← drop-append over history (x ∷ []) (omega arith))
      (drop_one over (history ++ x ∷ []))

-- A window after a history of samples, the oldest first.
pub fill : Window → List ℕ → Window
fill w [] = w
fill w (x ∷ rest) = fill (add_sample w x) rest

-- What a window has kept of a history.
abbrev pub Keeps : ℕ → List ℕ → Window → Type 0
Keeps maxlen history w =
    (w.maxlen ≡ maxlen)
    × (w.samples ≡ newest maxlen history)
    × (w.count ≡ length history)
    × (w.total ≡ sum history)

add_sample-Keeps :
    (maxlen : ℕ) (history : List ℕ) (w : Window) (x : ℕ)
    → Keeps maxlen history w
    → Keeps maxlen (history ++ x ∷ []) (add_sample w x)
unfolding add_sample
add_sample-Keeps maxlen history w x (m, s, c, t) = (
  m,
  rw (m, s) (push_newest (Bool-cases (ltb (length history) maxlen))),
  omega (arith, length-append history (x ∷ [])),
  omega (arith, sum-append history (x ∷ [])),
)
  where
    push_newest :
        (ltb (length history) maxlen ≡ true) ⊎ (ltb (length history) maxlen ≡ false)
        → push maxlen (newest maxlen history) x ≡ newest maxlen (history ++ x ∷ [])
    push_newest (inl room) = push_room maxlen history x (ltb→lt _ _ room)
    push_newest (inr full) = push_full maxlen history x (ground arith)

fill-Keeps :
    (maxlen : ℕ) (before rest : List ℕ) (w : Window)
    → Keeps maxlen before w
    → Keeps maxlen (before ++ rest) (fill w rest)
unfolding fill
fill-Keeps maxlen before [] w h = rw append-nil h
fill-Keeps maxlen before (x ∷ rest) w h = rw (← append_assoc before (x ∷ []) rest) (
    fill-Keeps maxlen (before ++ x ∷ []) rest (add_sample w x)
      (add_sample-Keeps maxlen before w x h))

new_window-Keeps : (maxlen : ℕ) → Keeps maxlen [] (new_window maxlen)
unfolding new_window
new_window-Keeps maxlen = (refl, rw (zero_sub maxlen) refl, refl, refl)
  where
    zero_sub : (n : ℕ) → 0 - n ≡ 0
    zero_sub n = omega arith

-- A new window, after any samples: it holds the last `maxlen` of them in order, and counts and sums
-- all of them.
pub window_of_history :
    (maxlen : ℕ) (history : List ℕ)
    → let w = fill (new_window maxlen) history in
      (w.samples ≡ newest maxlen history) × (w.count ≡ length history) × (w.total ≡ sum history)
window_of_history maxlen history =
    let kept = fill-Keeps maxlen [] history (new_window maxlen) (new_window-Keeps maxlen) in
    (kept.1, kept.2, kept.3)
