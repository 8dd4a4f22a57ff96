-- ===== src/Yaml/Scalar.antt =====
-- `_scalar` and `_is_quoted` of _yaml.py. The numbers that `int` and `float` read are the argument
-- `reads`; they are counted in thousandths, and NaN and the infinities are left out. `lower` is
-- written for ASCII letters: no other letter has a lower case that the words compared here contain.
use health_mon.Common.{
  ℕ, zero, suc, ◌+◌, Bool, true, false, ◌&&◌, ◌||◌, Option, none, some, List, [], ◌∷◌, ◌==◌, leb,
  if◌then◌else◌, is_empty, length, map, ◌>>=◌,
}
use health_mon.Probes.{ℤ}
use health_mon.Yaml.{
  Text, Node, Nodes, null, flag, number, text, items, mapping, nil, cons, end, same_text,
}
use health_mon.Yaml.Lexis.{strip, is_quote}

abbrev pub last_of : ℕ → Text → ℕ
last_of c [] = c
last_of c (d ∷ s) = last_of d s

-- text[:-1]
abbrev pub init : Text → Text
init [] = []
init (c ∷ []) = []
init (c ∷ d ∷ s) = c ∷ init (d ∷ s)

-- text[1:-1]
abbrev pub inner : Text → Text
inner [] = []
inner (c ∷ s) = init s

-- _is_quoted
unfoldable pub is_quoted : Text → Bool
is_quoted [] = false
is_quoted (c ∷ []) = false
is_quoted (c ∷ d ∷ s) = c == last_of d s && is_quote c

abbrev pub lower : Text → Text
lower s = map (λ c. if leb 65 c && leb c 90 then c + 32 else c) s

abbrev pub null_word : Text
null_word = b'n' ∷ b'u' ∷ b'l' ∷ b'l' ∷ []

abbrev pub true_word : Text
true_word = b't' ∷ b'r' ∷ b'u' ∷ b'e' ∷ []

abbrev pub false_word : Text
false_word = b'f' ∷ b'a' ∷ b'l' ∷ b's' ∷ b'e' ∷ []

abbrev pub is_null : Text → Bool
is_null s = same_text s null_word || same_text s (b'~' ∷ []) || is_empty s

-- The brackets of a flow list around the text.
abbrev pub is_bracketed : Text → Bool
is_bracketed [] = false
is_bracketed (c ∷ s) = c == b'[' && last_of c s == b']'

-- text.split(",")
abbrev pub before_comma : ℕ → List Text → List Text
before_comma c [] = (c ∷ []) ∷ []
before_comma c (w ∷ parts) = (c ∷ w) ∷ parts

abbrev pub split_comma : Text → List Text
split_comma [] = [] ∷ []
split_comma (c ∷ s) =
    let rest = split_comma s in if c == b',' then [] ∷ rest else before_comma c rest

abbrev pub each : (Text → Option Node) → List Text → Option Nodes
each f [] = some nil
each f (part ∷ parts) = let rest = each f parts in do v ← f part; vs ← rest; some (cons v vs)

abbrev pub flow : (Text → Option Node) → Text → Option Node
flow f [] = some (items nil)
flow f (c ∷ s) = do vs ← each (λ part. f (strip part)) (split_comma (c ∷ s)); some (items vs)

module _ (reads : Text → Option ℤ) where
  abbrev pub number_or_text : Text → Node
  number_or_text s = elim (reads s) [ some n ↦ number n | none ↦ text s ]

  -- _scalar, with fuel for the lists in lists
  unfoldable pub scalar : ℕ → Text → Option Node
  unfolding is_quoted
  scalar zero s = none
  scalar (suc fuel) s =
      if is_quoted s
      then some (text (inner s))
      else if is_null (lower s)
      then some null
      else if same_text (lower s) true_word
      then some (flag true)
      else if same_text (lower s) false_word
      then some (flag false)
      else if same_text s (b'{' ∷ b'}' ∷ [])
      then some (mapping end)
      else elim (is_bracketed s) [
        | true ↦ flow (scalar fuel) (strip (inner s))
        | false ↦ some (number_or_text s)
      ]

  unfoldable pub scalar_of : Text → Option Node
  unfolding scalar
  scalar_of s = scalar (suc (length s)) s
