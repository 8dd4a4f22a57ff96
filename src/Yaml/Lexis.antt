-- ===== src/Yaml/Lexis.antt =====
-- The lines that carry meaning: `_strip_comment` and `_significant` of _yaml.py, and the methods of
-- `str` that the reader uses. The document comes as the list of its lines. Which characters are
-- letters of a word is the argument `is_word`.
use health_mon.Common.{
  ℕ, suc, ◌++◌, Bool, true, false, not, ◌&&◌, ◌||◌, Option, none, some, List, [], ◌∷◌, ◌==◌, leb,
  if◌then◌else◌, is_empty, length, any, all,
}
use health_mon.Yaml.{Text, Outcome, done, raised, ◌>>=◌, tabs, unsupported, same_text}

-- str.isspace
abbrev pub is_space : ℕ → Bool
is_space c =
    (leb 9 c && leb c 13)
    || (leb 28 c && leb c 32)
    || c == 133
    || c == 160
    || c == 5760
    || (leb 8192 c && leb c 8202)
    || c == 8232
    || c == 8233
    || c == 8239
    || c == 8287
    || c == 12288

abbrev pub lstrip : Text → Text
lstrip [] = []
lstrip (c ∷ s) = let rest = lstrip s in if is_space c then rest else c ∷ s

abbrev pub rstrip : Text → Text
rstrip [] = []
rstrip (c ∷ s) = let rest = rstrip s in if is_empty rest && is_space c then [] else c ∷ rest

abbrev pub strip : Text → Text
strip s = rstrip (lstrip s)

-- The whitespace that a line begins with.
abbrev pub leading : Text → Text
leading [] = []
leading (c ∷ s) = let rest = leading s in if is_space c then c ∷ rest else []

abbrev pub is_quote : ℕ → Bool
is_quote c = c == b'"' || c == b'\''

abbrev pub is_blank : ℕ → Bool
is_blank c = c == b' ' || c == b'\t'

-- The quote that is open, and whether a `#` would begin a comment here.
abbrev pub strip_comment_from : Option ℕ → Bool → Text → Text
strip_comment_from quote free [] = []
strip_comment_from (some q) free (c ∷ s) =
    let inside = strip_comment_from (some q) (is_blank c) s in
    let outside = strip_comment_from none (is_blank c) s in c ∷ (if c == q then outside else inside)
strip_comment_from none free (c ∷ s) =
    let inside = strip_comment_from (some c) (is_blank c) s in
    let outside = strip_comment_from none (is_blank c) s in
    if is_quote c then c ∷ inside else if c == b'#' && free then [] else c ∷ outside

-- _strip_comment
unfoldable pub strip_comment : Text → Text
strip_comment line = strip_comment_from none true line

-- The words between whitespace.
abbrev pub begin_word : Bool → ℕ → List Text → List Text
begin_word true c words = (c ∷ []) ∷ words
begin_word false c [] = (c ∷ []) ∷ []
begin_word false c (w ∷ words) = (c ∷ w) ∷ words

abbrev pub starts_blank : Text → Bool
starts_blank [] = true
starts_blank (c ∷ _) = is_space c

abbrev pub words : Text → List Text
words [] = []
words (c ∷ s) =
    let rest = words s in if is_space c then rest else begin_word (starts_blank s) c rest

pub record Line : Type 0 where
  pub indent : ℕ
  pub content : Text
  pub number : ℕ

-- `---` and `...`
abbrev pub is_marker : Text → Bool
is_marker s = same_text s (b'-' ∷ b'-' ∷ b'-' ∷ []) || same_text s (b'.' ∷ b'.' ∷ b'.' ∷ [])

module _ (is_word : ℕ → Bool) where
  -- An anchor, an alias, a merge or a block scalar: _UNSUPPORTED
  abbrev pub is_unsupported : Text → Bool
  is_unsupported [] = false
  is_unsupported (c ∷ s) =
      ((c == b'&' || c == b'*') && not (is_empty s) && all is_word s)
      || same_text (c ∷ s) (b'<' ∷ b'<' ∷ b':' ∷ [])
      || same_text (c ∷ s) (b'|' ∷ [])
      || same_text (c ∷ s) (b'>' ∷ [])

  -- What one line adds.
  unfoldable pub significant_line : ℕ → Text → Outcome (List Line)
  unfolding strip_comment
  significant_line number raw =
      let stripped = strip_comment raw in
      if any (λ c. c == b'\t') (leading raw)
      then raised (tabs number)
      else if is_empty (strip stripped) || is_marker (strip stripped)
      then done []
      else if any is_unsupported (words stripped)
      then raised (unsupported number)
      else done (
          record { indent = length (leading stripped); content = strip stripped; number = number }
          ∷ [])

  -- _significant, from the line with the given number on
  unfoldable pub significant : ℕ → List Text → Outcome (List Line)
  unfolding significant_line
  significant number [] = done []
  significant number (raw ∷ rest) =
      let after = significant (suc number) rest in
      significant_line number raw >>= λ here. after >>= λ lines. done (here ++ lines)
