-- ===== src/Yaml/Quotes.antt =====
-- What the reader makes of the texts that the printer writes.
use health_mon.Common.{
  ℕ, Bool, true, false, ◌&&◌, ◌≡◌, refl, ap, ◌∙◌, Option, some, [], ◌∷◌, ◌++◌, ◌==◌, if◌then◌else◌,
  if_off, is_empty, any, arith,
}
use health_mon.Probes.{ℤ}
use health_mon.Yaml.{Text, text}
use health_mon.Yaml.Lexis.{strip, rstrip, is_space, is_quote}
use health_mon.Yaml.Scalar.{scalar, scalar_of, is_quoted, last_of, init}
use health_mon.Yaml.Parser.{partition, has_colon}
use health_mon.Yaml.Render.{quoted}

abbrev closing : Text → Text
closing s = s ++ b'"' ∷ []

is_empty-closing : (s : Text) → is_empty (closing s) ≡ false
is_empty-closing [] = refl
is_empty-closing (_ ∷ _) = refl

rstrip-closing : (s : Text) → rstrip (closing s) ≡ closing s
rstrip-closing [] = refl
rstrip-closing (c ∷ s) =
    ap (λ r. if is_empty r && is_space c then [] else c ∷ r) (rstrip-closing s)
    ∙ if_off [] (c ∷ closing s) (ap (λ e. e && is_space c) (is_empty-closing s))

pub strip-quoted : (s : Text) → strip (quoted s) ≡ quoted s
strip-quoted s = rstrip-closing (b'"' ∷ s)

last_of-closing : (c : ℕ) (s : Text) → last_of c (closing s) ≡ b'"'
last_of-closing c [] = refl
last_of-closing c (d ∷ s) = last_of-closing d s

init-closing : (s : Text) → init (closing s) ≡ s
init-closing [] = refl
init-closing (c ∷ []) = refl
init-closing (c ∷ d ∷ s) = ap (λ r. c ∷ r) (init-closing (d ∷ s))

pub quoted-is_quoted : (s : Text) → is_quoted (quoted s) ≡ true
unfolding is_quoted
quoted-is_quoted [] = refl
quoted-is_quoted (d ∷ s) = ap (λ c. b'"' == c && is_quote b'"') (last_of-closing d s)

pub scalar_of-quoted :
    (reads : Text → Option ℤ) (s : Text) → scalar_of reads (quoted s) ≡ some (text s)
unfolding scalar_of scalar
scalar_of-quoted reads s = rw (quoted-is_quoted s, init-closing s) refl

any-append :
    (p : ℕ → Bool) (s t : Text) → any p s ≡ false → any p t ≡ false → any p (s ++ t) ≡ false
any-append p [] t h k = k
any-append p (c ∷ s) t h k = ground (arith, any-append p s t)

pub partition-append : (s t : Text) → has_colon s ≡ false → partition (s ++ b':' ∷ t) ≡ some (s, t)
partition-append [] t h = refl
partition-append (c ∷ s) t h = ground (arith, partition-append s t)

-- A quoted key ends at the colon that follows it.
pub partition-quoted :
    (k t : Text) → has_colon k ≡ false → partition (quoted k ++ b':' ∷ t) ≡ some (quoted k, t)
partition-quoted k t h =
    partition-append (quoted k) t (any-append (λ c. c == b':') k (b'"' ∷ []) h refl)
