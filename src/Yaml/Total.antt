-- ===== src/Yaml/Total.antt =====
-- The reader of _yaml.py reads or refuses every document.
use health_mon.Common.{ℕ, suc, ◌+◌, ◌*◌, Bool, Option, List, [], ◌∷◌, ◌++◌, length, arith}
use health_mon.Probes.{ℤ}
use health_mon.Yaml.{Text, Node, Outcome, done, raised, out_of_fuel, ◌>>=◌}
use health_mon.Yaml.Lexis.{Line, significant, significant_line}
use health_mon.Yaml.Fuel.{Within, parse-Within}
use health_mon.Yaml.Parser.{block, Parsed, parse, finished, load_lines, safe_load}

-- A value or an error.
abbrev pub Ends {ℓ} : {A : Type ℓ} → Outcome A → Type 0
Ends (done _) = Unit
Ends (raised _) = Unit
Ends out_of_fuel = ⊥

Ends-bind {ℓ κ} :
    {A : Type ℓ} {B : Type κ} (o : Outcome A) (k : A → Outcome B)
    → Ends o
    → ((a : A) → Ends (k a))
    → Ends (o >>= k)
Ends-bind (done a) k h later = later a
Ends-bind (raised e) k h later = tt
Ends-bind out_of_fuel k h later = absurd h

Within-Ends : (n : ℕ) (o : Parsed) → Within n o → Ends o
Within-Ends n (done r) h = tt
Within-Ends n (raised e) h = tt
Within-Ends n out_of_fuel h = absurd h

significant_line-Ends :
    (is_word : ℕ → Bool) (at : ℕ) (raw : Text) → Ends (significant_line is_word at raw)
unfolding significant_line
significant_line-Ends is_word at raw = ground arith

significant-Ends :
    (is_word : ℕ → Bool) (at : ℕ) (lines : List Text) → Ends (significant is_word at lines)
unfolding significant
significant-Ends is_word at [] = tt
significant-Ends is_word at (raw ∷ rest) =
    Ends-bind (significant_line is_word at raw) _ (significant_line-Ends is_word at raw) (λ here.
      Ends-bind (significant is_word (suc at) rest) (λ lines. done (here ++ lines))
        (significant-Ends is_word (suc at) rest) (λ lines. tt))

finished-Ends :
    (reads : Text → Option ℤ) (v : Node) (rest : List Line) → Ends (finished reads v rest)
unfolding finished
finished-Ends reads v [] = tt
finished-Ends reads v (l ∷ _) = tt

load_lines-Ends : (reads : Text → Option ℤ) (lines : List Line) → Ends (load_lines reads lines)
unfolding load_lines
load_lines-Ends reads [] = tt
load_lines-Ends reads (l ∷ rest) =
    let fuel = 3 * length (l ∷ rest) + 3 in
    let o = parse reads fuel (block (l ∷ rest) l.indent) in
    Ends-bind o (λ r. finished reads r.0 r.1)
      (Within-Ends (length (l ∷ rest)) o
        (parse-Within reads fuel (block (l ∷ rest) l.indent) (omega arith)))
      (λ r. finished-Ends reads r.0 r.1)

-- Every document is read or refused: for any lines, and whatever the interpreter takes for a number,
-- the reader returns a value or raises, and never runs out of the fuel that stands for its loops
-- and its recursion.
pub safe_load-Ends :
    (reads : Text → Option ℤ) (is_word : ℕ → Bool) (lines : List Text)
    → Ends (safe_load reads is_word lines)
unfolding safe_load
safe_load-Ends reads is_word lines =
    Ends-bind (significant is_word 1 lines) (load_lines reads) (significant-Ends is_word 1 lines)
      (load_lines-Ends reads)
