-- ===== src/Yaml/Fuel.antt =====
-- The fuel of `parse` is enough: each of the three parsers takes a line before it starts over, and
-- leaves no more lines than it was given.
use health_mon.Common.{
  ℕ, zero, suc, ◌+◌, ◌*◌, ◌≤◌, Bool, true, false, not, ◌&&◌, ◌||◌, ◌≡◌, refl, Option, none, some,
  List, [], ◌∷◌, ◌==◌, ltb, is_some, length, Bool-cases, inl, inr, arith, drop,
}
use health_mon.Probes.{ℤ}
use health_mon.Yaml.{
  Text, Node, Nodes, Fields, null, flag, number, text, items, mapping, nil, end, done, raised,
  out_of_fuel, ◌>>=◌, put, append_node, set_field,
}
use health_mon.Yaml.Lexis.{Line, strip}
use health_mon.Yaml.Scalar.{scalar_of, is_quoted}
use health_mon.Yaml.Words.{scalar_of-total}
use health_mon.Yaml.Parser.{
  Task, block, map, list, Parsed, known, value_below, map_value, map_line, map_step, item_below,
  inline_map, item_value, list_step, block_step, step, parse, deeper, not_deeper, starts_dash,
  is_item, partition, has_colon,
}

-- A result, with at most `n` lines left, or an error.
abbrev pub Within : ℕ → Parsed → Type 0
Within n (done r) = length r.1 ≤ n
Within n (raised e) = Unit
Within n out_of_fuel = ⊥

abbrev pub lines_of : Task → List Line
lines_of (block lines _) = lines
lines_of (map lines _ _) = lines
lines_of (list lines _ _) = lines

-- How much fuel a task takes.
abbrev pub rank : Task → ℕ
rank (block lines _) = 3 * length lines + 3
rank (list lines _ _) = 3 * length lines + 2
rank (map lines _ _) = 3 * length lines + 1

Within-weaken : (m n : ℕ) (o : Parsed) → m ≤ n → Within m o → Within n o
Within-weaken m n (done r) le h = omega (arith, le, h)
Within-weaken m n (raised e) le h = tt
Within-weaken m n out_of_fuel le h = absurd h

Within-bind :
    (m n : ℕ) (o : Parsed) (k : Node × List Line → Parsed)
    → Within m o
    → ((r : Node × List Line) → length r.1 ≤ m → Within n (k r))
    → Within n (o >>= k)
Within-bind m n (done r) k h later = later r h
Within-bind m n (raised e) k h later = tt
Within-bind m n out_of_fuel k h later = absurd h

known-Within :
    (n : ℕ) (o : Option Node) (k : Node → Parsed)
    → is_some o ≡ true
    → ((v : Node) → Within n (k v))
    → Within n (known o >>= k)
known-Within n none k h later = cc
known-Within n (some v) k h later = later v

put-Within :
    (n : ℕ) (key v : Node) (out : Fields) (k : Fields → Parsed)
    → ((fields : Fields) → Within n (k fields))
    → Within n (put key v out >>= k)
put-Within n null v out k later = later (set_field null v out)
put-Within n (flag b) v out k later = later (set_field (flag b) v out)
put-Within n (number a) v out k later = later (set_field (number a) v out)
put-Within n (text s) v out k later = later (set_field (text s) v out)
put-Within n (items _) v out k later = tt
put-Within n (mapping _) v out k later = tt

Within-elim :
    (n : ℕ) (b : Bool) (x y : Parsed)
    → (b ≡ true → Within n x)
    → (b ≡ false → Within n y)
    → Within n (elim b [ true ↦ x | false ↦ y ])
Within-elim n true x y hx hy = hx refl
Within-elim n false x y hx hy = hy refl

length-deeper : (indent : ℕ) (rest : List Line) → length (deeper indent rest) ≤ length rest
length-deeper indent [] = omega arith
length-deeper indent (l ∷ rest) = elim (Bool-cases (ltb indent l.indent)) [
  | inl on ↦ rw on (omega (arith, length-deeper indent rest))
  | inr off ↦ rw off (omega arith)
]

length-not_deeper : (indent : ℕ) (rest : List Line) → length (not_deeper indent rest) ≤ length rest
length-not_deeper indent [] = omega arith
length-not_deeper indent (l ∷ rest) = elim (Bool-cases (ltb indent l.indent)) [
  | inl on ↦ rw on (omega (arith, length-not_deeper indent rest))
  | inr off ↦ rw off (omega arith)
]

-- A parser that gets through every task of a rank up to `fuel`.
abbrev Serves : ℕ → (Task → Parsed) → Type 0
Serves fuel go = (t : Task) → rank t ≤ fuel → Within (length (lines_of t)) (go t)

module _ (reads : Text → Option ℤ) (go : Task → Parsed) (fuel : ℕ) (serves : Serves fuel go) where
  value_below-Within :
      (rest : List Line) (indent : ℕ)
      → 3 * length rest + 3 ≤ fuel
      → Within (length rest) (value_below reads go rest indent)
  unfolding value_below
  value_below-Within [] indent h = omega arith
  value_below-Within (l ∷ rest) indent h =
      Within-elim (length (l ∷ rest)) (ltb indent l.indent) _ _
        (λ _. serves (block (l ∷ rest) l.indent) h)
        (λ _.
          Within-elim (length (l ∷ rest)) (l.indent == indent && starts_dash l.content) _ _
            (λ _. serves (list (l ∷ rest) indent nil) (omega (arith, h))) (λ _. omega arith))

  map_value-Within :
      (s : Text) (rest : List Line) (indent : ℕ)
      → 3 * length rest + 3 ≤ fuel
      → Within (length rest) (map_value reads go s rest indent)
  unfolding map_value
  map_value-Within [] rest indent h = value_below-Within rest indent h
  map_value-Within (c ∷ s) rest indent h =
      known-Within (length rest) (scalar_of reads (c ∷ s)) (λ v. done (v, rest))
        (scalar_of-total reads (c ∷ s)) (λ v. omega arith)

  map_line-Within :
      (split : Option (Text × Text)) (at : ℕ) (rest : List Line) (indent : ℕ) (out : Fields)
      → 3 * length rest + 3 ≤ fuel
      → Within (length rest) (map_line reads go split at rest indent out)
  unfolding map_line
  map_line-Within none at rest indent out h = tt
  map_line-Within (some (key, inline)) at rest indent out h =
      known-Within (length rest) (scalar_of reads (strip key)) _ (scalar_of-total reads (strip key))
        (λ k.
          Within-bind (length rest) (length rest) (map_value reads go (strip inline) rest indent) _
            (map_value-Within (strip inline) rest indent h)
            (λ r le.
              put-Within (length rest) k r.0 out (λ fields. go (map r.1 indent fields))
                (λ fields.
                  Within-weaken (length r.1) (length rest) (go (map r.1 indent fields)) le
                    (serves (map r.1 indent fields) (omega (arith, le, h))))))

  map_step-Within :
      (lines : List Line) (indent : ℕ) (out : Fields)
      → 3 * length lines ≤ fuel
      → Within (length lines) (map_step reads go lines indent out)
  unfolding map_step
  map_step-Within [] indent out h = omega arith
  map_step-Within (l ∷ rest) indent out h =
      Within-elim (length (l ∷ rest)) (ltb l.indent indent) _ _ (λ _. omega arith)
        (λ _.
          Within-elim (length (l ∷ rest)) (ltb indent l.indent) _ _ (λ _. tt)
            (λ _.
              Within-weaken (length rest) (length (l ∷ rest))
                (map_line reads go (partition l.content) l.number rest indent out) (omega arith)
                (map_line-Within (partition l.content) l.number rest indent out
                  (omega (arith, h)))))

  item_below-Within :
      (rest : List Line) (indent : ℕ)
      → 3 * length rest + 3 ≤ fuel
      → Within (length rest) (item_below reads go rest indent)
  unfolding item_below
  item_below-Within [] indent h = omega arith
  item_below-Within (l ∷ rest) indent h =
      Within-elim (length (l ∷ rest)) (ltb indent l.indent) _ _
        (λ _. serves (block (l ∷ rest) l.indent) h) (λ _. omega arith)

  inline_map-Within :
      (s : Text) (l : Line) (rest : List Line) (indent : ℕ)
      → 3 * length rest + 4 ≤ fuel
      → Within (length rest) (inline_map reads go s l rest indent)
  unfolding inline_map
  inline_map-Within s l rest indent h =
      let own = record l { indent = l.indent + 2; content = s } ∷ deeper indent rest in
      Within-bind (length own) (length rest) (go (map own (l.indent + 2) end))
        (λ r. done (r.0, not_deeper indent rest))
        (serves (map own (l.indent + 2) end) (omega (arith, h, length-deeper indent rest)))
        (λ r le. length-not_deeper indent rest)

  item_value-Within :
      (s : Text) (l : Line) (rest : List Line) (indent : ℕ)
      → 3 * length rest + 4 ≤ fuel
      → Within (length rest) (item_value reads go s l rest indent)
  unfolding item_value
  item_value-Within [] l rest indent h = item_below-Within rest indent (omega (arith, h))
  item_value-Within (c ∷ s) l rest indent h =
      Within-elim (length rest) (has_colon (c ∷ s) && not (is_quoted (c ∷ s))) _ _
        (λ _. inline_map-Within (c ∷ s) l rest indent h)
        (λ _.
          known-Within (length rest) (scalar_of reads (c ∷ s)) (λ v. done (v, rest))
            (scalar_of-total reads (c ∷ s)) (λ v. omega arith))

  list_step-Within :
      (lines : List Line) (indent : ℕ) (out : Nodes)
      → 3 * length lines + 1 ≤ fuel
      → Within (length lines) (list_step reads go lines indent out)
  unfolding list_step
  list_step-Within [] indent out h = omega arith
  list_step-Within (l ∷ rest) indent out h =
      Within-elim (length (l ∷ rest)) (ltb l.indent indent || not (is_item l.content)) _ _
        (λ _. omega arith)
        (λ _.
          Within-elim (length (l ∷ rest)) (ltb indent l.indent) _ _ (λ _. tt)
            (λ _.
              Within-bind (length rest) (length (l ∷ rest))
                (item_value reads go (strip (drop 1 l.content)) l rest indent)
                (λ r. go (list r.1 indent (append_node out r.0)))
                (item_value-Within (strip (drop 1 l.content)) l rest indent (omega (arith, h)))
                (λ r le.
                  Within-weaken (length r.1) (length (l ∷ rest))
                    (go (list r.1 indent (append_node out r.0))) (omega (arith, le))
                    (serves (list r.1 indent (append_node out r.0)) (omega (arith, le, h))))))

  block_step-Within :
      (lines : List Line) (indent : ℕ)
      → 3 * length lines + 2 ≤ fuel
      → Within (length lines) (block_step reads go lines indent)
  unfolding block_step
  block_step-Within [] indent h = omega arith
  block_step-Within (l ∷ rest) indent h =
      Within-elim (length (l ∷ rest)) (is_item l.content) _ _
        (λ _. serves (list (l ∷ rest) indent nil) h)
        (λ _. serves (map (l ∷ rest) indent end) (omega (arith, h)))

  step-Within : (t : Task) → rank t ≤ suc fuel → Within (length (lines_of t)) (step reads go t)
  unfolding step
  step-Within (block lines indent) h = block_step-Within lines indent (omega (arith, h))
  step-Within (map lines indent out) h = map_step-Within lines indent out (omega (arith, h))
  step-Within (list lines indent out) h = list_step-Within lines indent out (omega (arith, h))

module _ (reads : Text → Option ℤ) where
  pub parse-Within : (fuel : ℕ) → Serves fuel (parse reads fuel)
  unfolding parse
  parse-Within zero (block lines _) h = absurd (omega (arith, h))
  parse-Within zero (map lines _ _) h = absurd (omega (arith, h))
  parse-Within zero (list lines _ _) h = absurd (omega (arith, h))
  parse-Within (suc fuel) t h = step-Within reads (parse reads fuel) fuel (parse-Within fuel) t h
