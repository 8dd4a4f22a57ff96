-- ===== src/Yaml/Turns.antt =====
-- One turn of the loops of _yaml.py on a line that the printer writes.
use health_mon.Common.{
  ℕ, ◌+◌, ◌≤◌, ◌<◌, Bool, true, false, not, ◌&&◌, ◌||◌, ◌≡◌, refl, ap, sym, ◌∙◌, Option, List, [],
  ◌∷◌, ◌++◌, ltb, arith,
}
use mathlib.Core.Path.{subst}
use health_mon.Probes.{ℤ}
use health_mon.Yaml.{
  Text, Node, Nodes, Fields, null, flag, number, text, items, mapping, nil, cons, end, field, done,
  ◌>>=◌, put, append_node, set_field,
}
use health_mon.Yaml.Lexis.{Line, strip}
use health_mon.Yaml.Scalar.{scalar_of, is_quoted, scalar}
use health_mon.Yaml.Quotes.{strip-quoted, quoted-is_quoted, scalar_of-quoted, partition-quoted}
use health_mon.Yaml.Parser.{
  Task, block, map, list, Parsed, known, value_below, map_value, map_line, map_step, item_below,
  item_value, list_step, is_item, has_colon,
}
use health_mon.Yaml.Render.{
  quoted, line_at, tail_text, below, missing, append_field, IsPlain, is_nested,
}

-- The lines begin with one that is indented by less than `n`, or there is none.
abbrev pub Under : ℕ → List Line → Type 0
Under n [] = Unit
Under n (l ∷ _) = l.indent < n

pub Under-weaken : (m n : ℕ) (rest : List Line) → m ≤ n → Under m rest → Under n rest
Under-weaken m n [] le h = tt
Under-weaken m n (l ∷ _) le h = omega (arith, le, h)

lt→ltb : (m n : ℕ) → m < n → ltb m n ≡ true
lt→ltb m n h = ground arith

le→not_ltb : (m n : ℕ) → n ≤ m → ltb m n ≡ false
le→not_ltb m n h = ground arith

pub elim_on : (b : Bool) (x y : Parsed) → b ≡ true → Path Parsed (elim b [ true ↦ x | false ↦ y ]) x
elim_on true x y h = refl
elim_on false x y h = cc

pub elim_off :
    (b : Bool) (x y : Parsed) → b ≡ false → Path Parsed (elim b [ true ↦ x | false ↦ y ]) y
elim_off true x y h = cc
elim_off false x y h = refl

and_not : (a b : Bool) → b ≡ true → a && not b ≡ false
and_not a b h = ground arith

not_either : {a b : Bool} → a ≡ false → b ≡ true → a || not b ≡ false
not_either {a} {b} h k = ground arith

abbrev pub join : Fields → Fields → Fields
join before end = before
join before (field k v fields) = join (append_field before k v) fields

abbrev pub join_nodes : Nodes → Nodes → Nodes
join_nodes before nil = before
join_nodes before (cons v vs) = join_nodes (append_node before v) vs

pub set_field-missing :
    (k v : Node) (before : Fields)
    → missing k before ≡ true
    → set_field k v before ≡ append_field before k v
set_field-missing k v end h = refl
set_field-missing k v (field j w fields) h = ground (arith, set_field-missing k v fields)

-- Whatever a value is printed as, it is read back where it stands, if `go` reads the lines below it.
module _ (reads : Text → Option ℤ) (go : Task → Parsed) where
  -- The lines below a nested value are read as the value.
  abbrev pub Nested : ℕ → Node → List Line → Type 0
  Nested i v rest = is_nested v ≡ true → go (block (below i v ++ rest) (i + 2)) ≡ done (v, rest)

  map_value-reads :
      (i : ℕ) (v : Node) (rest : List Line)
      → IsPlain v
      → Nested i v rest
      → map_value reads go (strip (tail_text v)) (below i v ++ rest) i ≡ done (v, rest)
  unfolding map_value value_below scalar_of scalar is_quoted
  map_value-reads i null rest p n = refl
  map_value-reads i (flag true) rest p n = refl
  map_value-reads i (flag false) rest p n = refl
  map_value-reads i (number _) rest p n = absurd p
  map_value-reads i (text s) rest p n =
      subst (λ inline. map_value reads go inline rest i ≡ done (text s, rest))
        (sym (strip-quoted s))
        (ap (λ o. known o >>= λ v. done (v, rest)) (scalar_of-quoted reads s))
  map_value-reads i (items nil) rest p n = refl
  map_value-reads i (items (cons v vs)) rest p n =
      elim_on (ltb i (i + 2)) _ _ (lt→ltb i (i + 2) (omega arith)) ∙ n refl
  map_value-reads i (mapping end) rest p n = refl
  map_value-reads i (mapping (field k v fields)) rest p n =
      elim_on (ltb i (i + 2)) _ _ (lt→ltb i (i + 2) (omega arith)) ∙ n refl

  item_value-reads :
      (i : ℕ) (v : Node) (l : Line) (rest : List Line)
      → IsPlain v
      → Nested i v rest
      → item_value reads go (strip (tail_text v)) l (below i v ++ rest) i ≡ done (v, rest)
  unfolding item_value item_below scalar_of scalar is_quoted
  item_value-reads i null l rest p n = refl
  item_value-reads i (flag true) l rest p n = refl
  item_value-reads i (flag false) l rest p n = refl
  item_value-reads i (number _) l rest p n = absurd p
  item_value-reads i (text s) l rest p n =
      subst (λ item. item_value reads go item l rest i ≡ done (text s, rest)) (sym (strip-quoted s))
        (elim_off (has_colon (quoted s) && not (is_quoted (quoted s))) _ _
            (and_not (has_colon (quoted s)) (is_quoted (quoted s)) (quoted-is_quoted s))
          ∙ ap (λ o. known o >>= λ v. done (v, rest)) (scalar_of-quoted reads s))
  item_value-reads i (items nil) l rest p n = refl
  item_value-reads i (items (cons v vs)) l rest p n =
      elim_on (ltb i (i + 2)) _ _ (lt→ltb i (i + 2) (omega arith)) ∙ n refl
  item_value-reads i (mapping end) l rest p n = refl
  item_value-reads i (mapping (field k v fields)) l rest p n =
      elim_on (ltb i (i + 2)) _ _ (lt→ltb i (i + 2) (omega arith)) ∙ n refl

  -- A line of a mapping adds its field.
  pub map_step-field :
      (i : ℕ) (k : Text) (v : Node) (rest : List Line) (out : Fields)
      → has_colon k ≡ false
      → IsPlain v
      → Nested i v rest
      → map_step reads go (line_at i (quoted k ++ b':' ∷ tail_text v) ∷ (below i v ++ rest)) i out
        ≡ go (map rest i (set_field (text k) v out))
  unfolding map_step map_line
  map_step-field i k v rest out colon p n =
      let lines = below i v ++ rest in
      elim_off (ltb i i) _ _ (le→not_ltb i i (omega arith))
      ∙ elim_off (ltb i i) _ _ (le→not_ltb i i (omega arith))
      ∙ ap (λ split. map_line reads go split 0 lines i out) (partition-quoted k (tail_text v) colon)
      ∙ ap
          (λ o. known o >>= λ key. map_value reads go (strip (tail_text v)) lines i >>= λ r.
            put key r.0 out >>= λ fields. go (map r.1 i fields))
          (ap (scalar_of reads) (strip-quoted k) ∙ scalar_of-quoted reads k)
      ∙ ap (λ o. o >>= λ r. put (text k) r.0 out >>= λ fields. go (map r.1 i fields))
          (map_value-reads i v rest p n)

  pub is_item-tail : (v : Node) → is_item (b'-' ∷ tail_text v) ≡ true
  is_item-tail null = refl
  is_item-tail (flag true) = refl
  is_item-tail (flag false) = refl
  is_item-tail (number _) = refl
  is_item-tail (text _) = refl
  is_item-tail (items nil) = refl
  is_item-tail (items (cons _ _)) = refl
  is_item-tail (mapping end) = refl
  is_item-tail (mapping (field _ _ _)) = refl

  -- A line of a list adds its item.
  pub list_step-item :
      (i : ℕ) (v : Node) (rest : List Line) (out : Nodes)
      → IsPlain v
      → Nested i v rest
      → list_step reads go (line_at i (b'-' ∷ tail_text v) ∷ (below i v ++ rest)) i out
        ≡ go (list rest i (append_node out v))
  unfolding list_step
  list_step-item i v rest out p n =
      let line = line_at i (b'-' ∷ tail_text v) in
      elim_off (ltb i i || not (is_item line.content)) _ _
        (not_either (le→not_ltb i i (omega arith)) (is_item-tail v))
      ∙ elim_off (ltb i i) _ _ (le→not_ltb i i (omega arith))
      ∙ ap (λ o. o >>= λ r. go (list r.1 i (append_node out r.0)))
          (item_value-reads i v line rest p n)

  pub map_step-end :
      (i : ℕ) (rest : List Line) (out : Fields)
      → Under i rest
      → map_step reads go rest i out ≡ done (mapping out, rest)
  unfolding map_step
  map_step-end i [] out h = refl
  map_step-end i (l ∷ rest) out h = elim_on (ltb l.indent i) _ _ (lt→ltb l.indent i h)

  pub list_step-end :
      (i : ℕ) (rest : List Line) (out : Nodes)
      → Under i rest
      → list_step reads go rest i out ≡ done (items out, rest)
  unfolding list_step
  list_step-end i [] out h = refl
  list_step-end i (l ∷ rest) out h =
      elim_on (ltb l.indent i || not (is_item l.content)) _ _
        (ap (λ b. b || not (is_item l.content)) (lt→ltb l.indent i h))
