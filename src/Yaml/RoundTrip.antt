-- ===== src/Yaml/RoundTrip.antt =====
-- What the printer writes the reader reads back.
use health_mon.Common.{
  ℕ, zero, suc, ◌+◌, ◌*◌, ◌≤◌, true, false, ◌≡◌, refl, ap, sym, ◌∙◌, Option, List, [], ◌∷◌, ◌++◌,
  length, length-append, arith,
}
use mathlib.Core.Path.{subst}
use mathlib.Core.List.{append_assoc, append-nil}
use health_mon.Probes.{ℤ}
use health_mon.Yaml.{
  Text, Node, Nodes, Fields, null, flag, number, text, items, mapping, nil, cons, end, field, done,
  ◌>>=◌, append_node,
}
use health_mon.Yaml.Lexis.{Line}
use health_mon.Yaml.Parser.{
  block, map, list, block_step, step, parse, finished, load_lines, is_item,
}
use health_mon.Yaml.Render.{
  quoted, line_at, tail_text, print_items, print_fields, below, append_field, IsPlain, ArePlain,
  PlainFields, is_nested, print_at, print,
}
use health_mon.Yaml.Turns.{
  Under, Under-weaken, join, join_nodes, set_field-missing, elim_on, elim_off, Nested,
  map_step-field, list_step-item, map_step-end, list_step-end, is_item-tail,
}

abbrev plus : Nodes → Nodes → Nodes
plus nil b = b
plus (cons v a) b = cons v (plus a b)

plus_nil : (a : Nodes) → plus a nil ≡ a
plus_nil nil = refl
plus_nil (cons v a) = ap (cons v) (plus_nil a)

plus-append_node : (a b : Nodes) (v : Node) → plus (append_node a v) b ≡ plus a (cons v b)
plus-append_node nil b v = refl
plus-append_node (cons w a) b v = ap (cons w) (plus-append_node a b v)

join_nodes-plus : (a b : Nodes) → join_nodes a b ≡ plus a b
join_nodes-plus a nil = sym (plus_nil a)
join_nodes-plus a (cons v b) = join_nodes-plus (append_node a v) b ∙ plus-append_node a b v

abbrev plus_fields : Fields → Fields → Fields
plus_fields end b = b
plus_fields (field k v a) b = field k v (plus_fields a b)

plus_fields_end : (a : Fields) → plus_fields a end ≡ a
plus_fields_end end = refl
plus_fields_end (field k v a) = ap (field k v) (plus_fields_end a)

plus_fields-append_field :
    (a b : Fields) (k v : Node) → plus_fields (append_field a k v) b ≡ plus_fields a (field k v b)
plus_fields-append_field end b k v = refl
plus_fields-append_field (field j w a) b k v = ap (field j w) (plus_fields-append_field a b k v)

join-plus_fields : (a b : Fields) → join a b ≡ plus_fields a b
join-plus_fields a end = sym (plus_fields_end a)
join-plus_fields a (field k v b) =
    join-plus_fields (append_field a k v) b ∙ plus_fields-append_field a b k v

below-print_at : (i : ℕ) (v : Node) → below i v ≡ print_at (i + 2) v
below-print_at i null = refl
below-print_at i (flag _) = refl
below-print_at i (number _) = refl
below-print_at i (text _) = refl
below-print_at i (items _) = refl
below-print_at i (mapping _) = refl

quoted-not_item : (k t : Text) → is_item (quoted k ++ t) ≡ false
quoted-not_item [] t = refl
quoted-not_item (_ ∷ _) t = refl

items-Under :
    (i : ℕ) (vs : Nodes) (rest : List Line)
    → Under i rest
    → Under (i + 2) (print_items i vs ++ rest)
items-Under i nil rest h = Under-weaken i (i + 2) rest (omega arith) h
items-Under i (cons v vs) rest h = omega arith

fields-Under :
    (i : ℕ) (fields : Fields) (rest : List Line)
    → Under i rest
    → Under (i + 2) (print_fields i fields ++ rest)
fields-Under i end rest h = Under-weaken i (i + 2) rest (omega arith) h
fields-Under i (field k v fields) rest h = omega arith

module _ (reads : Text → Option ℤ) where
  abbrev Lists : ℕ → Type 0
  Lists f =
      (i : ℕ) (vs : Nodes) (rest : List Line) (out : Nodes)
      → ArePlain vs
      → Under i rest
      → 3 * length (print_items i vs ++ rest) + 2 ≤ f
      → parse reads f (list (print_items i vs ++ rest) i out)
        ≡ done (items (join_nodes out vs), rest)

  abbrev Maps : ℕ → Type 0
  Maps f =
      (i : ℕ) (fields : Fields) (rest : List Line) (out : Fields)
      → PlainFields out fields
      → Under i rest
      → 3 * length (print_fields i fields ++ rest) + 1 ≤ f
      → parse reads f (map (print_fields i fields ++ rest) i out)
        ≡ done (mapping (join out fields), rest)

  abbrev Blocks : ℕ → Type 0
  Blocks f =
      (i : ℕ) (v : Node) (rest : List Line)
      → is_nested v ≡ true
      → IsPlain v
      → Under i rest
      → 3 * length (print_at i v ++ rest) + 3 ≤ f
      → parse reads f (block (print_at i v ++ rest) i) ≡ done (v, rest)

  Blocks-Nested :
      (f i : ℕ) (v : Node) (rest : List Line)
      → Blocks f
      → IsPlain v
      → Under (i + 2) rest
      → 3 * length (below i v ++ rest) + 3 ≤ f
      → Nested reads (parse reads f) i v rest
  Blocks-Nested f i v rest bs p u h nested =
      subst
        (λ lines.
          3 * length (lines ++ rest) + 3 ≤ f
          → parse reads f (block (lines ++ rest) (i + 2)) ≡ done (v, rest))
        (sym (below-print_at i v)) (bs (i + 2) v rest nested p u) h

  Lists-next : (f : ℕ) → Lists f → Blocks f → Lists (suc f)
  unfolding parse step
  Lists-next f ls bs i nil rest out p u h = list_step-end reads (parse reads f) i rest out u
  Lists-next f ls bs i (cons v vs) rest out p u h =
      let more = print_items i vs ++ rest in
      let line = line_at i (b'-' ∷ tail_text v) in
      let size : length (below i v ++ more) ≡ length ((below i v ++ print_items i vs) ++ rest) =
        ap length (sym (append_assoc (below i v) (print_items i vs) rest)) in
      let parts : length (below i v ++ more) ≡ length (below i v) + length more =
        length-append (below i v) more in
      ap (λ lines. parse reads (suc f) (list (line ∷ lines) i out))
        (append_assoc (below i v) (print_items i vs) rest)
      ∙ list_step-item reads (parse reads f) i v more out p.0
          (Blocks-Nested f i v more bs p.0 (items-Under i vs rest u) (omega (arith, h, size)))
      ∙ ls i vs rest (append_node out v) p.1 u (omega (arith, h, size, parts))

  Maps-next : (f : ℕ) → Maps f → Blocks f → Maps (suc f)
  unfolding parse step
  Maps-next f ms bs i end rest out p u h = map_step-end reads (parse reads f) i rest out u
  Maps-next f ms bs i (field (text k) v fields) rest out p u h =
      let more = print_fields i fields ++ rest in
      let line = line_at i (quoted k ++ b':' ∷ tail_text v) in
      let size : length (below i v ++ more)
          ≡ length ((below i v ++ print_fields i fields) ++ rest) =
        ap length (sym (append_assoc (below i v) (print_fields i fields) rest)) in
      let parts : length (below i v ++ more) ≡ length (below i v) + length more =
        length-append (below i v) more in
      ap (λ lines. parse reads (suc f) (map (line ∷ lines) i out))
        (append_assoc (below i v) (print_fields i fields) rest)
      ∙ map_step-field reads (parse reads f) i k v more out p.0 p.2
          (Blocks-Nested f i v more bs p.2 (fields-Under i fields rest u) (omega (arith, h, size)))
      ∙ ap (λ before. parse reads f (map more i before)) (set_field-missing (text k) v out p.1)
      ∙ ms i fields rest (append_field out (text k) v) p.3 u (omega (arith, h, size, parts))
  Maps-next f ms bs i (field null v fields) rest out p u h = absurd p.0
  Maps-next f ms bs i (field (flag _) v fields) rest out p u h = absurd p.0
  Maps-next f ms bs i (field (number _) v fields) rest out p u h = absurd p.0
  Maps-next f ms bs i (field (items _) v fields) rest out p u h = absurd p.0
  Maps-next f ms bs i (field (mapping _) v fields) rest out p u h = absurd p.0

  Blocks-next : (f : ℕ) → Lists f → Maps f → Blocks (suc f)
  unfolding parse step block_step
  Blocks-next f ls ms i null rest nested p u h = cc
  Blocks-next f ls ms i (flag _) rest nested p u h = cc
  Blocks-next f ls ms i (number _) rest nested p u h = cc
  Blocks-next f ls ms i (text _) rest nested p u h = cc
  Blocks-next f ls ms i (items nil) rest nested p u h = cc
  Blocks-next f ls ms i (items (cons v vs)) rest nested p u h =
      elim_on (is_item (b'-' ∷ tail_text v)) _ _ (is_item-tail reads (parse reads f) v)
      ∙ ls i (cons v vs) rest nil p u (omega (arith, h))
      ∙ ap (λ ws. done (items ws, rest)) (join_nodes-plus nil (cons v vs))
  Blocks-next f ls ms i (mapping end) rest nested p u h = cc
  Blocks-next f ls ms i (mapping (field (text k) v fields)) rest nested p u h =
      elim_off (is_item (quoted k ++ b':' ∷ tail_text v)) _ _
        (quoted-not_item k (b':' ∷ tail_text v))
      ∙ ms i (field (text k) v fields) rest end p u (omega (arith, h))
      ∙ ap (λ gs. done (mapping gs, rest)) (join-plus_fields end (field (text k) v fields))
  Blocks-next f ls ms i (mapping (field null v fields)) rest nested p u h = absurd p.0
  Blocks-next f ls ms i (mapping (field (flag _) v fields)) rest nested p u h = absurd p.0
  Blocks-next f ls ms i (mapping (field (number _) v fields)) rest nested p u h = absurd p.0
  Blocks-next f ls ms i (mapping (field (items _) v fields)) rest nested p u h = absurd p.0
  Blocks-next f ls ms i (mapping (field (mapping _) v fields)) rest nested p u h = absurd p.0

  reads_all : (f : ℕ) → Lists f × Maps f × Blocks f
  reads_all zero = (
    λ i vs rest out p u h. absurd (omega (arith, h)),
    λ i fields rest out p u h. absurd (omega (arith, h)),
    λ i v rest nested p u h. absurd (omega (arith, h)),
  )
  reads_all (suc f) =
      let (ls, ms, bs) = reads_all f in (Lists-next f ls bs, Maps-next f ms bs, Blocks-next f ls ms)

whole-reads :
    (reads : Text → Option ℤ) (v : Node)
    → is_nested v ≡ true
    → IsPlain v
    → parse reads (3 * length (print_at 0 v) + 3) (block (print_at 0 v) 0) ≡ done (v, [])
whole-reads reads v nested p =
    subst (λ lines. parse reads (3 * length lines + 3) (block lines 0) ≡ done (v, []))
      (append-nil (print_at 0 v))
      ((reads_all reads (3 * length (print_at 0 v ++ []) + 3)).2 0 v [] nested p tt (omega arith))

-- The reader, from the significant lines on (`load_lines`), reads the lines that a document is
-- printed as back as that document, without an error: any nesting of mappings and lists with
-- null, bools and texts in them, whose outermost collection is not empty, and in which every key
-- is a text without a colon, none of them twice in one mapping. Any other character may stand in
-- a key or a text, quotes and whitespace included. What is done before, the splitting of a text
-- into lines and the cutting of comments, is not part of the statement.
pub load_lines-print :
    (reads : Text → Option ℤ) (v : Node)
    → is_nested v ≡ true
    → IsPlain v
    → load_lines reads (print v) ≡ done v
unfolding load_lines print finished
load_lines-print reads null nested p = cc
load_lines-print reads (flag _) nested p = cc
load_lines-print reads (number _) nested p = cc
load_lines-print reads (text _) nested p = cc
load_lines-print reads (items nil) nested p = cc
load_lines-print reads (items (cons v vs)) nested p =
    ap (λ o. o >>= λ r. finished reads r.0 r.1) (whole-reads reads (items (cons v vs)) nested p)
load_lines-print reads (mapping end) nested p = cc
load_lines-print reads (mapping (field k v fields)) nested p =
    ap (λ o. o >>= λ r. finished reads r.0 r.1)
      (whole-reads reads (mapping (field k v fields)) nested p)
