-- ===== src/Yaml/Parser.antt =====
-- `safe_load` of _yaml.py without PyYAML: `_parse_block`, `_parse_map` and `_parse_list`. The index
-- into the lines is the list of the lines from it on. What the three are to do next is a `Task`, so
-- that one function on fuel stands for their mutual recursion and their loops.
use health_mon.Common.{
  ℕ, zero, suc, ◌+◌, ◌*◌, Bool, true, false, not, ◌&&◌, ◌||◌, Option, none, some, List, [], ◌∷◌,
  ◌==◌, ltb, if◌then◌else◌, length, any, drop,
}
use health_mon.Probes.{ℤ}
use health_mon.Yaml.{
  Text, Node, Nodes, Fields, null, items, mapping, nil, end, Outcome, done, raised, out_of_fuel,
  ◌>>=◌, put, append_node, unexpected_indentation, expected_key_value,
  unexpected_indentation_in_list,
}
use health_mon.Yaml.Lexis.{strip, Line, significant}
use health_mon.Yaml.Scalar.{scalar_of, is_quoted}

-- The lines that are left, the indentation, and what was collected so far.
pub data Task : Type 0 where
  block : List Line → ℕ → Task
  map : List Line → ℕ → Fields → Task
  list : List Line → ℕ → Nodes → Task

abbrev pub Parsed : Type 0
Parsed = Outcome (Node × List Line)

abbrev pub starts_dash : Text → Bool
starts_dash [] = false
starts_dash (c ∷ _) = c == b'-'

-- content == "-" or content.startswith("- ")
abbrev pub is_item : Text → Bool
is_item [] = false
is_item (c ∷ []) = c == b'-'
is_item (c ∷ d ∷ _) = c == b'-' && d == b' '

abbrev pub in_key : ℕ → Option (Text × Text) → Option (Text × Text)
in_key c none = none
in_key c (some (key, inline)) = some (c ∷ key, inline)

-- content.partition(":"), `none` where there is no colon
abbrev pub partition : Text → Option (Text × Text)
partition [] = none
partition (c ∷ s) = let rest = in_key c (partition s) in if c == b':' then some ([], s) else rest

abbrev pub has_colon : Text → Bool
has_colon s = any (λ c. c == b':') s

-- The lines from the first that is not indented by more than `indent` on, and those before it.
abbrev pub deeper : ℕ → List Line → List Line
deeper indent [] = []
deeper indent (l ∷ rest) =
    let more = deeper indent rest in if ltb indent l.indent then l ∷ more else []

abbrev pub not_deeper : ℕ → List Line → List Line
not_deeper indent [] = []
not_deeper indent (l ∷ rest) =
    let more = not_deeper indent rest in if ltb indent l.indent then more else l ∷ rest

abbrev pub known : Option Node → Outcome Node
known none = out_of_fuel
known (some v) = done v

module _ (reads : Text → Option ℤ) (go : Task → Parsed) where
  -- A key without a value on its line.
  unfoldable pub value_below : List Line → ℕ → Parsed
  value_below [] indent = done (null, [])
  value_below (l ∷ rest) indent = elim (ltb indent l.indent) [
    | true ↦ go (block (l ∷ rest) l.indent)
    | false ↦ elim (l.indent == indent && starts_dash l.content) [
      | true ↦ go (list (l ∷ rest) indent nil)
      | false ↦ done (null, l ∷ rest)
    ]
  ]

  unfoldable pub map_value : Text → List Line → ℕ → Parsed
  unfolding value_below
  map_value [] rest indent = value_below rest indent
  map_value (c ∷ s) rest indent = known (scalar_of reads (c ∷ s)) >>= λ v. done (v, rest)

  -- A line of a mapping, split at its colon.
  unfoldable pub map_line : Option (Text × Text) → ℕ → List Line → ℕ → Fields → Parsed
  unfolding map_value
  map_line none number rest indent out = raised (expected_key_value number)
  map_line (some (key, inline)) number rest indent out =
      known (scalar_of reads (strip key)) >>= λ k. map_value (strip inline) rest indent >>= λ r.
      put k r.0 out >>= λ fields. go (map r.1 indent fields)

  -- One turn of the loop of _parse_map
  unfoldable pub map_step : List Line → ℕ → Fields → Parsed
  unfolding map_line
  map_step [] indent out = done (mapping out, [])
  map_step (l ∷ rest) indent out = elim (ltb l.indent indent) [
    | true ↦ done (mapping out, l ∷ rest)
    | false ↦ elim (ltb indent l.indent) [
      | true ↦ raised (unexpected_indentation l.number)
      | false ↦ map_line (partition l.content) l.number rest indent out
    ]
  ]

  unfoldable pub item_below : List Line → ℕ → Parsed
  item_below [] indent = done (null, [])
  item_below (l ∷ rest) indent = elim (ltb indent l.indent) [
    | true ↦ go (block (l ∷ rest) l.indent)
    | false ↦ done (null, l ∷ rest)
  ]

  -- A mapping whose first key stands on the line of the dash: what `_parse_map` leaves is dropped.
  unfoldable pub inline_map : Text → Line → List Line → ℕ → Parsed
  inline_map item l rest indent =
      go (
        map (record l { indent = l.indent + 2; content = item } ∷ deeper indent rest) (l.indent + 2)
          end)
      >>= λ r. done (r.0, not_deeper indent rest)

  unfoldable pub item_value : Text → Line → List Line → ℕ → Parsed
  unfolding item_below inline_map
  item_value [] l rest indent = item_below rest indent
  item_value (c ∷ s) l rest indent = elim (has_colon (c ∷ s) && not (is_quoted (c ∷ s))) [
    | true ↦ inline_map (c ∷ s) l rest indent
    | false ↦ known (scalar_of reads (c ∷ s)) >>= λ v. done (v, rest)
  ]

  -- One turn of the loop of _parse_list
  unfoldable pub list_step : List Line → ℕ → Nodes → Parsed
  unfolding item_value
  list_step [] indent out = done (items out, [])
  list_step (l ∷ rest) indent out = elim (ltb l.indent indent || not (is_item l.content)) [
    | true ↦ done (items out, l ∷ rest)
    | false ↦ elim (ltb indent l.indent) [
      | true ↦ raised (unexpected_indentation_in_list l.number)
      | false ↦ item_value (strip (drop 1 l.content)) l rest indent >>= λ r.
          go (list r.1 indent (append_node out r.0))
    ]
  ]

  -- _parse_block
  unfoldable pub block_step : List Line → ℕ → Parsed
  block_step [] indent = done (null, [])
  block_step (l ∷ rest) indent = elim (is_item l.content) [
    | true ↦ go (list (l ∷ rest) indent nil)
    | false ↦ go (map (l ∷ rest) indent end)
  ]

  unfoldable pub step : Task → Parsed
  unfolding block_step map_step list_step
  step (block lines indent) = block_step lines indent
  step (map lines indent out) = map_step lines indent out
  step (list lines indent out) = list_step lines indent out

module _ (reads : Text → Option ℤ) where
  unfoldable pub parse : ℕ → Task → Parsed
  unfolding step
  parse zero task = out_of_fuel
  parse (suc fuel) task = step reads (parse fuel) task

  -- What is left of the lines must be nothing.
  unfoldable pub finished : Node → List Line → Outcome Node
  finished v [] = done v
  finished v (l ∷ _) = raised (unexpected_indentation l.number)

  -- safe_load, from the lines that carry meaning on
  unfoldable pub load_lines : List Line → Outcome Node
  unfolding parse finished
  load_lines [] = done null
  load_lines (l ∷ rest) =
      parse (3 * length (l ∷ rest) + 3) (block (l ∷ rest) l.indent) >>= λ r. finished r.0 r.1

  -- safe_load
  unfoldable pub safe_load : (ℕ → Bool) → List Text → Outcome Node
  unfolding load_lines
  safe_load is_word lines = significant is_word 1 lines >>= load_lines
