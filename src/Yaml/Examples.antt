-- ===== src/Yaml/Examples.antt =====
-- Tests of the YAML reader, and its theorems on small documents.
use health_mon.Yaml.Scalar.{scalar_of}
use health_mon.Yaml.Lexis.{significant}
use health_mon.Yaml.Scalar.{is_quoted}
use Prim.Native.String.{String}
use Prim.Native.Char.{code}
use health_mon.Common.{
  ℕ, Bool, true, false, ◌≡◌, refl, Option, some, none, List, [], ◌∷◌, if◌then◌else◌, ◌-◌, ◌*◌, leb,
  ◌&&◌,
}
use health_mon.Probes.{ℤ, pos, one}
use health_mon.Yaml.{
  Text, Node, null, flag, number, text, items, mapping, nil, cons, end, field, done, raised,
  unexpected_indentation, unsupported, expected_key_value,
}
use health_mon.Yaml.Parser.{load_lines, safe_load}
use health_mon.Yaml.Total.{Ends, safe_load-Ends}
use health_mon.Yaml.Render.{print}
use health_mon.Yaml.RoundTrip.{load_lines-print}

abbrev chars : String → Text
chars String.[] = []
chars (String.◌∷◌ c s) = code c ∷ chars s

-- Numbers of one digit, and letters.
abbrev digit : Text → Option ℤ
digit (c ∷ []) = if leb 48 c && leb c 57 then some (pos ((c - 48) * one)) else none
digit _ = none

abbrev letter : ℕ → Bool
letter c = leb 97 c && leb c 122

abbrev key : String → Node
key s = text (chars s)

-- A list of mappings below a key, a list in a flow, a comment and a marker.
configured :
    safe_load digit letter (
      chars "---"
      ∷ chars "probes:  # in order"
      ∷ chars "- type: redis"
      ∷ chars "  tags: [a, true, []]"
      ∷ chars "-"
      ∷ chars "  - 'b # c'"
      ∷ chars "interval: 5"
      ∷ [])
    ≡ done (
        mapping (
          field
            (key "probes")
            (items (
              cons
                (mapping (
                  field (key "type") (key "redis") (
                    field
                      (key "tags")
                      (items (cons (key "a") (cons (flag true) (cons (items nil) nil))))
                      end)))
                (cons (items (cons (key "b # c") nil)) nil)))
            (field (key "interval") (number (pos 5_000)) end)))
unfolding safe_load significant scalar_of
configured = refl

refused :
    (safe_load digit letter (chars "a: 1" ∷ chars "  b: 2" ∷ [])
      ≡ raised (unexpected_indentation 2))
    × (safe_load digit letter (chars "a: &x" ∷ []) ≡ raised (unsupported 1))
    × (safe_load digit letter (chars "a" ∷ []) ≡ raised (expected_key_value 1))
unfolding safe_load significant scalar_of
refused = (refl, refl, refl)

-- A line between the indentations of the list and of its item is dropped without an error, and a
-- quoted key ends at a colon inside its quotes.
misread :
    (safe_load digit letter (chars "- a: 1" ∷ chars " b: 2" ∷ [])
      ≡ done (items (cons (mapping (field (key "a") (number (pos one)) end)) nil)))
    × (safe_load digit letter (chars "'a:b': 1" ∷ [])
        ≡ done (mapping (field (key "'a") (key "b': 1") end)))
unfolding safe_load significant is_quoted scalar_of
misread = (refl, refl)

abbrev ragged : List Text
ragged = chars "- a:" ∷ chars "   - b" ∷ chars " c: [" ∷ []

safe_load-Ends_example : Ends (safe_load digit letter ragged)
safe_load-Ends_example = safe_load-Ends digit letter ragged

abbrev nested : Node
nested = mapping (
    field (key "probes")
      (items (cons (mapping (field (key "type") (key "a: b # \"c\"") end)) (cons null nil)))
      (field (key "strict") (flag false) end))

load_lines-print_example : load_lines digit (print nested) ≡ done nested
load_lines-print_example =
    load_lines-print digit nested refl
      (refl, refl, ((refl, refl, tt, tt), (tt, tt)), (refl, refl, tt, tt))
