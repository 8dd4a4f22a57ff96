-- ===== src/Yaml/Render.antt =====
-- A printer for the documents of the subset: how a configuration is written so that the reader gets
-- it back. Texts and keys are quoted, a nested collection stands two columns deeper than its key or
-- its dash, and an empty one is inline.
use health_mon.Common.{ℕ, ◌+◌, Bool, true, false, ◌≡◌, List, [], ◌∷◌, ◌++◌, not, ◌&&◌}
use health_mon.Yaml.{
  Text, Node, Nodes, Fields, null, flag, number, text, items, mapping, nil, cons, end, field,
  same_key,
}
use health_mon.Yaml.Lexis.{Line}
use health_mon.Yaml.Scalar.{null_word, true_word, false_word}
use health_mon.Yaml.Parser.{has_colon}

abbrev pub quoted : Text → Text
quoted s = b'"' ∷ s ++ b'"' ∷ []

abbrev pub line_at : ℕ → Text → Line
line_at indent s = record { indent = indent; content = s; number = 0 }

-- What stands after the colon of a key, or after a dash.
abbrev pub tail_text : Node → Text
tail_text null = b' ' ∷ null_word
tail_text (flag true) = b' ' ∷ true_word
tail_text (flag false) = b' ' ∷ false_word
tail_text (number n) = []
tail_text (text s) = b' ' ∷ quoted s
tail_text (items nil) = b' ' ∷ b'[' ∷ b']' ∷ []
tail_text (items (cons _ _)) = []
tail_text (mapping end) = b' ' ∷ b'{' ∷ b'}' ∷ []
tail_text (mapping (field _ _ _)) = []

abbrev pub key_text : Node → Text
key_text (text k) = quoted k
key_text _ = []

-- The lines of a collection, and those below the line of a value that is indented by `i`.
abbrev mutual
  pub print_items : ℕ → Nodes → List Line
  print_items i nil = []
  print_items i (cons v vs) = line_at i (b'-' ∷ tail_text v) ∷ (below i v ++ print_items i vs)

  pub print_fields : ℕ → Fields → List Line
  print_fields i end = []
  print_fields i (field k v fields) =
      line_at i (key_text k ++ b':' ∷ tail_text v) ∷ (below i v ++ print_fields i fields)

  pub below : ℕ → Node → List Line
  below i (items vs) = print_items (i + 2) vs
  below i (mapping fields) = print_fields (i + 2) fields
  below i _ = []

-- No key of the fields is `==` to the key.
abbrev pub missing : Node → Fields → Bool
missing k end = true
missing k (field j _ fields) = not (same_key j k) && missing k fields

abbrev pub append_field : Fields → Node → Node → Fields
append_field end k v = field k v end
append_field (field j w fields) k v = field j w (append_field fields k v)

-- What the printer takes: no numbers, and the keys of a mapping are texts without a colon, none of
-- which stands among those before it.
abbrev pub IsPlainKey : Node → Type 0
IsPlainKey (text k) = has_colon k ≡ false
IsPlainKey _ = ⊥

abbrev mutual
  pub IsPlain : Node → Type 0
  IsPlain (number n) = ⊥
  IsPlain (items vs) = ArePlain vs
  IsPlain (mapping fields) = PlainFields end fields
  IsPlain _ = Unit

  pub ArePlain : Nodes → Type 0
  ArePlain nil = Unit
  ArePlain (cons v vs) = IsPlain v × ArePlain vs

  pub PlainFields : Fields → Fields → Type 0
  PlainFields before end = Unit
  PlainFields before (field k v fields) =
      IsPlainKey k
      × (missing k before ≡ true)
      × IsPlain v
      × PlainFields (append_field before k v) fields

abbrev pub is_nested : Node → Bool
is_nested (items (cons _ _)) = true
is_nested (mapping (field _ _ _)) = true
is_nested _ = false

-- The lines of a collection at an indentation, and those of a document.
abbrev pub print_at : ℕ → Node → List Line
print_at i (items vs) = print_items i vs
print_at i (mapping fields) = print_fields i fields
print_at i _ = []

unfoldable pub print : Node → List Line
print v = print_at 0 v
