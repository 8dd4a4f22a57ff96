-- ===== src/Probes/Context.antt =====
-- ProbeSpec.resolved_params: `"@name"` in a param stands for a live object of the context, and
-- `"@@text"` for the text `"@text"`.
use health_mon.Common.{Bool, true, false, String, Option, none, some, [], ◌∷◌, ◌==◌}
use health_mon.Common.Dict.{Dict, lookup}
use Prim.Native.Char.{Char, code}
use health_mon.Probes.{
  Value, text, items, mapping, Items, nil, cons, Entries, end, entry, missing_reference, config,
  Result, ok, err, ◌>>=◌,
}

-- A text by its use: a reference, a text that begins with an at-sign, or any other.
pub data Meaning : Type 0 where
  reference : String → Meaning
  literal : String → Meaning

abbrev is_at : Char → Bool
is_at c = code c == 64

after_at : String → Meaning
after_at String.[] = reference String.[]
after_at (String.◌∷◌ c s) = elim (is_at c) [
  | true ↦ literal (String.◌∷◌ c s)
  | false ↦ reference (String.◌∷◌ c s)
]

-- value.startswith("@"), value.startswith("@@") and value[1:]
unfoldable pub meaning : String → Meaning
unfolding after_at
meaning String.[] = literal String.[]
meaning (String.◌∷◌ c s) = elim (is_at c) [ true ↦ after_at s | false ↦ literal (String.◌∷◌ c s) ]

unfoldable pub found : String → String → Option Value → Result Value
found name key none = err (config (missing_reference name key))
found name key (some v) = ok v

-- `if ref not in context: raise`, and context[ref]
unfoldable pub refer : String → String → Meaning → Dict Value → Result Value
unfolding found
refer name key (literal s) context = ok (text s)
refer name key (reference ref) context = found name key (lookup ref context)

-- _resolve. The path of a nested param, which the message names, is the key at the top here.
unfoldable mutual
  unfolding meaning refer

  pub resolve : String → String → Value → Dict Value → Result Value
  resolve name key (text s) context = refer name key (meaning s) context
  resolve name key (mapping es) context = do
    es' ← resolve_entries name key es context
    ok (mapping es')
  resolve name key (items xs) context = do xs' ← resolve_items name key xs context; ok (items xs')
  resolve name key v context = ok v

  pub resolve_items : String → String → Items → Dict Value → Result Items
  resolve_items name key nil context = ok nil
  resolve_items name key (cons v rest) context = do
    v' ← resolve name key v context
    rest' ← resolve_items name key rest context
    ok (cons v' rest')

  pub resolve_entries : String → String → Entries → Dict Value → Result Entries
  resolve_entries name key end context = ok end
  resolve_entries name key (entry k v rest) context = do
    v' ← resolve name key v context
    rest' ← resolve_entries name key rest context
    ok (entry k v' rest')

-- resolved_params
unfoldable pub resolved_params : String → Dict Value → Dict Value → Result (Dict Value)
unfolding resolve
resolved_params name [] context = ok []
resolved_params name ((k, v) ∷ rest) context = do
  v' ← resolve name k v context
  rest' ← resolved_params name rest context
  ok ((k, v') ∷ rest')
