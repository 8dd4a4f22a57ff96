-- ===== src/Probes/Definition.antt =====
-- ProbeSpec.from_raw of probes/spec.py: from a mapping to a validated spec.
use health_mon.Common.{
  Bool, true, false, not, ◌&&◌, ◌||◌, String, Option, none, some, List, [], ◌∷◌, is_some, str_eq,
  if◌then◌else◌,
}
use health_mon.Common.Dict.{Dict, lookup, insert, delete}
use health_mon.Probes.{
  pos, Value, null, flag, number, text, items, mapping, Entries, end, entry, not_buildable, config,
  type_error, value_error, unmodelled, Result, ok, err, ◌>>=◌, Python, truthy,
}
use health_mon.Probes.Spec.{RawSpec, ProbeSpec, post_init, name_or_type}

-- A definition as it is read: a mapping.
pub record Definition : Type 0 where
  pub type : Option Value
  pub name : Option Value
  pub rest : Dict Value

abbrev pub field_aliases : List (String × String)
field_aliases =
    ("max_backoff_seconds", "backoff_max")
    ∷ ("max_backoff", "backoff_max")
    ∷ ("backoff_initial_seconds", "backoff_initial")
    ∷ ("stale_after", "stale_after_seconds")
    ∷ ("latency_warning_ms", "latency_warn_ms")
    ∷ []

rename : String → Option Value → Dict Value → Dict Value
rename target none d = d
rename target (some v) d = insert target v d

-- `if alias in data and target not in data: data[target] = data.pop(alias)`
unfoldable pub apply_alias : String → String → Dict Value → Dict Value
unfolding rename
apply_alias alias target d =
    if is_some (lookup alias d) && not (is_some (lookup target d))
    then rename target (lookup alias d) (delete alias d)
    else d

unfoldable pub apply_aliases : List (String × String) → Dict Value → Dict Value
unfolding apply_alias
apply_aliases [] d = d
apply_aliases ((alias, target) ∷ rest) d = apply_aliases rest (apply_alias alias target d)

-- The fields that are read from the rest of a definition.
abbrev pub known_fields : List String
known_fields =
    "critical" ∷ "enabled" ∷ "interval" ∷ "timeout" ∷ "failure_threshold" ∷ "success_threshold"
    ∷ "max_silence" ∷ "ttl" ∷ "backoff_initial" ∷ "backoff_max" ∷ "backoff_multiplier"
    ∷ "backoff_jitter" ∷ "latency_warn_ms" ∷ "latency_critical_ms" ∷ "pool_warn_ratio"
    ∷ "pool_critical_ratio" ∷ "stale_after_seconds" ∷ []

abbrev pub is_in : String → List String → Bool
is_in k [] = false
is_in k (j ∷ rest) = str_eq j k || is_in k rest

-- The loop over the unknown keys: each becomes a param. The source takes them by name, here they
-- come in the order of the definition.
unfoldable pub add_unknown : Dict Value → Dict Value → Dict Value
add_unknown [] params = params
add_unknown ((k, v) ∷ rest) params =
    add_unknown rest (if is_in k known_fields then params else insert k v params)

unfoldable pub entries : Entries → Dict Value
entries end = []
entries (entry k v rest) = insert k v (entries rest)

-- `dict(data.pop("params", {}) or {})`. A list is refused, as one that is not of pairs.
unfoldable pub params_of : Option Value → Result (Dict Value)
unfolding entries
params_of none = ok []
params_of (some null) = ok []
params_of (some (mapping es)) = ok (entries es)
params_of (some (text s)) = if truthy (text s) then err value_error else ok []
params_of (some (items xs)) = if truthy (items xs) then err value_error else ok []
params_of (some v) = if truthy v then err type_error else ok []

abbrev pub given : String → Value → Dict Value → Value
given field default d = elim (lookup field d) [ none ↦ default | some v ↦ v ]

-- The arguments of the constructor, with the defaults of the fields.
unfoldable pub raw_spec : String → String → Dict Value → RawSpec
raw_spec type name d = record {
  type = type;
  name = name;
  critical = given "critical" (flag true) d;
  enabled = given "enabled" (flag true) d;
  interval = given "interval" (number (pos 15_000)) d;
  timeout = given "timeout" null d;
  failure_threshold = given "failure_threshold" (number (pos 3_000)) d;
  success_threshold = given "success_threshold" (number (pos 2_000)) d;
  max_silence = given "max_silence" (number (pos 60_000)) d;
  ttl = given "ttl" null d;
  backoff_initial = given "backoff_initial" (number (pos 5_000)) d;
  backoff_max = given "backoff_max" (number (pos 60_000)) d;
  backoff_multiplier = given "backoff_multiplier" (number (pos 2_000)) d;
  backoff_jitter = given "backoff_jitter" (number (pos 100)) d;
  latency_warn_ms = given "latency_warn_ms" null d;
  latency_critical_ms = given "latency_critical_ms" null d;
  pool_warn_ratio = given "pool_warn_ratio" null d;
  pool_critical_ratio = given "pool_critical_ratio" null d;
  stale_after_seconds = given "stale_after_seconds" null d;
}

-- A type or a name. The source tells no empty values apart, and goes on with any other.
unfoldable pub key_of : Value → Result String
key_of (text s) = ok s
key_of v = if truthy v then err unmodelled else ok ""

-- The constructor: `type` and `name` have no default.
unfoldable pub construct : Python → Option Value → Option Value → Dict Value → Result ProbeSpec
unfolding key_of raw_spec post_init
construct py (some type) (some name) d = do
  type_text ← key_of type
  name_text ← key_of name
  post_init py (raw_spec type_text name_text d)
construct py _ _ d = err type_error

text_of : Option Value → String
text_of (some (text s)) = s
text_of _ = ""

-- data.get("name") or data.get("type") or default
unfoldable pub label_of : Definition → String → String
unfolding text_of
label_of d default = name_or_type (text_of d.name) (name_or_type (text_of d.type) default)

-- `except TypeError`
unfoldable pub as_config_error : String → Result ProbeSpec → Result ProbeSpec
as_config_error label (err type_error) = err (config (not_buildable label))
as_config_error label r = r

-- from_raw, of a mapping
unfoldable pub from_raw : Python → Definition → Result ProbeSpec
unfolding apply_aliases params_of add_unknown construct as_config_error label_of
from_raw py d = do
  let renamed = apply_aliases field_aliases d.rest
  given_params ← params_of (lookup "params" renamed)
  let fields = delete "params" renamed
  spec ← as_config_error (label_of d "<unnamed>") (construct py d.type d.name fields)
  ok (record spec { params = add_unknown fields given_params })

-- A mapping as a definition
unfoldable pub definition_of : Dict Value → Definition
definition_of d = record {
  type = lookup "type" d;
  name = lookup "name" d;
  rest = delete "name" (delete "type" d);
}
