-- ===== src/Config.antt =====
-- HealthConfig of config.py: one shape from a mapping and from the environment. The settings are
-- kept by their field names. The reading of a file is not modelled, and neither is a list of probes
-- that holds specs already. What Python makes of a text is an argument.
pub mod Precedence
mod Examples
use Prim.Native.Char.{code}
use health_mon.Common.{
  ℕ, suc, zero, ◌*◌, ◌-◌, ◌/◌, Bool, true, false, ◌||◌, String, str_eq, Option, none, some, List,
  [], ◌∷◌, ◌==◌, is_some, if◌then◌else◌,
}
use health_mon.Common.Dict.{Dict, lookup, insert}
use health_mon.Probes.{
  ℤ, pos, negsuc, Special, nan, Float, finite, special, Value, null, flag, number, not_finite, text,
  items, mapping, Items, nil, cons, Entries, Python, Result, ok, err, config, not_a_mapping,
  type_error, value_error, other_error, ◌>>=◌, one, truthy,
}
use health_mon.Probes.Spec.{ProbeSpec}
use health_mon.Probes.Definition.{entries, params_of, from_raw, definition_of}

pub record Texts : Type 0 where
  pub lower : String → String
  pub strip : String → String
  pub python : Python

pub data Kind : Type 0 where
  boolean integer floating plain : Kind

-- The fields of HealthConfig but for `probes` and `restart`: their types and their defaults.
abbrev pub settings : Dict (Kind × Value)
settings =
    ("service", (plain, text "worker"))
    ∷ ("instance", (plain, text ""))
    ∷ ("version", (plain, text "0.0.0"))
    ∷ ("environment", (plain, text ""))
    ∷ ("health_host", (plain, text "0.0.0.0"))
    ∷ ("health_port", (integer, number (pos 8_080_000)))
    ∷ ("health_port_search", (integer, number (pos 0)))
    ∷ ("serve_http", (boolean, flag true))
    ∷ ("runner", (plain, text "thread"))
    ∷ ("tick", (floating, number (pos 200)))
    ∷ ("boot_grace", (floating, number (pos 30_000)))
    ∷ ("max_workers", (integer, number (pos 8_000)))
    ∷ ("loop_lag_threshold_ms", (floating, number (pos 2_000_000)))
    ∷ ("live_on_self_fault", (boolean, flag true))
    ∷ ("default_queue", (plain, text "default"))
    ∷ ("processing_check", (boolean, flag true))
    ∷ ("max_idle", (floating, number (pos 60_000)))
    ∷ ("max_since_success", (floating, number (pos 120_000)))
    ∷ ("poison_threshold", (integer, number (pos 10_000)))
    ∷ ("otel_endpoint", (plain, text ""))
    ∷ ("otel_interval", (floating, number (pos 15_000)))
    ∷ ("otel_timeout", (floating, number (pos 5_000)))
    ∷ ("otel_max_queue", (integer, number (pos 1_000_000)))
    ∷ ("otel_logs", (boolean, flag true))
    ∷ ("log_level", (plain, text "INFO"))
    ∷ ("configure_logging", (boolean, flag true))
    ∷ ("instrument", (boolean, flag true))
    ∷ ("strict_probes", (boolean, flag true))
    ∷ ("load_plugins", (boolean, flag true))
    ∷ []

abbrev pub aliases : Dict String
aliases =
    ("enabled", "serve_http")
    ∷ ("port", "health_port")
    ∷ ("host", "health_host")
    ∷ ("bind", "health_host")
    ∷ ("queue", "default_queue")
    ∷ ("grace", "boot_grace")
    ∷ ("loglevel", "log_level")
    ∷ ("service_name", "service")
    ∷ ("instance_id", "instance")
    ∷ ("env", "environment")
    ∷ ("deployment_environment", "environment")
    ∷ ("otel", "otel_endpoint")
    ∷ ("otlp_endpoint", "otel_endpoint")
    ∷ ("otel_exporter_otlp_endpoint", "otel_endpoint")
    ∷ []

or_same : String → Option String → String
or_same key none = key
or_same key (some target) = target

-- _ALIASES.get(key, key)
unfoldable pub resolve_alias : String → String
unfolding or_same lookup
resolve_alias key = or_same key (lookup key aliases)

-- `name.startswith(prefix)` and the rest of the name
unfoldable pub strip_prefix : String → String → Option String
strip_prefix String.[] name = some name
strip_prefix (String.◌∷◌ c prefix) String.[] = none
strip_prefix (String.◌∷◌ c prefix) (String.◌∷◌ d name) =
    let rest = strip_prefix prefix name in if code c == code d then rest else none

-- int(float(text)), of thousandths: towards zero
abbrev truncated : ℤ → ℤ
truncated (pos n) = pos (n / one * one)
truncated (negsuc n) = elim (suc n / one) [ zero ↦ pos 0 | suc k ↦ negsuc (suc k * one - 1) ]

is_yes : String → Bool
is_yes s = str_eq s "1" || str_eq s "true" || str_eq s "yes" || str_eq s "on"

-- float(text), and int(float(text)), which raises a ValueError for NaN and an OverflowError, which is
-- another exception, for an infinity
as_float : Option Float → Result Value
as_float none = err value_error
as_float (some (finite z)) = ok (number z)
as_float (some (special x)) = ok (not_finite x)

as_int : Option Float → Result Value
as_int none = err value_error
as_int (some (finite z)) = ok (number (truncated z))
as_int (some (special nan)) = err value_error
as_int (some (special _)) = err other_error

-- _coerce, of a text that is stripped already
unfoldable pub coerce : Texts → Kind → String → Result Value
unfolding is_yes as_float as_int
coerce py boolean s = ok (flag (is_yes (py.lower s)))
coerce py integer s = as_int (py.python.float_of s)
coerce py floating s = as_float (py.python.float_of s)
coerce py plain s = ok (text s)

pub record HealthConfig : Type 0 where
  pub fields : Dict Value
  pub probes : List ProbeSpec
  pub restart : Dict Value

default_fields : Dict (Kind × Value) → Dict Value
default_fields [] = []
default_fields ((field, (_, v)) ∷ rest) = (field, v) ∷ default_fields rest

unfoldable pub defaults : HealthConfig
unfolding default_fields
defaults = record { fields = default_fields settings; probes = []; restart = [] }

-- A loop that sets the field that each element is for, if it is for one.
set_field : Option (String × Value) → Dict Value → Dict Value
set_field none d = d
set_field (some (field, v)) d = insert field v d

unfoldable pub overlay {ℓ} :
    {A : Type ℓ} → (A → Option (String × Value)) → List A → Dict Value → Dict Value
unfolding set_field
overlay setting [] d = d
overlay setting (x ∷ rest) d = overlay setting rest (set_field (setting x) d)

-- `if target in fields: kwargs[target] = value`
unfoldable pub mapping_setting : String × Value → Option (String × Value)
unfolding resolve_alias
mapping_setting (key, v) =
    let target = resolve_alias key in
    if is_some (lookup target settings) then some (target, v) else none

-- {str(k).lower(): v for k, v in body.items()}
normalise_into : Texts → Dict Value → Dict Value → Dict Value
normalise_into py [] d = d
normalise_into py ((k, v) ∷ rest) d = normalise_into py rest (insert (py.lower k) v d)

unfoldable pub normalise : Texts → Dict Value → Dict Value
unfolding normalise_into
normalise py body = normalise_into py body []

block_of : Dict Value → Option Value → Result (Dict Value)
block_of whole none = ok whole
block_of whole (some (mapping es)) = ok (entries es)
block_of whole (some _) = err other_error

-- data.get(ROOT_KEY, data), whose items are taken
unfoldable pub body_of : Dict Value → Result (Dict Value)
unfolding block_of
body_of whole = block_of whole (lookup "worker_health" whole)

-- The mapping form of the list of probes: a block for each name
named_probes : Python → Dict Value → Result (List ProbeSpec)
named_probes py [] = ok []
named_probes py ((name, block) ∷ rest) = do
  body ← params_of (some block)
  spec ← from_raw py (definition_of (insert "name" (text name) body))
  others ← named_probes py rest
  ok (spec ∷ others)

listed_probe : Python → Value → Result ProbeSpec
listed_probe py (mapping es) = from_raw py (definition_of (entries es))
listed_probe py _ = err (config not_a_mapping)

listed_probes : Python → Items → Result (List ProbeSpec)
unfolding listed_probe
listed_probes py nil = ok []
listed_probes py (cons v rest) = do
  spec ← listed_probe py v
  others ← listed_probes py rest
  ok (spec ∷ others)

-- What is neither a mapping nor a list: the characters of a text are no mappings.
given_probes : Python → Value → Result (List ProbeSpec)
unfolding named_probes listed_probes
given_probes py (mapping es) = named_probes py (entries es)
given_probes py (items xs) = listed_probes py xs
given_probes py (text s) = err (config not_a_mapping)
given_probes py v = err type_error

-- coerce_probes
unfoldable pub coerce_probes : Python → Option Value → Result (List ProbeSpec)
unfolding given_probes
coerce_probes py none = ok []
coerce_probes py (some v) = if truthy v then given_probes py v else ok []

-- from_mapping. The values of the settings are taken as they are.
unfoldable pub from_mapping : Texts → Dict Value → Result HealthConfig
unfolding body_of normalise coerce_probes defaults overlay
from_mapping py [] = ok defaults
from_mapping py (item ∷ rest) = do
  body ← body_of (item ∷ rest)
  let normalised = normalise py body
  probes ← coerce_probes py.python (lookup "probes" normalised)
  restart ← params_of (lookup "restart" normalised)
  ok (record {
    fields = overlay mapping_setting normalised defaults.fields;
    probes = probes;
    restart = restart;
  })

-- `except (TypeError, ValueError): continue`
unless_malformed : String → Result Value → Result (Option (String × Value))
unless_malformed field (ok v) = ok (some (field, v))
unless_malformed field (err type_error) = ok none
unless_malformed field (err value_error) = ok none
unless_malformed field (err e) = err e

coerced : Texts → String → Option (Kind × Value) → String → Result (Option (String × Value))
unfolding unless_malformed
coerced py field none value = ok none
coerced py field (some (kind, _)) value = unless_malformed field (coerce py kind (py.strip value))

variable_setting : Texts → Option String → String → Result (Option (String × Value))
unfolding coerced
variable_setting py none value = ok none
variable_setting py (some name) value =
    let field = resolve_alias (py.lower name) in coerced py field (lookup field settings) value

-- The body of the loop of from_env: what a variable sets, nothing where it cannot be read.
unfoldable pub env_setting : Texts → String × String → Result (Option (String × Value))
unfolding variable_setting strip_prefix
env_setting py (name, value) = variable_setting py (strip_prefix "HEALTH_" name) value

unfoldable pub overlay_env : Texts → List (String × String) → Dict Value → Result (Dict Value)
unfolding set_field
overlay_env py [] d = ok d
overlay_env py (x ∷ rest) d = do
  setting ← env_setting py x
  overlay_env py rest (set_field setting d)

-- from_env
unfoldable pub from_env : Texts → List (String × String) → HealthConfig → Result HealthConfig
unfolding overlay_env
from_env py env base = do
  fields ← overlay_env py env base.fields
  ok (record base { fields = fields })

-- load_config, of what the file holds
unfoldable pub load_config : Texts → Dict Value → List (String × String) → Result HealthConfig
unfolding from_mapping from_env
load_config py file env = do base ← from_mapping py file; from_env py env base
