-- ===== src/Config/Examples.antt =====
-- A configuration from a file and the environment, as tests.
use health_mon.Common.{
  ℕ, ◌≡◌, refl, Bool, true, false, String, str_eq, Option, none, some, List, [], ◌∷◌, if◌then◌else◌,
  All,
}
use health_mon.Common.Dict.{Dict, lookup}
use health_mon.Probes.{
  Value, number, text, flag, pos, null, mapping, entry, end, ℤ, Result, ok, err, other_error,
  finite, special, infinity,
}
use health_mon.Probes.Definition.{params_of}
use health_mon.Config.{
  Texts, HealthConfig, defaults, env_setting, mapping_setting, normalise, body_of, coerce_probes,
  load_config, coerce, Kind, integer,
}
use health_mon.Config.Precedence.{setting_of, IsRead, says, first_of, env_over_file_over_defaults}

-- An interpreter for the texts below.
abbrev py : Texts
py = record {
  lower = λ s. if str_eq s "PORT" then "port" else (if str_eq s "TICK" then "tick" else s);
  strip = λ s. s;
  python = record {
    float_of = λ s.
        if str_eq s "9090"
        then some (finite (pos 9_090_000))
        else (if str_eq s "inf" then some (special infinity) else none);
    int_of = λ _. none;
  };
}

abbrev file : Dict Value
file =
    ("PORT", number (pos 8_081_000)) ∷ ("tick", number (pos 500)) ∷ ("queue", text "billing") ∷ []

abbrev env : List (String × String)
env = ("HEALTH_PORT", "9090") ∷ ("HEALTH_TICK", "soon") ∷ ("PATH", "/bin") ∷ []

body : body_of file ≡ ok file
unfolding body_of lookup
body = refl

-- The variable wins, the one that cannot be read is skipped, an alias is resolved.
port : says (λ x. setting_of (env_setting py x)) env "health_port" ≡ some (number (pos 9_090_000))
unfolding says env_setting lookup health_mon.Config.resolve_alias coerce
port = refl

tick : says (λ x. setting_of (env_setting py x)) env "tick" ≡ none
unfolding says env_setting lookup health_mon.Config.resolve_alias coerce
tick = refl

queue : says mapping_setting (normalise py file) "default_queue" ≡ some (text "billing")
unfolding says normalise health_mon.Common.Dict.insert mapping_setting
queue = refl

-- The part under the root key is what counts.
rooted :
    body_of (("app", text "x") ∷ ("worker_health", mapping (entry "tick" null end)) ∷ [])
    ≡ ok (("tick", null) ∷ [])
unfolding body_of lookup health_mon.Probes.Definition.entries health_mon.Common.Dict.insert
rooted = refl

whole_number : coerce py integer "9090" ≡ ok (number (pos 9_090_000))
unfolding coerce
whole_number = refl

-- An infinite port is no malformed override that is passed over: it ends the start of the worker.
infinite_port : load_config py file (("HEALTH_PORT", "inf") ∷ []) ≡ err other_error
unfolding load_config lookup normalise coerce_probes params_of env_setting coerce
    health_mon.Common.Dict.insert health_mon.Config.resolve_alias
infinite_port = refl

env-IsRead : All (IsRead py) env
unfolding env_setting coerce lookup health_mon.Config.resolve_alias
env-IsRead = (refl, (refl, (refl, tt)))

env_over_file_over_defaults_example :
    (settled : HealthConfig) × (load_config py file env ≡ ok settled)
    × (settled.probes ≡ [])
    × (settled.restart ≡ [])
    × (lookup "health_port" settled.fields
        ≡ first_of (says (λ x. setting_of (env_setting py x)) env "health_port") (
            first_of
              (says mapping_setting (normalise py file) "health_port")
              (lookup "health_port" defaults.fields)))
unfolding coerce_probes params_of normalise lookup health_mon.Common.Dict.insert
env_over_file_over_defaults_example =
    env_over_file_over_defaults py ("PORT", number (pos 8_081_000))
      (("tick", number (pos 500)) ∷ ("queue", text "billing") ∷ []) env file [] [] "health_port"
      body refl refl env-IsRead
