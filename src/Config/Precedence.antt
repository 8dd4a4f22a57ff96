-- ===== src/Config/Precedence.antt =====
-- Which source of the configuration decides a setting.
use health_mon.Common.{
  ◌≡◌, refl, ◌∙◌, ap, String, str_eq, Option, none, some, List, [], ◌∷◌, if◌then◌else◌, arith, All,
}
use health_mon.Common.Dict.{Dict, lookup, lookup-insert}
use health_mon.Probes.{Value, Result, ok, err, ◌>>=◌}
use health_mon.Probes.Spec.{ProbeSpec}
use health_mon.Probes.Definition.{params_of}
use health_mon.Config.{
  Texts, HealthConfig, overlay, set_field, defaults, mapping_setting, env_setting, normalise,
  body_of, coerce_probes, overlay_env, from_mapping, from_env, load_config,
}

-- The first that is there.
abbrev pub first_of : Option Value → Option Value → Option Value
first_of none other = other
first_of (some v) other = some v

for_field : String → Option (String × Value) → Option Value
for_field field none = none
for_field field (some (target, v)) = if str_eq target field then some v else none

-- What a source says of a field: its last element that is for it.
unfoldable pub says {ℓ} :
    {A : Type ℓ} → (A → Option (String × Value)) → List A → String → Option Value
unfolding for_field
says setting [] field = none
says setting (x ∷ rest) field = first_of (says setting rest field) (for_field field (setting x))

lookup-set_field :
    (field : String) (s : Option (String × Value)) (d : Dict Value)
    → lookup field (set_field s d) ≡ first_of (for_field field s) (lookup field d)
unfolding set_field for_field
lookup-set_field field none d = refl
lookup-set_field field (some (target, v)) d = ground (arith, lookup-insert target field v d)

first_of_assoc : (a b c : Option Value) → first_of a (first_of b c) ≡ first_of (first_of a b) c
first_of_assoc none b c = refl
first_of_assoc (some v) b c = refl

overlay-says {ℓ} :
    {A : Type ℓ} (setting : A → Option (String × Value)) (xs : List A) (d : Dict Value)
    (field : String)
    → lookup field (overlay setting xs d) ≡ first_of (says setting xs field) (lookup field d)
unfolding overlay says
overlay-says setting [] d field = refl
overlay-says setting (x ∷ rest) d field =
    overlay-says setting rest (set_field (setting x) d) field
    ∙ ap (first_of (says setting rest field)) (lookup-set_field field (setting x) d)
    ∙ first_of_assoc (says setting rest field) (for_field field (setting x)) (lookup field d)

-- What a variable sets, where reading it raises nothing but what from_env catches.
abbrev pub setting_of : Result (Option (String × Value)) → Option (String × Value)
setting_of (ok s) = s
setting_of (err _) = none

abbrev pub IsRead : Texts → String × String → Type 0
IsRead py x = env_setting py x ≡ ok (setting_of (env_setting py x))

overlay_env-overlay :
    (py : Texts) (env : List (String × String)) (d : Dict Value)
    → All (IsRead py) env
    → overlay_env py env d ≡ ok (overlay (λ x. setting_of (env_setting py x)) env d)
unfolding overlay_env overlay
overlay_env-overlay py [] d h = refl
overlay_env-overlay py (x ∷ rest) d h =
    ap (λ o. o >>= λ s. overlay_env py rest (set_field s d)) h.0
    ∙ overlay_env-overlay py rest (set_field (setting_of (env_setting py x)) d) h.1

-- The environment is above the file and the file above the defaults. Let the file hold a mapping
-- whose probes and restart block can be read, and let no variable raise anything but a TypeError or
-- a ValueError. Then the configuration is read, it has those probes and that block, and a setting
-- has the value of the last variable for it that can be read, else that of the last key of the
-- mapping for it, under its own name or an alias, else its default. A variable that cannot be read
-- decides nothing.
pub env_over_file_over_defaults :
    (py : Texts) (item : String × Value) (rest : Dict Value) (env : List (String × String))
    (body : Dict Value) (probes : List ProbeSpec) (restart : Dict Value) (field : String)
    → body_of (item ∷ rest) ≡ ok body
    → coerce_probes py.python (lookup "probes" (normalise py body)) ≡ ok probes
    → params_of (lookup "restart" (normalise py body)) ≡ ok restart
    → All (IsRead py) env
    → (settled : HealthConfig) × (load_config py (item ∷ rest) env ≡ ok settled)
      × (settled.probes ≡ probes)
      × (settled.restart ≡ restart)
      × (lookup field settled.fields
          ≡ first_of (says (λ x. setting_of (env_setting py x)) env field) (
              first_of
                (says mapping_setting (normalise py body) field)
                (lookup field defaults.fields)))
unfolding load_config from_mapping from_env
env_over_file_over_defaults py item rest env body probes restart field h p r reads =
    let filed = overlay mapping_setting (normalise py body) defaults.fields in
    let variable = λ (x : String × String). setting_of (env_setting py x) in
    let settled : HealthConfig = record {
      fields = overlay variable env filed;
      probes = probes;
      restart = restart;
    } in
    (
      settled,
      rw (h, p, r)
          (ap (λ o. o >>= λ fields. ok (record settled { fields = fields }))
            (overlay_env-overlay py env filed reads)),
      refl,
      refl,
      overlay-says variable env filed field
          ∙ ap (first_of (says variable env field))
              (overlay-says mapping_setting (normalise py body) defaults.fields field),
    )
