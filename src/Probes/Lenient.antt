-- ===== src/Probes/Lenient.antt =====
-- The list of probes with `strict` off: a registered check for each element, a broken one included.
use health_mon.Common.{
  ◌<◌, ◌≡◌, refl, Bool, true, false, ◌||◌, String, List, [], ◌∷◌, All, arith, str_eq, is_some, map,
}
use health_mon.Common.Dict.{Dict, lookup}
use health_mon.Machine
use health_mon.Machine.Check.{CheckSpec, backoff_base}
use health_mon.Monitor.{Monitor, register}
use health_mon.Monitor.Sound.{Has, IsSound}
use health_mon.Monitor.Calls.{register-IsSound, register-Has}
use health_mon.Probes.{
  Value, ◌>>=◌, config, type_error, value_error, other_error, unmodelled, Result, ok, err, Python,
}
use health_mon.Probes.Spec.{ProbeSpec, registration}
use health_mon.Probes.Definition.{is_in}
use health_mon.Probes.Context.{found}
use health_mon.Probes.Factory.{
  Builder, BuiltCheck, keep_check, install_broken, install_unparsable, install_parsed,
  default_settings, create, install, Raw, name_of, parse, Installed, install_one,
  install_from_config,
}
use health_mon.Probes.Bounds.{InBounds}
use health_mon.Probes.Tame.{Tame, CalmBuilder, create-Tame}

-- A parsed spec is in bounds, and a definition that does not parse raises a ProbeConfigError. So no
-- text that is no number stands where one is due, `params` is a mapping or empty, a `type` and a
-- `name` are texts or empty, and no number is NaN or infinite.
abbrev Parses : Result ProbeSpec → Type 0
Parses (ok s) = InBounds s
Parses o = Tame o

abbrev pub IsProper : Python → Raw → Type 0
IsProper py raw = Parses (parse py raw)

name_in : Raw → Result ProbeSpec → String
name_in raw (ok s) = s.name
name_in raw (err e) = name_of raw

-- The name that an element of the list of probes is registered under.
unfoldable pub registered_name : Python → Raw → String
unfolding name_in
registered_name py raw = name_in raw (parse py raw)

-- A step of the loop returns: the monitor is sound, has the name and has lost none.
abbrev Installs : Monitor → String → Result Installed → Type 0
Installs m name o =
    (found : Installed) × (o ≡ ok found)
    × IsSound found.0
    × ((k : String)
        → (str_eq name k || is_some (lookup k m.machine.specs)) ≡ true
        → Has found.0.machine k)

register-Installs :
    (m : Monitor) (spec : CheckSpec) (done : List BuiltCheck)
    → 0 < spec.failure_threshold
    → IsSound m
    → Installs m spec.name (ok (register m spec, done))
register-Installs m spec done p sound =
    ((register m spec, done), refl, register-IsSound m spec p sound, register-Has m spec)

keep_check-Installs :
    (m : Monitor) (s : ProbeSpec) (o : Result BuiltCheck) (done : List BuiltCheck)
    → InBounds s
    → IsSound m
    → Tame o
    → Installs m s.name (
        keep_check false (o >>= λ c. ok (register m (registration s), c)) (install_broken m s) done)
unfolding keep_check install_broken registration
keep_check-Installs m s (ok c) done b sound t =
    register-Installs m (registration s) _ b.fails_pos sound
keep_check-Installs m s (err (config e)) done b sound t =
    register-Installs m (registration s) done b.fails_pos sound
keep_check-Installs m s (err type_error) done b sound t = absurd (ground arith)
keep_check-Installs m s (err value_error) done b sound t = absurd (ground arith)
keep_check-Installs m s (err other_error) done b sound t = absurd (ground arith)
keep_check-Installs m s (err unmodelled) done b sound t = absurd (ground arith)

install_parsed-Installs :
    (py : Python) (builders : Dict Builder) (context : Dict Value) (raw : Raw)
    (o : Result ProbeSpec) (m : Monitor) (done : List BuiltCheck)
    → Parses o
    → All CalmBuilder builders
    → IsSound m
    → Installs m (name_in raw o) (install_parsed false py builders context raw o (m, done))
unfolding install_parsed install install_unparsable name_in health_mon.Machine.Check.post_init
install_parsed-Installs py builders context raw (ok s) m done b calm sound =
    keep_check-Installs m s (create py builders s context) done b sound
      (create-Tame py builders s context b calm)
install_parsed-Installs py builders context raw (err (config e)) m done b calm sound =
    register-Installs m (default_settings (name_of raw)) done (omega arith) sound
install_parsed-Installs py builders context raw (err type_error) m done b calm sound =
    absurd (ground arith)
install_parsed-Installs py builders context raw (err value_error) m done b calm sound =
    absurd (ground arith)
install_parsed-Installs py builders context raw (err other_error) m done b calm sound =
    absurd (ground arith)
install_parsed-Installs py builders context raw (err unmodelled) m done b calm sound =
    absurd (ground arith)

kept_or_named :
    (a b c d : Bool) → ((a || b) || c) ≡ true → ((a || c) ≡ true → d ≡ true) → (b || d) ≡ true
kept_or_named a b c d h f = ground arith

-- With `strict` off the installation of a list of probes returns, where each element that is a spec
-- is in bounds and each other element parses or is refused by a ProbeConfigError, and where the
-- builders raise nothing but ProbeConfigErrors: the monitor stays sound, and a check is registered
-- under the name of every element, a placeholder for one that is refused or that cannot be built,
-- besides the checks from before. An element that raises anything else is excluded: a text that is
-- no number where a number is due, `params` that are neither a mapping nor empty, a `type` or a
-- `name` that is neither a text nor empty, a number that is NaN or infinite.
pub lenient_install :
    (py : Python) (builders : Dict Builder) (context : Dict Value) (raws : List Raw) (m : Monitor)
    (done : List BuiltCheck) (k : String)
    → All (IsProper py) raws
    → All CalmBuilder builders
    → IsSound m
    → (is_in k (map (registered_name py) raws) || is_some (lookup k m.machine.specs)) ≡ true
    → (found : Installed) × (install_from_config false py builders context raws (m, done)
        ≡ ok found)
      × IsSound found.0
      × Has found.0.machine k
unfolding install_from_config install_one registered_name
lenient_install py builders context [] m done k p calm sound h = ((m, done), refl, sound, h)
lenient_install py builders context (raw ∷ rest) m done k p calm sound h =
    let ((m1, done1), e1, s1, keeps) =
      install_parsed-Installs py builders context raw (parse py raw) m done p.0 calm sound in
    let (found, e, s, has) = lenient_install py builders context rest m1 done1 k p.1 calm s1 (
      kept_or_named (str_eq (registered_name py raw) k) (is_in k (map (registered_name py) rest))
        (is_some (lookup k m.machine.specs)) (is_some (lookup k m1.machine.specs)) h (keeps k)) in
    (found, rw e1 e, s, has)
