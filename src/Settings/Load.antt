-- ===== src/Settings/Load.antt =====
-- `fill_record` and the `>>` of a server record in src/settings.cpp: from YAML to the
-- configuration. What was written before an exception stays written.
use mcshub.Base.{true, false, none, some, List, [], ◌∷◌, if◌then◌else◌, Text, str, text_eq}
use mcshub.Base.Map.{assign}
use mcshub.Exec.{
  Exec, yaml_exception, config_exception, pure, throw, gets, modify, skip, catch, ◌>>=◌, ◌>>◌,
}
use mcshub.ProgArgs.{Arguments}
use mcshub.Settings.{BasicRecord, ServerRecord, Settings}
use mcshub.Settings.Yaml.{Yaml, converted, with_field}

-- `ekutils::log_level`
pub data LogLevel : Type 0 where
  level_none fatal error warning info verbose debug : LogLevel

unfoldable pub str2lvl : {S : Type 0} → Text → Exec S LogLevel
str2lvl verb =
    if text_eq verb (str "none")
    then pure LogLevel.level_none
    else if text_eq verb (str "fatal")
    then pure LogLevel.fatal
    else if text_eq verb (str "error")
    then pure LogLevel.error
    else if text_eq verb (str "warning")
    then pure LogLevel.warning
    else if text_eq verb (str "info")
    then pure LogLevel.info
    else if text_eq verb (str "verbose")
    then pure LogLevel.verbose
    else if text_eq verb (str "debug")
    then pure LogLevel.debug
    else throw config_exception

-- The record that a configuration file starts from.
unfoldable pub default_record : Arguments → BasicRecord
default_record arguments = record {
  address = [];
  port = arguments.default_port;
  status = [];
  login = [];
  drop = false;
  mcsman = false;
  vars = [];
}

unfoldable pub default_server_record : Arguments → ServerRecord
default_server_record arguments = record { base = default_record arguments; fml = none }

abbrev pub in_base : {A : Type 0} → Exec BasicRecord A → Exec ServerRecord A
in_base m r = ((m r.base).0, record r { base = (m r.base).1 })

-- On the record that `fml.emplace` has put there.
abbrev pub in_fml : {A : Type 0} → BasicRecord → Exec BasicRecord A → Exec ServerRecord A
in_fml d m r = ((m d).0, record r { fml = some (m d).1 })

abbrev pub in_default : {A : Type 0} → Exec ServerRecord A → Exec Settings A
in_default m c = ((m c.default_server).0, record c { default_server = (m c.default_server).1 })

module _ (y : Yaml) (arguments : Arguments) where
  unfoldable pub fill_vars : List (y.Node × y.Node) → Exec BasicRecord (Unit {0})
  fill_vars [] = skip
  fill_vars ((key, value) ∷ more) = do
    v ← converted (y.as_text value)
    k ← converted (y.as_text key)
    modify (λ r. record r { vars = assign k v r.vars })
    fill_vars more

  unfoldable pub fill_fields : y.Node → Exec BasicRecord (Unit {0})
  unfolding with_field fill_vars
  fill_fields node = do
    with_field y node (str "address")
        (λ n. do v ← converted (y.as_text n); modify (λ r. record r { address = v }))
    port ← converted (y.at node (str "port"))
    elim port [
      | some n ↦ do v ← converted (y.as_uint16 n); modify (λ r. record r { port = v })
      | none ↦ modify (λ r. record r { port = arguments.default_port })
    ]
    with_field y node (str "status")
        (λ n. do v ← converted (y.as_text n); modify (λ r. record r { status = v }))
    with_field y node (str "login")
        (λ n. do v ← converted (y.as_text n); modify (λ r. record r { login = v }))
    with_field y node (str "vars") (λ n. fill_vars (y.items n))

  unfoldable pub fill_record : y.Node → Exec BasicRecord (Unit {0})
  unfolding fill_fields
  fill_record node =
      if y.is_scalar node
      then (do
        text ← converted (y.as_text node)
        if text_eq text (str "drop")
            then modify (λ r. record r { drop = true })
            else throw config_exception)
      else (do modify (λ r. record r { drop = false }); fill_fields node)

  -- The `try` block on a scalar `fml`.
  unfoldable pub fill_fml_scalar : y.Node → Exec ServerRecord (Unit {0})
  fill_fml_scalar fml =
      catch
        (do
          on ← converted (y.as_bool fml)
          if on
              then modify (λ r. record r { fml = none })
              else modify (λ r. record r { fml = some (default_record arguments) }))
        λ e. elim e [
          | yaml_exception ↦ do
            text ← converted (y.as_text fml)
            if text_eq text (str "drop")
                then modify (λ r. record r {
                  fml = some (record (default_record arguments) { drop = true });
                })
                else throw config_exception
          | other ↦ throw other
        ]

  unfoldable pub fill_fml : y.Node → Exec ServerRecord (Unit {0})
  unfolding fill_fml_scalar fill_record default_record
  fill_fml fml =
      if y.is_scalar fml
      then fill_fml_scalar fml
      else in_fml (default_record arguments) (fill_record fml)

  unfoldable pub load_server : y.Node → Exec ServerRecord (Unit {0})
  unfolding fill_fml
  load_server node = do
    in_base (fill_record node)
    drop ← gets (λ r. r.base.drop)
    if drop then skip else with_field y node (str "fml") fill_fml
