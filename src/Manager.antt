-- ===== src/Manager.antt =====
-- src/manager.cpp: the console, whose commands change the configuration that a reload starts from.
pub mod Kept
pub mod Scopes
use mcshub.Base.{
  ℕ, ◌+◌, Bool, true, false, Option, none, some, List, [], ◌∷◌, ◌++◌, if◌then◌else◌, ltb, ℤ, pos,
  negsuc, Text, str, text_eq,
}
use mcshub.Base.Map.{Map, find, assign}
use mcshub.Exec.{
  Exec, Result, ok, err, crash, Error, other_exception, config_exception, pure, throw, gets, modify,
  skip, catch, ◌>>=◌, ◌>>◌,
}
use mcshub.ProgArgs.{Arguments}
use mcshub.Settings.{BasicRecord, ServerRecord, Settings}
use mcshub.Settings.Domain.{Checked, accepted, refused, check_domain}
use mcshub.Settings.Load.{LogLevel, default_record}
use mcshub.Settings.LoadAll.{Files, reload_configuration}
use mcshub.Settings.Yaml.{Yaml}

-- What `root.process` has recognised in a line, with the words of its forms.
pub data Command : Type 0 where
  stop help conf_reload ping : Command
  conf_domain : Text → Text → Command
  conf_timeout : Text → Text → Command
  conf_record_set : Text → Text → Map Text → Command

-- What the console asks of the libraries: the command of a line, `none` where `root.process` throws;
-- `std::stoi` and `std::stoul`, `none` where they throw; and the lines of `root.help()`.
pub record Cli : Type 0 where
  pub process : Text → Option Command
  pub stoi : Text → Option ℤ
  pub stoul : Text → Option ℕ
  pub help_lines : List Text
  pub what : Error → Text

-- `record_form`
pub record RecordForm : Type 0 where
  pub name : Text
  pub base : BasicRecord

-- What the commands change: the two configurations, the lines on the standard error, and how often the
-- process has sent itself a termination signal.
pub record Console : Type 0 where
  pub default_conf : Settings
  pub conf : Settings
  pub errors : List Text
  pub terminations : ℕ

unfoldable pub known : {S A : Type 0} → Option A → Exec S A
known none = throw other_exception
known (some a) = pure a

unfoldable pub port_in_range : ℤ → Exec RecordForm ℕ
port_in_range (pos n) = if ltb 65535 n then throw other_exception else pure n
port_in_range (negsuc n) = throw other_exception

-- `check_domain(domain)`
unfoldable pub good_domain : {S : Type 0} → Checked → Exec S Text
good_domain (accepted d) = pure d
good_domain (refused e) = throw config_exception

unfoldable pub special_assign : BasicRecord → ServerRecord → ServerRecord
special_assign other it = record { base = other; fml = it.fml }

abbrev pub in_defaults : {A : Type 0} → Exec Settings A → Exec Console A
in_defaults m c = ((m c.default_conf).0, record c { default_conf = (m c.default_conf).1 })

abbrev pub in_force : {A : Type 0} → Exec Settings A → Exec Console A
in_force m c = ((m c.conf).0, record c { conf = (m c.conf).1 })

unfoldable pub say : Text → Exec Console (Unit {0})
say s = modify (λ c. record c { errors = c.errors ++ s ∷ [] })

unfoldable pub say_all : List Text → Exec Console (Unit {0})
unfolding say
say_all [] = skip
say_all (s ∷ more) = do say s; say_all more

-- The form that `fill` leaves, where it returns.
abbrev pub filled : Result (Unit {0}) × RecordForm → Result RecordForm
filled (ok _, form) = ok form
filled (err e, form) = err e
filled (crash, form) = crash

module _ (arguments : Arguments) where
  unfoldable pub new_form : RecordForm
  unfolding default_record
  new_form = record { name = []; base = default_record arguments }

  -- `servers.emplace(form.name, default_record)`, if there is no such record, or the one there is.
  unfoldable pub found_or_new : Option ServerRecord → ServerRecord
  unfolding default_record
  found_or_new none = record { base = default_record arguments; fml = none }
  found_or_new (some server) = server

  unfoldable pub changed : Text → BasicRecord → ServerRecord → ServerRecord
  unfolding special_assign
  changed type form server =
      if text_eq type (str "auto")
      then special_assign form server
      else if text_eq type (str "fml")
      then record server { fml = some form }
      else server

  unfoldable pub set_server : Text → RecordForm → Exec Settings (Unit {0})
  unfolding found_or_new changed
  set_server type form = modify (λ c. record c {
    servers =
        assign form.name (changed type form.base (found_or_new (find form.name c.servers)))
          c.servers;
  })

  -- In the scope `default`.
  unfoldable pub set_record : Text → RecordForm → Exec Settings (Unit {0})
  unfolding special_assign set_server
  set_record type form =
      if text_eq type (str "default-auto")
      then modify (λ c. record c { default_server = special_assign form.base c.default_server })
      else if text_eq type (str "default-fml")
      then modify
          (λ c. record c { default_server = record c.default_server { fml = some form.base } })
      else if text_eq form.name []
      then throw other_exception
      else set_server type form

module _ (cli : Cli) where
  -- The body of the loop of `fill`.
  unfoldable pub fill_entry : Text → Text → Exec RecordForm (Unit {0})
  unfolding known port_in_range
  fill_entry key value =
      if text_eq key (str "address")
      then modify (λ f. record f { base = record f.base { address = value } })
      else if text_eq key (str "port")
      then (do
        number ← known (cli.stoi value)
        port ← port_in_range number
        modify (λ f. record f { base = record f.base { port = port } }))
      else if text_eq key (str "status")
      then modify (λ f. record f { base = record f.base { status = value } })
      else if text_eq key (str "login")
      then modify (λ f. record f { base = record f.base { login = value } })
      else if text_eq key (str "name")
      then modify (λ f. record f { name = value })
      else throw other_exception

  unfoldable pub fill : Map Text → Exec RecordForm (Unit {0})
  unfolding fill_entry
  fill [] = skip
  fill ((key, value) ∷ more) = do fill_entry key value; fill more

  module _ (arguments : Arguments) (y : Yaml) (level : LogLevel → ℤ) (get_nprocs : ℕ) where
    unfoldable pub reload : Files y.Node → Exec Console (Unit {0})
    unfolding reload_configuration
    reload files c =
        in_force (reload_configuration y arguments level get_nprocs c.default_conf files) c

    -- The actions; a line finds the files as they are then.
    unfoldable pub run : Files y.Node → Command → Exec Console (Unit {0})
    unfolding reload say_all say fill new_form set_record good_domain known check_domain
    run files stop = modify (λ c. record c { terminations = c.terminations + 1 })
    run files help = say_all cli.help_lines
    run files conf_reload = reload files
    run files ping = say (str "pong")
    run files (conf_domain scope domain) = do
      domain ← good_domain (check_domain domain)
      if text_eq scope (str "default")
          then in_defaults (modify (λ c. record c { domain = domain }))
          else skip
    run files (conf_timeout scope word) = do
      timeout ← known (cli.stoul word)
      if text_eq scope (str "default")
          then in_defaults (modify (λ c. record c { timeout = timeout }))
          else skip
    run files (conf_record_set scope type values) = do
      form ← λ c. (filled (fill values (new_form arguments)), c)
      if text_eq scope (str "default") then in_defaults (set_record arguments type form) else skip

    -- The body of the loop: every exception is reported.
    unfoldable pub on_command : Files y.Node → Option Command → Exec Console (Unit {0})
    unfolding run say known
    on_command files found =
        catch (do command ← known found; run files command) (λ e. say (cli.what e))

    unfoldable pub on_line : List (Text × Files y.Node) → Exec Console (Unit {0})
    unfolding on_command
    on_line [] = skip
    on_line ((line, files) ∷ more) = do on_command files (cli.process line); on_line more
