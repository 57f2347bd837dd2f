-- ===== src/Manager/Kept.antt =====
-- The console keeps both configurations safe, and lets no exception out.
use mcshub.Base.{
  ◌≡◌, ◌≢◌, refl, Bool, true, false, Option, none, some, List, [], ◌∷◌, if◌then◌else◌, ℤ, ℕ, Text,
  str, text_eq,
}
use mcshub.Exec.{Exec, Error, Result, ok, err, crash, modify, skip, continue, handle, catch, ◌>>=◌}
use mcshub.Exec.Rules.{
  Keeps, Keeps-pure, Keeps-throw, Keeps-modify, Keeps-skip, Keeps-if, Keeps-bind, Keeps-catch,
}
use mcshub.Manager.{
  Command, stop, help, conf_reload, ping, conf_domain, conf_timeout, conf_record_set, Cli,
  RecordForm, Console, known, good_domain, in_defaults, say, say_all, set_server, set_record,
  reload, run, on_command, on_line,
}
use mcshub.ProgArgs.{Arguments}
use mcshub.Settings.{Settings}
use mcshub.Settings.Domain.{Checked, accepted, refused, check_domain}
use mcshub.Settings.Domain.Laws.{IsDomain, check_domain-IsDomain}
use mcshub.Settings.Load.{LogLevel}
use mcshub.Settings.LoadAll.{Files}
use mcshub.Settings.Reload.{reload_configuration-IsSafe}
use mcshub.Settings.Safe.{IsSafe}
use mcshub.Settings.Yaml.{Yaml}

-- The domains are well formed, and the maximal packet sizes not negative.
abbrev pub BothSafe : Console → Type 0
BothSafe c = IsSafe c.default_conf × IsSafe c.conf

say-BothSafe : (s : Text) → Keeps BothSafe (say s)
unfolding say
say-BothSafe s = Keeps-modify _ (λ c h. h)

say_all-BothSafe : (ss : List Text) → Keeps BothSafe (say_all ss)
unfolding say_all
say_all-BothSafe [] = Keeps-skip
say_all-BothSafe (s ∷ more) = Keeps-bind _ _ (say-BothSafe s) λ _. say_all-BothSafe more

pub known-Keeps : {S A : Type 0} {Holds : S → Type 0} (o : Option A) → Keeps Holds (known o)
unfolding known
known-Keeps none = Keeps-throw _
known-Keeps (some a) = Keeps-pure a

domain-BothSafe :
    (k : Checked) (b : Bool)
    → ((d : Text) → k ≡ accepted d → IsDomain d)
    → Keeps BothSafe (
        good_domain k >>= λ domain.
        if b then in_defaults (modify (λ c. record c { domain = domain })) else skip)
unfolding good_domain ◌>>=◌
domain-BothSafe (accepted d) true h = record { at = λ c s. ((h d refl, s.0.1), s.1) }
domain-BothSafe (accepted d) false h = record { at = λ c s. s }
domain-BothSafe (refused e) b h = record { at = λ c s. s }

in_defaults-BothSafe :
    {A : Type 0} (m : Exec Settings A) → Keeps IsSafe m → Keeps BothSafe (in_defaults m)
in_defaults-BothSafe m k = record { at = λ c h. (k.at c.default_conf h.0, h.1) }

set_server-IsSafe :
    (arguments : Arguments) (type : Text) (form : RecordForm)
    → Keeps IsSafe (set_server arguments type form)
unfolding set_server
set_server-IsSafe arguments type form = Keeps-modify _ (λ c h. h)

set_record-IsSafe :
    (arguments : Arguments) (type : Text) (form : RecordForm)
    → Keeps IsSafe (set_record arguments type form)
unfolding set_record
set_record-IsSafe arguments type form =
    Keeps-if (text_eq type (str "default-auto")) _ _ (Keeps-modify _ (λ c h. h)) (
      Keeps-if (text_eq type (str "default-fml")) _ _ (Keeps-modify _ (λ c h. h)) (
        Keeps-if (text_eq form.name []) _ _ (Keeps-throw _)
          (set_server-IsSafe arguments type form)))

module _ (cli : Cli) (arguments : Arguments) (y : Yaml) (level : LogLevel → ℤ)
    (get_nprocs : ℕ) where
  run-BothSafe :
      (files : Files y.Node) (command : Command)
      → Keeps BothSafe (run cli arguments y level get_nprocs files command)
  unfolding run reload
  run-BothSafe files stop = Keeps-modify _ (λ c h. h)
  run-BothSafe files help = say_all-BothSafe cli.help_lines
  run-BothSafe files ping = say-BothSafe _
  run-BothSafe files conf_reload = record {
    at = λ c h. (
      h.0,
      reload_configuration-IsSafe y arguments level get_nprocs c.default_conf files c.conf h.0 h.1,
    );
  }
  run-BothSafe files (conf_domain scope domain) =
      domain-BothSafe (check_domain domain) _ (check_domain-IsDomain domain)
  run-BothSafe files (conf_timeout scope word) =
      Keeps-bind _ _ (known-Keeps _)
        λ timeout. Keeps-if _ _ _ (in_defaults-BothSafe _ (Keeps-modify _ (λ c h. h))) Keeps-skip
  run-BothSafe files (conf_record_set scope type values) =
      Keeps-bind _ _ (record { at = λ c h. h })
        λ form.
          Keeps-if _ _ _ (in_defaults-BothSafe _ (set_record-IsSafe arguments type form)) Keeps-skip

  on_line-BothSafe :
      (lines : List (Text × Files y.Node))
      → Keeps BothSafe (on_line cli arguments y level get_nprocs lines)
  unfolding on_line on_command
  on_line-BothSafe [] = Keeps-skip
  on_line-BothSafe ((line, files) ∷ more) =
      Keeps-bind _ _
        (Keeps-catch _ _
          (Keeps-bind _ _ (known-Keeps (cli.process line)) λ command. run-BothSafe files command)
          λ e. say-BothSafe _)
        λ _. on_line-BothSafe more

  -- No exception leaves the loop's body, nor the loop.
  handle-ne-err :
      (r : Result (Unit {0})) (e : Error) (c : Console)
      → (handle r (λ x. say (cli.what x)) c).0 ≢ err e
  unfolding say modify
  handle-ne-err (ok _) e c h = cc
  handle-ne-err (err x) e c h = cc
  handle-ne-err crash e c h = cc

  on_command-ne-err :
      (files : Files y.Node) (found : Option Command) (e : Error) (c : Console)
      → (on_command cli arguments y level get_nprocs files found c).0 ≢ err e
  unfolding on_command catch
  on_command-ne-err files found e c = handle-ne-err _ e _

  continue-ne-err :
      (r : Result (Unit {0})) (f : Unit {0} → Exec Console (Unit {0})) (e : Error) (c : Console)
      → r ≢ err e
      → ((d : Console) → (f tt d).0 ≢ err e)
      → (continue r f c).0 ≢ err e
  continue-ne-err (ok _) f e c h k = k c
  continue-ne-err (err x) f e c h k = h
  continue-ne-err crash f e c h k = h

  on_line-ne-err :
      (lines : List (Text × Files y.Node)) (e : Error) (c : Console)
      → (on_line cli arguments y level get_nprocs lines c).0 ≢ err e
  unfolding on_line skip ◌>>=◌
  on_line-ne-err [] e c = λ h. cc
  on_line-ne-err ((line, files) ∷ more) e c =
      continue-ne-err _ _ e _ (on_command-ne-err files (cli.process line) e c)
        (on_line-ne-err more e)

  -- Whatever the lines that are typed and the files, no exception leaves the console, and if
  -- `default_conf` and the configuration in force are safe (the domain is well formed, and the maximal
  -- packet size not negative), both are safe afterwards.
  pub on_line-IsSafe :
      (lines : List (Text × Files y.Node)) (c : Console)
      → BothSafe c
      → ((e : Error) → (on_line cli arguments y level get_nprocs lines c).0 ≢ err e)
        × BothSafe (on_line cli arguments y level get_nprocs lines c).1
  on_line-IsSafe lines c h = (λ e. on_line-ne-err lines e c, (on_line-BothSafe lines).at c h)
