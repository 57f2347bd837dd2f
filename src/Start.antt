-- ===== src/Start.antt =====
-- `entrypoint_internal` of src/mcshub.cpp up to its event loop, and what this calls of
-- src/settings.cpp: the start of the hub.
pub mod Installed
pub mod Running
pub mod Usage
use mcshub.Base.{
  ℕ, Bool, true, false, not, ◌||◌, Option, none, some, List, [], ◌∷◌, ◌++◌, if◌then◌else◌, ℤ, Text,
  str, text_eq,
}
use mcshub.Base.Map.{Map, find, assign}
use mcshub.Exec.{
  Exec, Error, Result, ok, err, crash, other_exception, pure, throw, gets, modify, skip, ◌>>=◌,
  ◌>>◌,
}
use mcshub.ProgArgs.{Arguments}
use mcshub.ProgArgs.Options.{Outcome, done, invalid_argument, undefined, parse}
use mcshub.Settings.{Settings}
use mcshub.Settings.Load.{LogLevel}
use mcshub.Settings.LoadAll.{Files, default_conf}
use mcshub.Settings.Listener.{
  Mask, no_mask, file_mask, WatchCall, add_watch, Listening, main_conf, main_dir,
}
use mcshub.Settings.Watches.{load_watched}
use mcshub.Settings.Yaml.{Yaml}
use mcshub.Start.Usage.{usage}

-- The working directory: the contents of its files by their paths, and the directories.
pub record Disk : Type 0 where
  pub files : Map Text
  pub directories : List Text

-- `ekutils::log`: where messages go, and from which level on.
pub data Log : Type 0 where
  standard : ℤ → Log
  file : Text → ℤ → Log

unfoldable pub set_log_level : ℤ → Log → Log
set_log_level l (standard m) = standard l
set_log_level l (file path m) = file path l

-- The process: the disk, the two streams, the log, the watches, and the two configurations once they
-- are there.
pub record Process : Type 0 where
  pub disk : Disk
  pub out : Text
  pub errors : Text
  pub log : Log
  pub watches : List WatchCall
  pub default_conf : Option Settings
  pub conf : Option Settings

-- What the start uses that the repository's code does not contain: the resources and the version,
-- which the build puts in; the messages of exceptions; whether the system lets a file or a directory be
-- written; what the loading of the configuration finds on the disk; and how it goes to open a log file, and
-- then the descriptors and the workers' sockets.
pub record Surroundings (Node : Type 0) : Type 0 where
  pub build : Text
  pub mcshub_yml : Text
  pub status_json : Text
  pub login_json : Text
  pub what : Error → Text
  pub type_name : Error → Text
  pub writable : Text → Bool
  pub scan : Disk → Files Node
  pub open_log : Text → Result (Unit {0})
  pub listen : Settings → Result (Unit {0})
  pub get_nprocs : ℕ
  pub level : LogLevel → ℤ
  pub verb : Text → Outcome ℤ

abbrev main_watches : Arguments → List WatchCall
main_watches arguments =
    add_watch file_mask (arguments.confname ∷ []) main_conf
    ∷ add_watch (record no_mask { create = true; moved_to = true; in_delete = true }) (str "." ∷ [])
        main_dir
    ∷ []

unfoldable pub has_text : Text → List Text → Bool
has_text t [] = false
has_text t (u ∷ more) = text_eq t u || has_text t more

abbrev found : {A : Type 0} → Option A → Bool
found none = false
found (some a) = true

-- `fs::exists`
unfoldable pub exists : Text → Disk → Bool
unfolding has_text find
exists path d = found (find path d.files) || has_text path d.directories

unfoldable pub in_disk : {A : Type 0} → Exec Disk A → Exec Process A
in_disk m p = ((m p.disk).0, record p { disk = (m p.disk).1 })

unfoldable pub print : Text → Exec Process (Unit {0})
print s = modify (λ p. record p { out = p.out ++ s })

module _ (y : Yaml) (around : Surroundings y.Node) where
  -- An `std::ofstream` that cannot be opened writes nothing.
  unfoldable pub write_file : Text → Text → Exec Disk (Unit {0})
  unfolding assign
  write_file path text =
      if around.writable path
      then modify (λ d. record d { files = assign path text d.files })
      else skip

  unfoldable pub put_main_conf_file : Arguments → Exec Disk (Unit {0})
  unfolding write_file
  put_main_conf_file arguments = write_file arguments.confname around.mcshub_yml

  -- `fs::create_directory` on a path where nothing is.
  unfoldable pub create_directory : Text → Exec Disk (Unit {0})
  create_directory path =
      if around.writable path
      then modify (λ d. record d { directories = path ∷ d.directories })
      else throw other_exception

  unfoldable pub static_install : Arguments → Exec Disk (Unit {0})
  unfolding put_main_conf_file create_directory exists
  static_install arguments = do
    there ← gets (exists arguments.default_srv_dir)
    if there then skip else create_directory arguments.default_srv_dir
    write_file (arguments.default_srv_dir ++ b'/' ∷ arguments.status) around.status_json
    write_file (arguments.default_srv_dir ++ b'/' ∷ arguments.login) around.login_json
    put_main_conf_file arguments

  -- `load_all_conf` on a copy of `default_conf`; only a configuration that is complete is in force.
  unfoldable pub loaded : Settings → Result (Unit {0}) × Listening → Exec Process (Unit {0})
  loaded defaults (ok _, s) p =
      (ok tt, record p { default_conf = some defaults; conf = some s.new_conf; watches = s.calls })
  loaded defaults (err e, s) p =
      (err e, record p { default_conf = some defaults; watches = s.calls })
  loaded defaults (crash, s) p =
      (crash, record p { default_conf = some defaults; watches = s.calls })

  -- `settings::initialize`
  unfoldable pub initialize : Arguments → Exec Process (Unit {0})
  unfolding put_main_conf_file loaded default_conf load_watched exists
  initialize arguments = do
    there ← gets (λ p. exists arguments.confname p.disk)
    if there then skip else in_disk (put_main_conf_file arguments)
    modify (λ p. record p { watches = p.watches ++ main_watches arguments })
    λ p.
        let defaults = default_conf arguments around.get_nprocs in
        loaded defaults
          (load_watched y arguments around.level around.get_nprocs (around.scan p.disk)
            (record { new_conf = defaults; calls = p.watches }))
          p

  unfoldable pub choose_log : Settings → Exec Process (Unit {0})
  unfolding set_log_level
  choose_log c =
      if text_eq c.log (str "$std")
      then modify (λ p. record p { log = set_log_level c.verb p.log })
      else ((λ p. (around.open_log c.log, p)) >> modify (λ p. record p { log = file c.log c.verb }))

  -- From the log to the workers, under the configuration that is in force.
  unfoldable pub open_under : Option Settings → Exec Process (Unit {0})
  unfolding choose_log
  open_under none p = (crash, p)
  open_under (some c) p = (choose_log c >> (λ q. (around.listen c, q))) p

  -- The result is the exit code, or `none` where the hub goes on to its event loop.
  unfoldable pub entrypoint : Text → Arguments → Exec Process (Option ℕ)
  unfolding print static_install initialize in_disk open_under
  entrypoint exe arguments =
      if arguments.help
      then (print (usage exe) >> pure (some 0))
      else if arguments.version
      then (print (around.build ++ 10 ∷ []) >> pure (some 0))
      else if arguments.install
      then (in_disk (static_install arguments) >> pure (some 0))
      else do
        modify (λ p. record p { log = standard (around.level LogLevel.debug) })
        initialize arguments
        λ p. open_under p.conf p
        pure none
