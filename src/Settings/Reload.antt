-- ===== src/Settings/Reload.antt =====
-- Reloading the configuration.
use mcshub.Base.Map.{find}
use mcshub.Base.{◌≡◌, refl, Option, none, some, List, [], ◌∷◌, ℤ, ℕ, Text}
use mcshub.Exec.{Result, ok, err, crash}
use mcshub.Exec.Rules.{Keeps, Keeps-skip, Keeps-gets, Keeps-modify, Keeps-bind, Keeps-if}
use mcshub.Exec.Guards.{Guards, Keeps-Guards, Guards-bind}
use mcshub.ProgArgs.{Arguments}
use mcshub.Settings.{ServerRecord, Settings}
use mcshub.Settings.Domain.Laws.{IsDomain}
use mcshub.Settings.Load.{LogLevel}
use mcshub.Settings.LoadAll.{
  Files, default_conf, load_found, load_named, load_file, load_directory, load_directories,
  load_all_conf, reload_configuration, installed,
}
use mcshub.Settings.Yaml.{Yaml}
use mcshub.Settings.Safe.{IsSafe, converted-IsSafe, load_settings-IsSafe}

installed-IsSafe :
    (r : Result (Unit {0}) × Settings) (c : Settings)
    → IsSafe c
    → (r.0 ≡ ok tt → IsSafe r.1)
    → IsSafe (installed r c).1
unfolding installed
installed-IsSafe (ok _, fresh) c h k = k refl
installed-IsSafe (err e, fresh) c h k = h
installed-IsSafe (crash, fresh) c h k = h

module _ (y : Yaml) (arguments : Arguments) where
  load_found-IsSafe :
      (name : Text) (node : y.Node) (found : Option ServerRecord)
      → Keeps IsSafe (load_found y arguments name node found)
  unfolding load_found
  load_found-IsSafe name node (some server) = record { at = λ c h. h }
  load_found-IsSafe name node none =
      Keeps-bind _ _ (record { at = λ c h. h }) λ server. Keeps-modify _ (λ c h. h)

  pub load_named-IsSafe :
      (name : Text) (node : y.Node) → Keeps IsSafe (load_named y arguments name node)
  unfolding load_named
  load_named-IsSafe name node = record {
    at = λ c. (load_found-IsSafe name node (find name c.servers)).at c;
  }

  load_file-IsSafe :
      (name : Text) (file : Option (Option y.Node)) → Keeps IsSafe (load_file y arguments name file)
  unfolding load_file
  load_file-IsSafe name none = Keeps-skip
  load_file-IsSafe name (some parsed) = Keeps-bind _ _ (Keeps-gets _) λ distributed.
      Keeps-if _ _ _ (Keeps-bind _ _ (converted-IsSafe parsed) λ node. load_named-IsSafe name node)
        Keeps-skip

  load_directories-IsSafe :
      (ds : List (Text × Option (Option y.Node))) → Keeps IsSafe (load_directories y arguments ds)
  unfolding load_directories load_directory
  load_directories-IsSafe [] = Keeps-skip
  load_directories-IsSafe ((name, file) ∷ more) =
      Keeps-bind _ _
        (Keeps-bind _ _ (Keeps-if _ _ _ (Keeps-modify _ (λ c h. h)) Keeps-skip)
          λ _. load_file-IsSafe name file)
        λ _. load_directories-IsSafe more

  module _ (level : LogLevel → ℤ) (get_nprocs : ℕ) where
    pub load_all_conf-IsSafe :
        (files : Files y.Node) → Guards IsSafe (load_all_conf y arguments level get_nprocs files)
    unfolding load_all_conf
    load_all_conf-IsSafe files =
        Guards-bind _ _ (Keeps-Guards _ (converted-IsSafe files.main_file)) λ node.
          Guards-bind _ _ (load_settings-IsSafe y arguments level get_nprocs node)
            λ _. Keeps-Guards _ (load_directories-IsSafe files.directories)

    -- If `default_conf` and the configuration in force are safe (the domain is well formed, and the
    -- maximal packet size not negative), the configuration in force after a reload is safe, whatever
    -- the files hold, a reload that throws included.
    pub reload_configuration-IsSafe :
        (defaults : Settings) (files : Files y.Node) (c : Settings)
        → IsSafe defaults
        → IsSafe c
        → IsSafe (reload_configuration y arguments level get_nprocs defaults files c).1
    unfolding reload_configuration
    reload_configuration-IsSafe defaults files c d h =
        installed-IsSafe _ c h λ e. (load_all_conf-IsSafe files).at defaults d (λ r. cc)

-- The first `default_conf` is safe if the command line gives a domain that is well formed, which
-- nothing checks.
pub default_conf-IsSafe :
    (arguments : Arguments) (get_nprocs : ℕ)
    → IsDomain arguments.domain
    → IsSafe (default_conf arguments get_nprocs)
unfolding default_conf
default_conf-IsSafe arguments get_nprocs d = (d, tt)
