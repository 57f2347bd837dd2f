-- ===== src/Settings/Watches.antt =====
-- `load_all_conf` of src/settings.cpp as the start of the hub calls it: with watches.
pub mod Mirrors
use mcshub.Base.{
  ℕ, ℤ, Bool, true, false, not, ◌&&◌, if◌then◌else◌, Option, none, some, List, [], ◌∷◌, ◌++◌, Text,
  str, text_eq,
}
use mcshub.Base.Map.{assign}
use mcshub.Exec.{Exec, Result, modify, skip, ◌>>=◌, ◌>>◌}
use mcshub.ProgArgs.{Arguments}
use mcshub.Settings.{Settings}
use mcshub.Settings.Listener.{
  WatchCall, add_watch, Listening, in_new, call, directory_mask, file_mask, srv_conf, srv_dir,
}
use mcshub.Settings.Load.{LogLevel}
use mcshub.Settings.LoadAll.{Files, conf_record_mcsman, load_file}
use mcshub.Settings.LoadConf.{load_settings}
use mcshub.Settings.Yaml.{Yaml, converted}

module _ (arguments : Arguments) where
  abbrev pub directory_watch : Text → WatchCall
  directory_watch name = add_watch directory_mask (str "." ∷ name ∷ []) srv_dir

  abbrev pub file_watch : Text → WatchCall
  file_watch name = add_watch file_mask (str "." ∷ name ∷ arguments.confname ∷ []) srv_conf

  -- Where the directory has a configuration file.
  unfoldable pub watch_file :
      {Node : Type 0} → Text → Option (Option Node) → Exec Listening (Unit {0})
  unfolding call
  watch_file name none = skip
  watch_file name (some parsed) = call (file_watch name)

module _ (y : Yaml) (arguments : Arguments) where
  -- The body of the loop over the directories.
  unfoldable pub watch_directory : Text × Option (Option y.Node) → Exec Listening (Unit {0})
  unfolding watch_file load_file conf_record_mcsman
  watch_directory (name, file) =
      in_new (
        if arguments.mcsman && not (text_eq name (str "default"))
        then modify
            (λ c. record c { servers = assign name (conf_record_mcsman arguments name) c.servers })
        else skip)
      >> call (directory_watch arguments name)
      >> in_new (load_file y arguments name file)
      >> watch_file arguments name file

  unfoldable pub watch_directories :
      List (Text × Option (Option y.Node)) → Exec Listening (Unit {0})
  unfolding watch_directory
  watch_directories [] = skip
  watch_directories (d ∷ more) = watch_directory d >> watch_directories more

  unfoldable pub load_watched : (LogLevel → ℤ) → ℕ → Files y.Node → Exec Listening (Unit {0})
  unfolding watch_directories
  load_watched level get_nprocs files =
      in_new (do node ← converted files.main_file; load_settings y arguments level get_nprocs node)
      >> watch_directories files.directories
