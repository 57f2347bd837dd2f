-- ===== src/Start/Installed.antt =====
-- What `--install` leaves on the disk.
use mcshub.Base.{
  ◌≡◌, refl, ◌∙◌, inl, inr, true, Bool-cases, Option, some, ◌∷◌, ◌++◌, if◌then◌else◌, Text, text_eq,
}
use mcshub.Base.Map.{Map, find, assign, find-assign}
use mcshub.Exec.{ok, ◌>>=◌}
use mcshub.ProgArgs.{Arguments}
use mcshub.Settings.Yaml.{Yaml}
use mcshub.Start.{
  Disk, Surroundings, exists, write_file, put_main_conf_file, create_directory, static_install,
}

module _ (y : Yaml) (around : Surroundings y.Node) (arguments : Arguments) where
  abbrev status_path : Text
  status_path = arguments.default_srv_dir ++ b'/' ∷ arguments.status

  abbrev login_path : Text
  login_path = arguments.default_srv_dir ++ b'/' ∷ arguments.login

  -- The three files are written, one after the other; the others stay.
  abbrev pub installed_file : Text → Map Text → Option Text
  installed_file path files =
      if text_eq arguments.confname path
      then some around.mcshub_yml
      else if text_eq login_path path
      then some around.login_json
      else if text_eq status_path path
      then some around.status_json
      else find path files

  abbrev three : Map Text → Map Text
  three files =
      assign arguments.confname around.mcshub_yml
        (assign login_path around.login_json (assign status_path around.status_json files))

  three_lem : (path : Text) (files : Map Text) → find path (three files) ≡ installed_file path files
  three_lem path files =
      find-assign arguments.confname path _ _
      ∙ rw
          (
            find-assign login_path path around.login_json
                (assign status_path around.status_json files),
            find-assign status_path path around.status_json files,
          )
          refl

  -- If the system lets the three files be written, and the directory be made where there is nothing of
  -- its name, installing returns and leaves the main configuration, the login and the status under the
  -- names of the command line, the later of these where names are the same, and all other files as they
  -- were.
  pub static_install_lem :
      (path : Text) (d : Disk)
      → around.writable arguments.confname ≡ true
      → around.writable status_path ≡ true
      → around.writable login_path ≡ true
      → around.writable arguments.default_srv_dir ≡ true
      → ((static_install y around arguments d).0 ≡ ok tt)
        × (find path (static_install y around arguments d).1.files ≡ installed_file path d.files)
  unfolding static_install put_main_conf_file write_file create_directory ◌>>=◌
  static_install_lem path d hc hs hl hd = elim (Bool-cases (exists arguments.default_srv_dir d)) [
    | inl e ↦ rw (e, hs, hl, hc) (refl, three_lem path d.files)
    | inr e ↦ rw (e, hd, hs, hl, hc) (refl, three_lem path d.files)
  ]
