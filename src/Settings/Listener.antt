-- ===== src/Settings/Listener.antt =====
-- `settings::init_listener` of src/settings.cpp: the configuration follows the files while the hub
-- runs.
pub mod Kept
pub mod Alone
pub mod Order
use mathlib.Core.List.{reverse}
use mcshub.Base.{
  ℕ, Bool, true, false, not, ◌&&◌, ◌||◌, Option, none, some, List, [], ◌∷◌, ◌++◌, if◌then◌else◌, ℤ,
  Text, str, text_eq,
}
use mcshub.Base.Map.{assign, erase}
use mcshub.Exec.{
  Exec, Result, ok, err, crash, system_error, crashed, pure, throw, gets, modify, skip, ◌>>=◌, ◌>>◌,
}
use mcshub.Exec.Guards.{catch_yaml}
use mcshub.ProgArgs.{Arguments}
use mcshub.Settings.{Settings}
use mcshub.Settings.Load.{LogLevel}
use mcshub.Settings.LoadConf.{load_settings}
use mcshub.Settings.LoadAll.{Files, conf_record_mcsman, load_named, load_all_conf}
use mcshub.Settings.Yaml.{Yaml, converted}

-- The four objects that a watch may carry.
pub data Category : Type 0 where
  main_conf main_dir srv_conf srv_dir : Category

-- `ekutils::inev::inev_t`, a bit for each.
pub record Mask : Type 0 where
  pub close_write : Bool
  pub delete_self : Bool
  pub move_self : Bool
  pub create : Bool
  pub moved_to : Bool
  pub in_delete : Bool

abbrev pub no_mask : Mask
no_mask = record {
  close_write = false;
  delete_self = false;
  move_self = false;
  create = false;
  moved_to = false;
  in_delete = false;
}

abbrev pub file_mask : Mask
file_mask = record no_mask { delete_self = true; move_self = true; close_write = true }

abbrev pub directory_mask : Mask
directory_mask = record no_mask {
  delete_self = true;
  move_self = true;
  create = true;
  moved_to = true;
}

-- An `inotify_d::event_t`; a path is the list of its components.
pub record Event : Type 0 where
  pub category : Category
  pub path : List Text
  pub subject : Text
  pub mask : Mask

-- The files as one event's handler finds them. `parse` gives nothing where `YAML::LoadFile` throws,
-- `is_directory` where the file system does.
pub record Snapshot (Node : Type 0) : Type 0 where
  pub files : Files Node
  pub parse : List Text → Option Node
  pub is_directory : Text → Option Bool

pub data WatchCall : Type 0 where
  add_watch : Mask → List Text → Category → WatchCall
  remove_watch : Event → WatchCall

-- The variables of the handler: `new_conf`, and the calls on `fs_watcher` so far.
pub record Listening : Type 0 where
  pub new_conf : Settings
  pub calls : List WatchCall

abbrev pub in_new : {A : Type 0} → Exec Settings A → Exec Listening A
in_new m s = ((m s.new_conf).0, record s { new_conf = (m s.new_conf).1 })

unfoldable pub call : WatchCall → Exec Listening (Unit {0})
call w = modify (λ s. record s { calls = s.calls ++ w ∷ [] })

unfoldable pub filename : List Text → Text
filename [] = []
filename (a ∷ []) = a
filename (a ∷ b ∷ more) = filename (b ∷ more)

-- `*(--(--path.end()))`
unfoldable pub before_last : List Text → Option Text
before_last [] = none
before_last (a ∷ []) = none
before_last (a ∷ b ∷ []) = some a
before_last (a ∷ b ∷ c ∷ more) = before_last (b ∷ c ∷ more)

unfoldable pub checked : {A : Type 0} → Option A → Exec Listening A
checked none = throw system_error
checked (some a) = pure a

-- `conf_instance = new_conf`, unless an exception has left the loop.
unfoldable pub published :
    Settings → Result (Unit {0}) × Listening → Result (Unit {0}) × (Settings × List WatchCall)
published conf (ok _, s) = (ok tt, (s.new_conf, s.calls))
published conf (err e, s) = (err e, (conf, s.calls))
published conf (crash, s) = (crash, (conf, s.calls))

-- `new_conf->servers[name] = conf_record_mcsman(name)`, with a name that mcsman serves.
unfoldable pub add_mcsman : Arguments → Text → Exec Settings (Unit {0})
unfolding conf_record_mcsman
add_mcsman arguments name =
    if arguments.mcsman && not (text_eq name (str "default"))
    then modify
        (λ c. record c { servers = assign name (conf_record_mcsman arguments name) c.servers })
    else skip

unfoldable pub forget : Text → Exec Settings (Unit {0})
unfolding erase
forget name = modify (λ c. record c { servers = erase name c.servers })

module _ (y : Yaml) (arguments : Arguments) where
  -- One server's file is read into the configuration, if the configuration is distributed.
  unfoldable pub load_server_file : Text → Option y.Node → Exec Settings (Unit {0})
  unfolding load_named converted
  load_server_file name parsed = do
    distributed ← gets (λ c. c.distributed)
    if distributed
        then catch_yaml (do node ← converted parsed; load_named y arguments name node)
        else skip

  -- 3: the file of a server.
  unfoldable pub srv_conf_changed :
      Settings → Event → Snapshot y.Node → Text → Exec Listening (Unit {0})
  unfolding load_server_file add_mcsman forget call
  srv_conf_changed old_conf event now name = do
    if event.mask.delete_self || event.mask.move_self
        then (do
          in_new (forget name)
          if old_conf.distributed then in_new (add_mcsman arguments name) else skip
          call (remove_watch event))
        else skip
    if event.mask.close_write then in_new (load_server_file name (now.parse event.path)) else skip

  unfoldable pub srv_conf_named :
      Settings → Event → Snapshot y.Node → Option Text → Exec Listening (Unit {0})
  unfolding srv_conf_changed
  srv_conf_named old_conf event now none = crashed
  srv_conf_named old_conf event now (some name) = srv_conf_changed old_conf event now name

  abbrev conf_file : Text → List Text
  conf_file name = str "." ∷ name ∷ arguments.confname ∷ []

  -- 4: the directory of a server.
  unfoldable pub srv_dir_changed : Event → Snapshot y.Node → Text → Exec Listening (Unit {0})
  unfolding load_server_file forget call
  srv_dir_changed event now name = do
    if event.mask.create || event.mask.moved_to
        then (if text_eq arguments.confname event.subject
            then (do
              in_new (load_server_file name (now.parse (conf_file name)))
              call (add_watch file_mask (conf_file name) srv_conf))
            else skip)
        else skip
    if event.mask.delete_self || event.mask.move_self
        then (do if arguments.mcsman then in_new (forget name) else skip; call (remove_watch event))
        else skip

  module _ (level : LogLevel → ℤ) (get_nprocs : ℕ) (default_conf : Settings) where
    -- 1: the main file. Everything is read again.
    unfoldable pub main_conf_changed : Event → Snapshot y.Node → Exec Listening (Unit {0})
    unfolding load_all_conf call
    main_conf_changed event now = do
      if event.mask.close_write
          then in_new (
              catch_yaml (do
                modify (λ _. default_conf)
                load_all_conf y arguments level get_nprocs now.files))
          else skip
      if event.mask.delete_self || event.mask.move_self then call (remove_watch event) else skip

    -- 2: the working directory.
    unfoldable pub main_dir_changed : Event → Snapshot y.Node → Exec Listening (Unit {0})
    unfolding load_settings add_mcsman converted checked call
    main_dir_changed event now =
        if event.mask.create || event.mask.moved_to
        then (do
          found ← checked (now.is_directory event.subject)
          if found
              then (do
                in_new (add_mcsman arguments event.subject)
                call (add_watch directory_mask (str "." ∷ event.subject ∷ []) srv_dir))
              else skip
          if text_eq event.subject arguments.confname
              then (do
                in_new (
                    catch_yaml (do
                      node ← converted (now.parse (arguments.confname ∷ []))
                      load_settings y arguments level get_nprocs node))
                call (add_watch file_mask (arguments.confname ∷ []) main_conf))
              else skip)
        else skip

    unfoldable pub dispatch :
        Category → Settings → Event → Snapshot y.Node → Exec Listening (Unit {0})
    unfolding main_conf_changed main_dir_changed srv_conf_named srv_dir_changed filename before_last
    dispatch main_conf old_conf event now = main_conf_changed event now
    dispatch main_dir old_conf event now = main_dir_changed event now
    dispatch srv_conf old_conf event now =
        srv_conf_named old_conf event now (before_last event.path)
    dispatch srv_dir old_conf event now = srv_dir_changed event now (filename event.path)

    -- The body of the loop.
    unfoldable pub on_change : Settings → Event × Snapshot y.Node → Exec Listening (Unit {0})
    unfolding dispatch
    on_change old_conf (event, now) = dispatch event.category old_conf event now

    unfoldable pub on_changes :
        Settings → List (Event × Snapshot y.Node) → Exec Listening (Unit {0})
    unfolding on_change
    on_changes old_conf [] = skip
    on_changes old_conf (e ∷ more) = do on_change old_conf e; on_changes old_conf more

    -- The handler, on the configuration in force and the calls so far: the events from the last one
    -- to the first.
    unfoldable pub on_files :
        List (Event × Snapshot y.Node) → Exec (Settings × List WatchCall) (Unit {0})
    unfolding on_changes published
    on_files events (conf, calls) =
        published conf
          (on_changes conf (reverse events) (record { new_conf = conf; calls = calls }))
