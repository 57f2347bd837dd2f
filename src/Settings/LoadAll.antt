-- ===== src/Settings/LoadAll.antt =====
-- The initial configuration, and `load_all_conf` with the directories, src/settings.cpp.
use mcshub.Base.{
  ℕ, true, false, not, ◌&&◌, Option, none, some, List, [], ◌∷◌, ◌++◌, if◌then◌else◌, ◌==◌, ℤ, pos,
  Text, str, text_eq, get_or, length, last_char, ◌||◌,
}
use mcshub.Base.Map.{find, assign}
use mcshub.Exec.{Exec, Result, left, ok, err, crash, gets, modify, skip, ◌>>=◌, ◌>>◌}
use mcshub.ProgArgs.{Arguments}
use mcshub.Settings.{ServerRecord, Settings}
use mcshub.Settings.Load.{LogLevel, default_record, default_server_record, load_server}
use mcshub.Settings.Yaml.{Yaml, converted}
use mcshub.Settings.LoadConf.{load_settings}

-- What the directories hold: their names in the order of the iteration, and for
-- each its configuration file, which may not parse.
pub record Files (Node : Type 0) : Type 0 where
  pub main_file : Option Node
  pub directories : List (Text × Option (Option Node))

-- `/` of `std::filesystem::path`.
unfoldable pub join : Text → Text → Text
join a b =
    if get_or b 0 0 == b'/'
    then b
    else if length a == 0 || last_char a == b'/'
    then a ++ b
    else a ++ b'/' ∷ b

unfoldable pub default_conf : Arguments → ℕ → Settings
unfolding default_record
default_conf arguments get_nprocs = record {
  address = arguments.address;
  port = arguments.port;
  threads = if arguments.threads == 4294967295 then get_nprocs else arguments.threads;
  max_packet_size = pos arguments.max_packet_size;
  timeout = arguments.timeout;
  log = str "$std";
  verb = arguments.verb;
  distributed = arguments.distributed;
  domain = arguments.domain;
  default_server = record {
    base = record (default_record arguments) {
      status = join (join (str ".") arguments.default_srv_dir) arguments.status;
      login = join (join (str ".") arguments.default_srv_dir) arguments.login;
      drop = arguments.drop;
    };
    fml = none;
  };
  servers = [];
  dns_cache = not arguments.no_dns_cache;
}

unfoldable pub conf_record_mcsman : Arguments → Text → ServerRecord
unfolding join
conf_record_mcsman arguments name = record {
  base = record {
    address = name ++ str "-mcs";
    port = arguments.default_port;
    status = join (join (str ".") name) arguments.status;
    login = join (join (str ".") name) arguments.login;
    drop = false;
    mcsman = true;
    vars = (str "name", name) ∷ [];
  };
  fml = none;
}

-- `conf_instance = new_conf`, unless the loading has thrown.
unfoldable pub installed : Result (Unit {0}) × Settings → Exec Settings (Unit {0})
installed (ok _, fresh) c = (ok tt, fresh)
installed (err e, fresh) c = (err e, c)
installed (crash, fresh) c = (crash, c)

module _ (y : Yaml) (arguments : Arguments) where
  -- `node >> iter->second`, in place, or a new record that is stored when it is complete.
  unfoldable pub load_found : Text → y.Node → Option ServerRecord → Exec Settings (Unit {0})
  load_found name node (some server) = λ c.
      let r = load_server y arguments node server in
      (r.0, record c { servers = assign name r.1 c.servers })
  load_found name node none = do
    server ← λ c. (left (load_server y arguments node (default_server_record arguments)), c)
    modify (λ c. record c { servers = assign name server c.servers })

  unfoldable pub load_named : Text → y.Node → Exec Settings (Unit {0})
  unfolding load_found
  load_named name node c = load_found name node (find name c.servers) c

  -- Where the directory has a configuration file; it counts only in a distributed configuration.
  unfoldable pub load_file : Text → Option (Option y.Node) → Exec Settings (Unit {0})
  unfolding load_named
  load_file name none = skip
  load_file name (some parsed) = do
    distributed ← gets (λ c. c.distributed)
    if distributed then (do node ← converted parsed; load_named name node) else skip

  -- The body of the loop over the directories.
  unfoldable pub load_directory : Text × Option (Option y.Node) → Exec Settings (Unit {0})
  unfolding load_file conf_record_mcsman
  load_directory (name, file) = do
    if arguments.mcsman && not (text_eq name (str "default"))
        then modify
            (λ c. record c { servers = assign name (conf_record_mcsman arguments name) c.servers })
        else skip
    load_file name file

  unfoldable pub load_directories : List (Text × Option (Option y.Node)) → Exec Settings (Unit {0})
  unfolding load_directory
  load_directories [] = skip
  load_directories (d ∷ more) = do load_directory d; load_directories more

  module _ (level : LogLevel → ℤ) (get_nprocs : ℕ) where
    unfoldable pub load_all_conf : Files y.Node → Exec Settings (Unit {0})
    unfolding load_directories
    load_all_conf files = do
      node ← converted files.main_file
      load_settings y arguments level get_nprocs node
      load_directories files.directories

    -- `reload_configuration`, with the global `default_conf`; the old configuration stays where this
    -- throws.
    unfoldable pub reload_configuration : Settings → Files y.Node → Exec Settings (Unit {0})
    unfolding load_all_conf installed
    reload_configuration defaults files c = installed (load_all_conf files defaults) c
