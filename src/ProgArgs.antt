-- ===== src/ProgArgs.antt =====
-- src/prog_args.cpp and src/prog_args.hpp: the command line.
pub mod Options
pub mod Gives
pub mod Bound
pub mod Forms
pub mod Reached
pub mod Decimal
pub mod Reading
pub mod Printed
use mcshub.Base.{ℕ, ◌+◌, Bool, false, List, [], Text, str, ℤ}

-- The class `arguments_t`.
pub record Arguments : Type 0 where
  pub confname : Text
  pub status : Text
  pub login : Text
  pub default_srv_dir : Text
  pub domain : Text
  pub mcsman : Bool
  pub install : Bool
  pub distributed : Bool
  pub drop : Bool
  pub address : Text
  pub port : ℕ
  pub default_port : ℕ
  pub max_packet_size : ℕ
  pub timeout : ℕ
  pub version : Bool
  pub help : Bool
  pub cli : Bool
  pub no_dns_cache : Bool
  pub threads : ℕ
  pub verb : ℤ
  pub other : List Text

-- The values before any argument is read; `verb` starts at the library's level `info`.
unfoldable pub initial_arguments : ℤ → Arguments
initial_arguments info = record {
  confname = str "mcshub.yml";
  status = str "status.json";
  login = str "login.json";
  default_srv_dir = str "default";
  domain = [];
  mcsman = false;
  install = false;
  distributed = false;
  drop = false;
  address = str "0.0.0.0";
  port = 25565;
  default_port = 25565;
  max_packet_size = 6000;
  timeout = 500;
  version = false;
  help = false;
  cli = false;
  no_dns_cache = false;
  threads = 4294967295;
  verb = info;
  other = [];
}
