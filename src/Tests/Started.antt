-- ===== src/Tests/Started.antt =====
-- An installation, and a hub that starts in an empty directory and finds an empty main file.
use mcshub.Base.{true, none, some, List, [], ◌∷◌, pos, str}
use mcshub.Exec.{ok}
use mcshub.ProgArgs.Options.{invalid_argument}
use mcshub.Settings.{Settings}
use mcshub.Settings.Listener.{Listening, Event, Snapshot}
use mcshub.Settings.Listener.Order.{removed, created}
use mcshub.Settings.LoadAll.{Files, default_conf}
use mcshub.Start.{Disk, Log, Process, Surroundings}
use mcshub.Tests.Documents.{Document}
use mcshub.Tests.Hub.{no_files}
use mcshub.Tests.Changed.{snapshot}
use mcshub.Tests.Units.{arguments}

abbrev pub around : Surroundings Document
around = record {
  build = str "1.0";
  mcshub_yml = str "default: drop";
  status_json = str "{}";
  login_json = str "[]";
  what = λ e. str "failed";
  type_name = λ e. str "error";
  writable = λ path. true;
  scan = λ d. no_files;
  open_log = λ path. ok tt;
  listen = λ c. ok tt;
  get_nprocs = 8;
  level = λ l. pos 4;
  verb = λ t. invalid_argument;
}

abbrev pub blank : Disk
blank = record { files = []; directories = [] }

abbrev pub process : Process
process = record {
  disk = blank;
  out = [];
  errors = [];
  log = Log.standard (pos 4);
  watches = [];
  default_conf = none;
  conf = none;
}

abbrev pub defaults : Settings
defaults = default_conf arguments 8

abbrev pub changes : List (Event × Snapshot Document)
changes = (removed (str "play"), snapshot) ∷ (created (str "play"), snapshot) ∷ []

abbrev two_directories : Files Document
two_directories = record no_files { directories = (str "play", none) ∷ (str "hub", some none) ∷ [] }

abbrev watched_before : Listening
watched_before = record { new_conf = defaults; calls = [] }
