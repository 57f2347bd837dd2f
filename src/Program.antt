-- ===== src/Program.antt =====
-- `main` of src/main.cpp: the whole program.
pub mod Ends
use mcshub.Base.{ℕ, Option, none, some, List, [], ◌∷◌, ◌++◌, Text, str}
use mcshub.Exec.{Exec, Error, Result, ok, err, crash, other_exception}
use mcshub.Manager.{Cli}
use mcshub.ProgArgs.{Arguments}
use mcshub.ProgArgs.Options.{Outcome, done, invalid_argument, undefined, parse}
use mcshub.Serving.{Progress, exits, HubEvent, Hub, Whole, entrypoint_internal}
use mcshub.Settings.Yaml.{Yaml}
use mcshub.Start.{Process, Surroundings}
use mcshub.Workers.{Parts}

module _ {pt : Parts} where
  -- A line on the error stream.
  unfoldable pub complain : Text → Whole pt → Whole pt
  complain s w = record w {
    process = record w.process { errors = w.process.errors ++ (s ++ 10 ∷ []) };
  }

  -- Every exception that gets here is reported.
  unfoldable pub reported : (Error → Text) → Result Progress × Whole pt → Result Progress × Whole pt
  unfolding complain
  reported message (ok progress, w) = (ok progress, w)
  reported message (err e, w) = (ok (exits 1), complain (message e) w)
  reported message (crash, w) = (crash, w)

  module _ (cli : Cli) (y : Yaml) (around : Surroundings y.Node) where
    unfoldable pub run :
        Text → List (HubEvent pt y.Node) → Outcome Arguments → Exec (Whole pt) Progress
    unfolding entrypoint_internal reported
    run exe events (done arguments) w =
        reported (λ e. str "fatal error: " ++ (around.type_name e ++ (str ": " ++ around.what e)))
          (entrypoint_internal cli y around arguments exe events w)
    run exe events invalid_argument w =
        reported (λ e. str "invalid program arguments: " ++ around.what e) (err other_exception, w)
    run exe events undefined w = (crash, w)

    -- How far the program is after the events.
    unfoldable pub main :
        Arguments → List (HubEvent pt y.Node) → List Text → Exec (Whole pt) Progress
    unfolding run
    main initial events [] w = (ok (exits 1), complain (str "your system acts strange") w)
    main initial events (exe ∷ args) w = run exe events (parse around.verb args initial) w
