-- ===== src/Tests/Whole.antt =====
-- A hub that starts, serves and is stopped, and the program on some command lines.
use mcshub.Base.{◌≡◌, refl, Option, none, some, List, [], ◌∷◌, ◌++◌, str, pos}
use mcshub.Exec.{Result, ◌>>=◌}
use mcshub.ProgArgs.{initial_arguments}
use mcshub.Program.{main}
use mcshub.Program.Ends.{Ends, program-Ends}
use mcshub.Serving.{
  Progress, Running, HubEvent, signalled, files_changed, abort, termination, Hub, Whole, first_hub,
  entrypoint_internal,
}
use mcshub.Serving.Kept.{entrypoint_internal-IsSafe}
use mcshub.Settings.LoadConf.{load_settings}
use mcshub.Settings.Safe.{IsSafe}
use mcshub.Settings.Yaml.{converted}
use mcshub.Tests.Documents.{Document, documents}
use mcshub.Tests.Hub.{cli, counters, two_clients, two_waits}
use mcshub.Tests.Started.{around, process, defaults, changes}
use mcshub.Tests.Units.{arguments, arguments_domain}

abbrev events : List (HubEvent counters Document)
events = signalled abort [] ∷ files_changed changes ∷ []

abbrev before : Whole counters
before = record { process = process; hub = none }

abbrev now_serving : Hub counters
now_serving = first_hub cli documents around arguments defaults defaults process

abbrev outcome : Result Progress × Whole counters
outcome = entrypoint_internal cli documents around arguments (str "mcshub") events before

abbrev the_hub : Option (Hub counters) → Hub counters
the_hub none = now_serving
the_hub (some h) = h

entered : outcome.1.hub ≡ some (the_hub outcome.1.hub)
unfolding entrypoint_internal initial_arguments ◌>>=◌ converted load_settings
entered = refl

entrypoint_internal-IsSafe_example :
    IsSafe (the_hub outcome.1.hub).console.default_conf
    × IsSafe (the_hub outcome.1.hub).console.conf
entrypoint_internal-IsSafe_example =
    entrypoint_internal-IsSafe cli documents around arguments (str "mcshub") events before
      (the_hub outcome.1.hub) arguments_domain entered

abbrev the_workers : Running counters
the_workers = (two_clients, two_waits) ∷ []

abbrev stopped_by : List (HubEvent counters Document)
stopped_by = events ++ signalled termination the_workers ∷ events

program-Ends_example : Ends cli documents around before (
    main cli documents around
      (initial_arguments (pos 4))
      events
      (str "mcshub" ∷ str "--help" ∷ [])
      before)
program-Ends_example =
    program-Ends cli documents around (initial_arguments (pos 4)) events
      (str "mcshub" ∷ str "--help" ∷ []) before refl
