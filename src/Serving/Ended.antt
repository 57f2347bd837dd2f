-- ===== src/Serving/Ended.antt =====
-- How the hub comes to its end.
use mcshub.Base.{◌≡◌, ◌⊎◌, Bool, true, false, ℕ, ℤ, List, [], ◌∷◌}
use mcshub.Exec.{Exec, Result, ok, crash}
use mcshub.Manager.{Cli}
use mcshub.ProgArgs.{Arguments}
use mcshub.Serving.{Progress, exits, joined, HubEvent, Hub, serve}
use mcshub.Settings.Load.{LogLevel}
use mcshub.Settings.Yaml.{Yaml}
use mcshub.Workers.{Parts, Worker}

module _ {pt : Parts} where
  -- Every loop has ended.
  abbrev pub AllStopped : List (Result Bool × Worker pt) → Type 0
  AllStopped [] = Unit {0}
  AllStopped (out ∷ more) = ((out.0 ≡ ok true) × (out.1.working ≡ false)) × AllStopped more

  abbrev Joined : List (Result Bool × Worker pt) → Type 0
  Joined outs = (AllStopped outs × (joined outs ≡ ok (exits 0))) ⊎ (joined outs ≡ crash)

module _ {pt : Parts} (cli : Cli) (arguments : Arguments) (y : Yaml) (level : LogLevel → ℤ)
    (get_nprocs : ℕ) where
  abbrev served : List (HubEvent pt y.Node) → Exec (Hub pt) Progress
  served events = serve cli arguments y level get_nprocs events
