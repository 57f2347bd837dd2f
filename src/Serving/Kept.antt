-- ===== src/Serving/Kept.antt =====
-- What the main thread keeps while it serves, and how it can end.
use mcshub.Base.{
  some_inj, arith, ◌≡◌, refl, sym, subst, ◌∙◌, ℕ, ℤ, Option, none, some, List, [], ◌∷◌, Text,
}
use mcshub.Exec.{Exec, Result, ok, err, crash, pure}
use mcshub.Exec.Rules.{Keeps, Keeps-pure, Keeps-if, Keeps-bind}
use mcshub.Manager.{Cli}
use mcshub.Manager.Kept.{BothSafe, on_line-IsSafe}
use mcshub.ProgArgs.{Arguments}
use mcshub.Serving.{
  Progress, serves, exits, hangs, unwound, first_hub, HubEvent, signalled, files_changed,
  lines_typed, Signal, abort, broken_pipe, termination, segmentation_fail, other, Running, Hub,
  Whole, going_on, on_signal, on_hub_event, serve, enter, going_in, entrypoint_internal,
}
use mcshub.Settings.Listener.Kept.{on_files-IsSafe}
use mcshub.Settings.Load.{LogLevel}
use mcshub.Settings.{Settings}
use mcshub.Settings.Domain.Laws.{IsDomain}
use mcshub.Settings.Safe.{IsSafe}
use mcshub.Settings.Yaml.{Yaml}
use mcshub.Start.{Process, Surroundings, entrypoint}
use mcshub.Start.Running.{IsReady, is_ready, serving-IsReady}
use mcshub.Workers.{Parts}

module _ {pt : Parts} where
  -- Both configurations are safe.
  abbrev pub SafeHub : Hub pt → Type 0
  SafeHub h = BothSafe h.console

  on_signal-SafeHub : (signal : Signal) (ws : Running pt) → Keeps SafeHub (on_signal signal ws)
  unfolding on_signal
  on_signal-SafeHub termination ws = record { at = λ h s. s }
  on_signal-SafeHub abort ws = record { at = λ h s. s }
  on_signal-SafeHub segmentation_fail ws = record { at = λ h s. s }
  on_signal-SafeHub broken_pipe ws = record { at = λ h s. s }
  on_signal-SafeHub other ws = record { at = λ h s. s }

module _ {pt : Parts} (cli : Cli) (arguments : Arguments) (y : Yaml) (level : LogLevel → ℤ)
    (get_nprocs : ℕ) where
  on_hub_event-SafeHub :
      (e : HubEvent pt y.Node) → Keeps SafeHub (on_hub_event cli arguments y level get_nprocs e)
  unfolding on_hub_event
  on_hub_event-SafeHub (signalled signal ws) = on_signal-SafeHub signal ws
  on_hub_event-SafeHub (files_changed events) =
      Keeps-bind _ _
        (record {
          at = λ h s. (
            s.0,
            on_files-IsSafe y arguments level get_nprocs h.console.default_conf s.0 events
                h.console.conf h.watches s.1,
          );
        })
        λ _. Keeps-pure serves
  on_hub_event-SafeHub (lines_typed lines) =
      Keeps-if arguments.cli _ _
        (Keeps-bind _ _
          (record {
            at = λ h s. (on_line-IsSafe cli arguments y level get_nprocs lines h.console s).1;
          })
          λ _. Keeps-pure serves)
        (Keeps-pure serves)

  going_on-SafeHub :
      (m : Exec (Hub pt) Progress) (progress : Progress)
      → Keeps SafeHub m
      → Keeps SafeHub (going_on m progress)
  going_on-SafeHub m serves k = k
  going_on-SafeHub m (exits n) k = Keeps-pure (exits n)
  going_on-SafeHub m hangs k = Keeps-pure hangs

  -- Whatever signals come, files change and lines are typed, in any order, `default_conf` and the
  -- configuration in force are safe as long as they were at the beginning, also if a handler throws.
  pub serve-SafeHub :
      (events : List (HubEvent pt y.Node)) (h : Hub pt)
      → SafeHub h
      → SafeHub (serve cli arguments y level get_nprocs events h).1
  unfolding serve pure
  serve-SafeHub [] h s = s
  serve-SafeHub (e ∷ more) h s =
      (Keeps-bind _ _ (on_hub_event-SafeHub e) λ code.
          going_on-SafeHub (serve cli arguments y level get_nprocs more) code
            (record { at = serve-SafeHub more })).at
        h s

module _ {pt : Parts} (cli : Cli) (y : Yaml) (around : Surroundings y.Node)
    (arguments : Arguments) where
  unwound-SafeHub : (out : Result Progress × Hub pt) → SafeHub out.1 → SafeHub (unwound out).1
  unfolding unwound
  unwound-SafeHub (ok progress, h) s = s
  unwound-SafeHub (err e, h) s = ground (arith, s)
  unwound-SafeHub (crash, h) s = s

  enter-SafeHub :
      (d c : Option Settings) (events : List (HubEvent pt y.Node)) (p : Process) (h : Hub pt)
      → ((d' c' : Settings) → d ≡ some d' → c ≡ some c' → IsSafe d' × IsSafe c')
      → (enter cli y around arguments d c events p).1.hub ≡ some h
      → SafeHub h
  unfolding enter
  enter-SafeHub (some d) (some c) events p h safe e = subst SafeHub (some_inj e) (
      unwound-SafeHub
        (serve cli arguments y around.level around.get_nprocs events
          (first_hub cli y around arguments d c p))
        (serve-SafeHub cli arguments y around.level around.get_nprocs events
          (first_hub cli y around arguments d c p) (safe d c refl refl)))
  enter-SafeHub (some d) none events p h safe e = absurd (cc)
  enter-SafeHub none c events p h safe e = absurd (cc)

  going_in-SafeHub :
      (events : List (HubEvent pt y.Node)) (o : Result (Option ℕ) × Process) (h : Hub pt)
      → ((q : Process) → o ≡ (ok none, q) → IsReady y arguments around cli q)
      → (going_in cli y around arguments events o).1.hub ≡ some h
      → SafeHub h
  unfolding going_in
  going_in-SafeHub events (ok none, q) h k e =
      enter-SafeHub q.default_conf q.conf events q h (λ d c ed ec. at_hand d c ed ec (k q refl)) e
    where
      at_hand :
          (d c : Settings)
          → q.default_conf ≡ some d
          → q.conf ≡ some c
          → IsReady y arguments around cli q
          → IsSafe d × IsSafe c
      at_hand d c ed ec (is_ready d' c' ed' ec' safe) = (
        subst IsSafe (some_inj (sym ed' ∙ ed)) safe.0,
        subst IsSafe (some_inj (sym ec' ∙ ec)) safe.1,
      )
  going_in-SafeHub events (ok (some code), q) h k e = absurd (cc)
  going_in-SafeHub events (err x, q) h k e = absurd (cc)
  going_in-SafeHub events (crash, q) h k e = absurd (cc)

  -- If the command line gives a domain that is well formed, then once the hub has come to its event
  -- loop, `default_conf` and the configuration in force are safe (the domain is well formed, and the
  -- maximal packet size not negative) after any signals, changes of files and lines at the console, in
  -- any order, also if a handler throws.
  pub entrypoint_internal-IsSafe :
      (exe : Text) (events : List (HubEvent pt y.Node)) (w : Whole pt) (h : Hub pt)
      → IsDomain arguments.domain
      → (entrypoint_internal cli y around arguments exe events w).1.hub ≡ some h
      → IsSafe h.console.default_conf × IsSafe h.console.conf
  unfolding entrypoint_internal
  entrypoint_internal-IsSafe exe events w h domain e =
      going_in-SafeHub events (entrypoint y around exe arguments w.process) h
        (λ q k. serving-IsReady y arguments around cli exe w.process q domain k) e
