-- ===== src/Serving.antt =====
-- The event loop of the main thread, the end of `entrypoint_internal` of src/mcshub.cpp: signals, the
-- files and the console.
pub mod Ended
pub mod Kept
use mcshub.Base.{
  ℕ, Bool, Option, none, some, List, [], ◌∷◌, if◌then◌else◌, ◌==◌, true, false, ℤ, Text,
}
use mcshub.Exec.{Exec, Result, ok, err, crash, pure, ◌>>=◌, ◌>>◌}
use mcshub.Manager.{Cli, Console, on_line}
use mcshub.ProgArgs.{Arguments}
use mcshub.Settings.{Settings}
use mcshub.Settings.Listener.{Event, Snapshot, WatchCall, on_files}
use mcshub.Settings.Load.{LogLevel}
use mcshub.Settings.LoadAll.{Files}
use mcshub.Settings.Yaml.{Yaml}
use mcshub.Start.{Process, Surroundings, entrypoint}
use mcshub.Workers.{Parts, Worker, Ready, terminate}

-- What `signal.read` finds; `other` is any number that has no name.
pub data Signal : Type 0 where
  abort broken_pipe termination segmentation_fail other : Signal

-- How far the program is: it serves on, it has called `std::exit` or returned with a code, or its main
-- thread waits for a worker that does not end.
pub data Progress : Type 0 where
  serves : Progress
  exits : ℕ → Progress
  hangs : Progress

-- The workers at some time, each with what its waits find from then on.
abbrev pub Running : Parts → Type 0
Running pt = List (Worker pt × List (List (Ready pt)))

-- What the main thread's `poll.wait` finds ready: the signal descriptor, the watcher of the files, or
-- the standard input. The workers run on, so a signal comes with their states at its time.
pub data HubEvent (pt : Parts) (Node : Type 0) : Type 0 where
  signalled : Signal → Running pt → HubEvent pt Node
  files_changed : List (Event × Snapshot Node) → HubEvent pt Node
  lines_typed : List (Text × Files Node) → HubEvent pt Node

-- The state of the main thread: the configurations with what the console prints, the calls on the
-- watcher, how many workers there are, and the workers that have been told to stop, with how their loops
-- ended.
pub record Hub (pt : Parts) : Type 0 where
  pub console : Console
  pub watches : List WatchCall
  pub workers : ℕ
  pub ended : List (Result Bool × Worker pt)

-- The program: the process, and its main thread once that has come to its event loop.
pub record Whole (pt : Parts) : Type 0 where
  pub process : Process
  pub hub : Option (Hub pt)

-- While one worker does not end: a crash of a later one still ends the program.
unfoldable pub held : Result Progress → Result Progress
held crash = crash
held (ok _) = ok hangs
held (err e) = ok hangs

module _ {pt : Parts} where
  -- The wait for every worker's future, and `std::exit` behind it. A crash in a worker's thread is one
  -- of the program; a worker that waits still keeps the main thread waiting; what a future holds is not
  -- looked at.
  unfoldable pub joined : List (Result Bool × Worker pt) → Result Progress
  unfolding held
  joined [] = ok (exits 0)
  joined ((ok true, w) ∷ more) = joined more
  joined ((ok false, w) ∷ more) = held (joined more)
  joined ((err e, w) ∷ more) = joined more
  joined ((crash, w) ∷ more) = crash

  -- The handler of signals.
  unfoldable pub on_signal : Signal → Running pt → Exec (Hub pt) Progress
  unfolding terminate joined
  on_signal termination ws h = (joined (terminate ws), record h { ended = terminate ws })
  on_signal abort ws h = (ok serves, h)
  on_signal segmentation_fail ws h = (ok serves, h)
  on_signal broken_pipe ws h = (ok serves, h)
  on_signal other ws h = (ok serves, h)

  -- The loop goes on, unless the program has exited or hangs.
  abbrev pub going_on : Exec (Hub pt) Progress → Progress → Exec (Hub pt) Progress
  going_on rest serves = rest
  going_on rest (exits n) = pure (exits n)
  going_on rest hangs = pure hangs

  -- An exception that leaves the event loop destroys the workers. The destructor of each one's future,
  -- which is of `std::async`, waits for its thread, and no worker has been told to stop. That the
  -- thread's listener, clients and `poll` are destroyed before, while it uses them, is left out.
  unfoldable pub unwound : Result Progress × Hub pt → Result Progress × Hub pt
  unwound (ok progress, h) = (ok progress, h)
  unwound (err e, h) = if h.workers == 0 then (err e, h) else (ok hangs, h)
  unwound (crash, h) = (crash, h)

  abbrev pub on_console : Exec Console (Unit {0}) → Exec (Hub pt) (Unit {0})
  on_console m h = ((m h.console).0, record h { console = (m h.console).1 })

  abbrev on_watcher :
      (Settings → Exec (Settings × List WatchCall) (Unit {0})) → Exec (Hub pt) (Unit {0})
  on_watcher m h =
      let out = m h.console.default_conf (h.console.conf, h.watches) in
      (out.0, record h { console = record h.console { conf = out.1.0 }; watches = out.1.1 })

  module _ (cli : Cli) (arguments : Arguments) (y : Yaml) (level : LogLevel → ℤ)
      (get_nprocs : ℕ) where
    -- The standard input is only polled if the command line asks for it.
    unfoldable pub on_hub_event : HubEvent pt y.Node → Exec (Hub pt) Progress
    unfolding on_signal on_files on_line
    on_hub_event (signalled signal ws) = on_signal signal ws
    on_hub_event (files_changed events) = do
      on_watcher (λ default_conf. on_files y arguments level get_nprocs default_conf events)
      pure serves
    on_hub_event (lines_typed lines) =
        if arguments.cli
        then (do on_console (on_line cli arguments y level get_nprocs lines); pure serves)
        else pure serves

    -- `while (true) poll.wait(-1);`: an exception of a handler leaves the loop.
    unfoldable pub serve : List (HubEvent pt y.Node) → Exec (Hub pt) Progress
    unfolding on_hub_event
    serve [] = pure serves
    serve (e ∷ more) = do code ← on_hub_event e; going_on (serve more) code

  module _ (cli : Cli) (y : Yaml) (around : Surroundings y.Node) (arguments : Arguments) where
    -- The main thread when it comes to its event loop.
    abbrev pub first_hub : Settings → Settings → Process → Hub pt
    first_hub defaults c p = record {
      console = record { default_conf = defaults; conf = c; errors = []; terminations = 0 };
      watches = p.watches;
      workers = c.threads;
      ended = [];
    }

    unfoldable pub enter :
        Option Settings
        → Option Settings
        → List (HubEvent pt y.Node)
        → Process
        → Result Progress × Whole pt
    unfolding serve unwound
    enter (some d) (some c) events p =
        let out =
          unwound (serve cli arguments y around.level around.get_nprocs events (first_hub d c p)) in
        (out.0, record { process = p; hub = some out.1 })
    enter (some d) none events p = (crash, record { process = p; hub = none })
    enter none c events p = (crash, record { process = p; hub = none })

    unfoldable pub going_in :
        List (HubEvent pt y.Node) → Result (Option ℕ) × Process → Result Progress × Whole pt
    unfolding enter
    going_in events (ok none, p) = enter p.default_conf p.conf events p
    going_in events (ok (some code), p) = (ok (exits code), record { process = p; hub = none })
    going_in events (err e, p) = (err e, record { process = p; hub = none })
    going_in events (crash, p) = (crash, record { process = p; hub = none })

    -- The whole of `entrypoint_internal`, with no `after_start`.
    unfoldable pub entrypoint_internal : Text → List (HubEvent pt y.Node) → Exec (Whole pt) Progress
    unfolding entrypoint going_in
    entrypoint_internal exe events w = going_in events (entrypoint y around exe arguments w.process)
