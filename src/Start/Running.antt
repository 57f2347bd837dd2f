-- ===== src/Start/Running.antt =====
-- The configurations of a hub from its start on, whatever happens to its files and at its console.
use mcshub.Base.{
  some_inj, ◌≡◌, ◌≢◌, refl, sym, ap, subst, ◌∙◌, ℕ, Bool-cases, inl, inr, Option, none, some, List,
  [], ◌∷◌, ◌++◌, Text, str, text_eq,
}
use mcshub.Exec.{Exec, Result, ok, err, crash, config_exception, pure, modify, ◌>>=◌, ◌>>◌}
use mcshub.Exec.Returns.{continue_keeps, bind_returns, last_choice}
use mcshub.Manager.{Cli, Console, on_line}
use mcshub.Manager.Kept.{on_line-IsSafe}
use mcshub.ProgArgs.{Arguments}
use mcshub.Settings.{Settings}
use mcshub.Settings.Domain.Laws.{IsDomain}
use mcshub.Settings.LoadAll.{Files, default_conf}
use mcshub.Settings.Listener.{Listening, Event, Snapshot, WatchCall, on_files}
use mcshub.Settings.Listener.Kept.{on_files-IsSafe}
use mcshub.Settings.Reload.{default_conf-IsSafe, load_all_conf-IsSafe}
use mcshub.Settings.Safe.{IsSafe}
use mcshub.Settings.Watches.{load_watched}
use mcshub.Settings.Watches.Mirrors.{load_watched-load_all_conf}
use mcshub.Settings.Yaml.{Yaml}
use mcshub.Start.Usage.{usage}
use mcshub.Start.{
  Log, choose_log, Process, Surroundings, print, in_disk, static_install, loaded, initialize,
  open_under, entrypoint,
}

ok-ne-config : (r : Result (Unit {0})) → r ≡ ok tt → r ≢ err config_exception
ok-ne-config r h x = cc

exit_ne : {p q : Process} → ◌≢◌ {A = Result (Option ℕ) × Process} (ok (some 0), p) (ok none, q)
exit_ne h = cc

module _ (y : Yaml) (arguments : Arguments) (around : Surroundings y.Node) (cli : Cli) where
  -- What happens to `default_conf` and the configuration in force while the hub runs.
  pub data Step : Settings × Settings → Settings × Settings → Type 0 where
    files_changed :
        (d c : Settings) (events : List (Event × Snapshot y.Node)) (calls : List WatchCall)
        → Step
            (d, c)
            (d, (on_files y arguments around.level around.get_nprocs d events (c, calls)).1.0)
    lines_typed :
        (console : Console) (lines : List (Text × Files y.Node))
        → Step
            (console.default_conf, console.conf)
            (
              (on_line cli arguments y around.level around.get_nprocs lines console).1.default_conf,
              (on_line cli arguments y around.level around.get_nprocs lines console).1.conf,
            )

  pub data Reach (s : Settings × Settings) : Settings × Settings → Type 0 where
    here : Reach s s
    next : {t u : Settings × Settings} → Reach s t → Step t u → Reach s u

  abbrev pub BothSafe : Settings × Settings → Type 0
  BothSafe s = IsSafe s.0 × IsSafe s.1

  Step-BothSafe : {s t : Settings × Settings} → Step s t → BothSafe s → BothSafe t
  Step-BothSafe (files_changed d c events calls) h =
      (h.0, on_files-IsSafe y arguments around.level around.get_nprocs d h.0 events c calls h.1)
  Step-BothSafe (lines_typed console lines) h =
      (on_line-IsSafe cli arguments y around.level around.get_nprocs lines console h).1

  Reach-BothSafe : {s t : Settings × Settings} → Reach s t → BothSafe s → BothSafe t
  Reach-BothSafe here h = h
  Reach-BothSafe (next r step) h = Step-BothSafe step (Reach-BothSafe r h)

  -- The process has both configurations, and they are safe.
  pub data IsReady (p : Process) : Type 0 where
    is_ready :
        (d c : Settings) → p.default_conf ≡ some d → p.conf ≡ some c → BothSafe (d, c) → IsReady p

  loaded-IsReady :
      (d : Settings) (out : Result (Unit {0}) × Listening) (p q : Process)
      → IsSafe d
      → (out.0 ≡ ok tt → IsSafe out.1.new_conf)
      → loaded y around d out p ≡ (ok tt, q)
      → IsReady q
  unfolding loaded
  loaded-IsReady d (ok _, s) p q h k e =
      is_ready d s.new_conf (ap (λ (o : Result (Unit {0}) × Process). o.1.default_conf) (sym e))
        (ap (λ (o : Result (Unit {0}) × Process). o.1.conf) (sym e)) (h, k refl)
  loaded-IsReady d (err x, s) p q h k e = absurd (cc)
  loaded-IsReady d (crash, s) p q h k e = absurd (cc)

  load_watched-IsSafe :
      (files : Files y.Node) (s : Listening)
      → IsSafe s.new_conf
      → (load_watched y arguments around.level around.get_nprocs files s).0 ≡ ok tt
      → IsSafe (load_watched y arguments around.level around.get_nprocs files s).1.new_conf
  load_watched-IsSafe files s h returned =
      let e = load_watched-load_all_conf y arguments around.level around.get_nprocs files s in
      subst (λ (o : Result (Unit {0}) × Settings). IsSafe o.1) e
        ((load_all_conf-IsSafe y arguments around.level around.get_nprocs files).at s.new_conf h
          (ok-ne-config _ (ap (λ (o : Result (Unit {0}) × Settings). o.0) e ∙ returned)))

  initialize-IsReady :
      (p q : Process)
      → IsDomain arguments.domain
      → initialize y around arguments p ≡ (ok tt, q)
      → IsReady q
  unfolding initialize
  initialize-IsReady p q h e =
      let (there, r, k) = bind_returns _ _ p q tt e in
      let (a, r', k') = bind_returns _ _ _ q tt k in
      let (b, r'', k'') = bind_returns _ _ _ q tt k' in
      let safe = default_conf-IsSafe arguments around.get_nprocs h in
      loaded-IsReady (default_conf arguments around.get_nprocs) _ _ q safe
        (load_watched-IsSafe _ _ safe) k''

  logged-IsReady : {p : Process} (l : Log) → IsReady p → IsReady (record p { log = l })
  logged-IsReady l (is_ready d c ed ec h) = is_ready d c ed ec h

  choose_log-IsReady :
      (c : Settings) {p : Process} → IsReady p → IsReady (choose_log y around c p).1
  unfolding choose_log ◌>>=◌
  choose_log-IsReady c {p} h = elim (Bool-cases (text_eq c.log (str "$std"))) [
    | inl e ↦ rw (e) (logged-IsReady _ h)
    | inr e ↦
        rw (e) (continue_keeps IsReady (around.open_log c.log) _ p (λ a. logged-IsReady _ h) h)
  ]

  opened-IsReady :
      (c : Option Settings) (p : Process) → IsReady p → IsReady (open_under y around c p).1
  unfolding open_under ◌>>=◌
  opened-IsReady none p h = h
  opened-IsReady (some c) p h =
      let logged = choose_log-IsReady c h in
      continue_keeps IsReady (choose_log y around c p).0 (λ a q. (around.listen c, q))
        (choose_log y around c p).1 (λ a. logged) logged

  started-IsReady :
      (p q : Process)
      → IsDomain arguments.domain
      → (initialize y around arguments
            >> ((λ p. open_under y around p.conf p) >> pure {A = Option ℕ} none))
          p
        ≡ (ok none, q)
      → IsReady q
  unfolding pure
  started-IsReady p q h e =
      let (a, r, k) = bind_returns (initialize y around arguments) _ p q none e in
      let t = (initialize y around arguments p).1 in
      let (b, r', k') = bind_returns (λ p. open_under y around p.conf p) _ t q none k in
      subst IsReady (ap (λ (o : Result (Option ℕ) × Process). o.1) k')
        (opened-IsReady t.conf t (initialize-IsReady p t h (λ i. (r i, t))))

  no_exit :
      {A : Type 0} (m : Exec Process A) (p q : Process)
      → (m >>= λ _. pure {A = Option ℕ} (some 0)) p ≢ (ok none, q)
  unfolding pure
  no_exit m p q e =
      let (a, r, k) = bind_returns m (λ _. pure {A = Option ℕ} (some 0)) p q none e in
      absurd (exit_ne k)

  pub serving-IsReady :
      (exe : Text) (p q : Process)
      → IsDomain arguments.domain
      → entrypoint y around exe arguments p ≡ (ok none, q)
      → IsReady q
  unfolding entrypoint modify
  serving-IsReady exe p q h e =
      let (a, r, k) = bind_returns _ _ p q none (
        last_choice arguments.help arguments.version arguments.install _ _ _ _ p (ok none, q) e
          (no_exit (print (usage exe)) p q) (no_exit (print (around.build ++ 10 ∷ [])) p q)
          (no_exit (in_disk (static_install y around arguments)) p q)) in
      started-IsReady _ q h k

  -- If the command line gives a domain that is well formed, and the hub has started, then whatever
  -- happens to its files and is typed at its console, in any order, `default_conf` and the configuration
  -- in force are always safe: the domain is well formed, and the maximal packet size not negative.
  pub Reach-IsSafe :
      (exe : Text) (p q : Process) (d c : Settings) (s : Settings × Settings)
      → IsDomain arguments.domain
      → entrypoint y around exe arguments p ≡ (ok none, q)
      → q.default_conf ≡ some d
      → q.conf ≡ some c
      → Reach (d, c) s
      → IsSafe s.0 × IsSafe s.1
  Reach-IsSafe exe p q d c s h e ed ec r =
      Reach-BothSafe r (safe_pair (serving-IsReady exe p q h e))
    where
      safe_pair : IsReady q → BothSafe (d, c)
      safe_pair (is_ready d' c' ed' ec' safe) = (
        subst IsSafe (some_inj (sym ed' ∙ ed)) safe.0,
        subst IsSafe (some_inj (sym ec' ∙ ec)) safe.1,
      )
