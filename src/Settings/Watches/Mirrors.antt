-- ===== src/Settings/Watches/Mirrors.antt =====
-- Loading with watches does to the configuration what loading without them does.
use mathlib.Core.Path.{fun_ext}
use mcshub.Base.{
  ◌≡◌, refl, sym, ap, ◌∙◌, ℕ, ℤ, Option, none, some, List, [], ◌∷◌, ◌++◌, append-nil, append_assoc,
  subst, Text,
}
use mcshub.Exec.{Exec, Result, ok, err, crash, continue, modify, skip, ◌>>=◌, ◌>>◌}
use mcshub.ProgArgs.{Arguments}
use mcshub.Settings.{Settings}
use mcshub.Settings.Listener.{WatchCall, Listening, in_new, call}
use mcshub.Settings.Load.{LogLevel}
use mcshub.Settings.LoadAll.{Files, load_file, load_directory, load_directories, load_all_conf}
use mcshub.Settings.LoadConf.{load_settings}
use mcshub.Settings.Watches.{
  directory_watch, file_watch, watch_file, watch_directory, watch_directories, load_watched,
}
use mcshub.Settings.Yaml.{Yaml, converted}

-- The outcome `p` on the configuration is the outcome `o` without the calls; where this returns, the
-- calls `made` have been added.
abbrev Agrees :
    Result (Unit {0}) × Listening
    → Result (Unit {0}) × Settings
    → List WatchCall
    → List WatchCall
    → Type 0
Agrees o p before made = (p ≡ (o.0, o.1.new_conf)) × (o.0 ≡ ok tt → o.1.calls ≡ before ++ made)

record Mirrors (m : Exec Listening (Unit {0})) (n : Exec Settings (Unit {0}))
    (made : List WatchCall) : Type 0 where
  pub at : (s : Listening) → Agrees (m s) (n s.new_conf) s.calls made

Agrees-continue :
    (o : Result (Unit {0}) × Listening) (p : Result (Unit {0}) × Settings)
    (before made : List WatchCall) {more : List WatchCall} {m : Exec Listening (Unit {0})}
    {n : Exec Settings (Unit {0})}
    → Agrees o p before made
    → Mirrors m n more
    → Agrees (continue o.0 (λ a. m) o.1) (continue p.0 (λ a. n) p.1) before (made ++ more)
Agrees-continue (ok a, t) p before made {more} {m} {n} (e, h) k = (
  rw (e) (k.at t).0,
  λ f. (k.at t).1 f ∙ ap (λ c. c ++ more) (h refl) ∙ append_assoc before made more,
)
Agrees-continue (err x, t) p before made (e, h) k = (rw (e) refl, λ f. absurd (cc))
Agrees-continue (crash, t) p before made (e, h) k = (rw (e) refl, λ f. absurd (cc))

Mirrors-bind :
    {m m' : Exec Listening (Unit {0})} {n n' : Exec Settings (Unit {0})}
    {made more : List WatchCall}
    → Mirrors m n made
    → Mirrors m' n' more
    → Mirrors (m >> m') (n >> n') (made ++ more)
unfolding ◌>>=◌
Mirrors-bind {m} {n = n} {made = made} h k = record {
  at = λ s. Agrees-continue (m s) (n s.new_conf) s.calls made (h.at s) k;
}

Mirrors-in_new : (n : Exec Settings (Unit {0})) → Mirrors (in_new n) n []
Mirrors-in_new n = record { at = λ s. (refl, λ f. sym (append-nil s.calls)) }

Mirrors-skip : Mirrors skip skip []
unfolding skip
Mirrors-skip = record { at = λ s. (refl, λ f. sym (append-nil s.calls)) }

Mirrors-call : (w : WatchCall) → Mirrors (call w) skip (w ∷ [])
unfolding call skip modify
Mirrors-call w = record { at = λ s. (refl, λ f. refl) }

-- An action of the configuration that ends with nothing to do is the same without that.
bind-skip : (n : Exec Settings (Unit {0})) → (n >> skip) ≡ n
unfolding ◌>>=◌
bind-skip n = fun_ext (λ c. skipped (n c))
  where
    skipped : (o : Result (Unit {0}) × Settings) → continue o.0 (λ a. skip) o.1 ≡ o
    skipped (ok a, c) = refl
    skipped (err e, c) = refl
    skipped (crash, c) = refl

bind_assoc :
    {A : Type 0} (m : Exec Settings A) (f : A → Exec Settings (Unit {0}))
    (n : Exec Settings (Unit {0}))
    → ((m >>= f) >> n) ≡ (m >>= λ a. (f a >> n))
unfolding ◌>>=◌
bind_assoc {A} m f n = fun_ext (λ c. moved (m c))
  where
    moved :
        (o : Result A × Settings)
        → continue (continue o.0 f o.1).0 (λ a. n) (continue o.0 f o.1).1
          ≡ continue o.0 (λ a c. continue (f a c).0 (λ b. n) (f a c).1) o.1
    moved (ok a, c) = refl
    moved (err e, c) = refl
    moved (crash, c) = refl

module _ (y : Yaml) (arguments : Arguments) where
  abbrev watched_file : Text × Option (Option y.Node) → List WatchCall
  watched_file (name, none) = []
  watched_file (name, some parsed) = file_watch arguments name ∷ []

  -- A watch for each directory, and one for each configuration file in a directory.
  abbrev pub watched : List (Text × Option (Option y.Node)) → List WatchCall
  watched [] = []
  watched ((name, file) ∷ more) =
      directory_watch arguments name ∷ (watched_file (name, file) ++ watched more)

  Mirrors-watch_file :
      (name : Text) (file : Option (Option y.Node))
      → Mirrors (watch_file arguments name file) skip (watched_file (name, file))
  unfolding watch_file
  Mirrors-watch_file name none = Mirrors-skip
  Mirrors-watch_file name (some parsed) = Mirrors-call (file_watch arguments name)

  Mirrors-watch_directory :
      (name : Text) (file : Option (Option y.Node))
      → Mirrors
          (watch_directory y arguments (name, file))
          (load_directory y arguments (name, file))
          (directory_watch arguments name ∷ watched_file (name, file))
  unfolding watch_directory load_directory
  Mirrors-watch_directory name file =
      subst
        (λ n.
          Mirrors (watch_directory y arguments (name, file)) n
            (directory_watch arguments name ∷ watched_file (name, file)))
        (bind-skip _ ∙ ap (λ n. n >> load_file y arguments name file) (bind-skip _))
        (Mirrors-bind
          (Mirrors-bind (Mirrors-bind (Mirrors-in_new _) (Mirrors-call _)) (Mirrors-in_new _))
          (Mirrors-watch_file name file))

  Mirrors-watch_directories :
      (ds : List (Text × Option (Option y.Node)))
      → Mirrors (watch_directories y arguments ds) (load_directories y arguments ds) (watched ds)
  unfolding watch_directories load_directories
  Mirrors-watch_directories [] = Mirrors-skip
  Mirrors-watch_directories ((name, file) ∷ more) =
      Mirrors-bind (Mirrors-watch_directory name file) (Mirrors-watch_directories more)

  Mirrors-load_watched :
      (level : LogLevel → ℤ) (get_nprocs : ℕ) (files : Files y.Node)
      → Mirrors
          (load_watched y arguments level get_nprocs files)
          (load_all_conf y arguments level get_nprocs files)
          (watched files.directories)
  unfolding load_watched load_all_conf
  Mirrors-load_watched level get_nprocs files =
      subst
        (λ n.
          Mirrors (load_watched y arguments level get_nprocs files) n (watched files.directories))
        (bind_assoc (converted files.main_file) (load_settings y arguments level get_nprocs) _)
        (Mirrors-bind (Mirrors-in_new _) (Mirrors-watch_directories files.directories))

  -- Loading with watches ends as loading without them does, and leaves the same configuration.
  pub load_watched-load_all_conf :
      (level : LogLevel → ℤ) (get_nprocs : ℕ) (files : Files y.Node) (s : Listening)
      → load_all_conf y arguments level get_nprocs files s.new_conf ≡ (
        (load_watched y arguments level get_nprocs files s).0,
        (load_watched y arguments level get_nprocs files s).1.new_conf,
      )
  load_watched-load_all_conf level get_nprocs files s =
      ((Mirrors-load_watched level get_nprocs files).at s).0
