-- ===== src/Program/Ends.antt =====
-- How the program ends.
use mcshub.Base.{
  arith, ◌≡◌, ◌≢◌, refl, sym, ◌∙◌, ◌⊎◌, inl, inr, ◌==◌, some_inj, subst, ap, ℕ, Bool, true, false,
  Option, none, some, List, [], ◌∷◌, ◌++◌, if◌then◌else◌, Text, str,
}
use mcshub.Exec.{Exec, Error, Result, ok, err, crash, other_exception, continue, pure, ◌>>=◌, ◌>>◌}
use mcshub.Exec.Rules.{
  Keeps, Keeps-bind, Keeps-if, Keeps-skip, Keeps-modify, Keeps-gets, Keeps-pure,
}
use mcshub.Manager.{Cli, on_line}
use mcshub.Program.{complain, reported, run, main}
use mcshub.ProgArgs.{Arguments}
use mcshub.ProgArgs.Options.{Outcome, done, invalid_argument, undefined, parse}
use mcshub.Serving.{
  Progress, serves, exits, hangs, held, joined, unwound, first_hub, on_console, HubEvent, signalled,
  files_changed, lines_typed, abort, broken_pipe, termination, segmentation_fail, other, Hub, Whole,
  going_on, on_signal, on_hub_event, serve, enter, going_in, entrypoint_internal,
}
use mcshub.Settings.{Settings}
use mcshub.Settings.Listener.{Listening}
use mcshub.Settings.Yaml.{Yaml}
use mcshub.Start.{
  Process, Surroundings, print, in_disk, loaded, initialize, choose_log, open_under, entrypoint,
}
use mcshub.Workers.{Parts, Worker, terminate}

-- The only exit code.
abbrev IsZero : Result (Option ℕ) → Type 0
IsZero (ok (some n)) = n ≡ 0
IsZero (ok none) = Unit {0}
IsZero (err e) = Unit {0}
IsZero crash = Unit {0}

abbrev Zero : {S : Type 0} → Result (Option ℕ) × S → Type 0
Zero out = IsZero out.0

line_ne : (s : Text) → s ++ 10 ∷ [] ≢ []
line_ne [] e = cc
line_ne (c ∷ s) e = cc

Zero-continue :
    {S A : Type 0} (r : Result A) (f : A → Exec S (Option ℕ)) (s : S)
    → ((a : A) (t : S) → Zero (f a t))
    → Zero (continue r f s)
Zero-continue (ok a) f s h = h a s
Zero-continue (err e) f s h = tt
Zero-continue crash f s h = tt

Zero-bind :
    {S A : Type 0} (m : Exec S A) (f : A → Exec S (Option ℕ)) (s : S)
    → ((a : A) (t : S) → Zero (f a t))
    → Zero ((m >>= f) s)
unfolding ◌>>=◌
Zero-bind m f s h = Zero-continue (m s).0 f (m s).1 h

Zero-if :
    {S : Type 0} (b : Bool) (m n : Exec S (Option ℕ)) (s : S)
    → Zero (m s)
    → Zero (n s)
    → Zero ((if b then m else n) s)
Zero-if true m n s h k = h
Zero-if false m n s h k = k

module _ (y : Yaml) (around : Surroundings y.Node) (arguments : Arguments) where
  entrypoint-Zero : (exe : Text) (p : Process) → Zero (entrypoint y around exe arguments p)
  unfolding entrypoint pure
  entrypoint-Zero exe p = Zero-if arguments.help _ _ p (Zero-bind _ _ p (λ a t. refl)) (
      Zero-if arguments.version _ _ p (Zero-bind _ _ p (λ a t. refl)) (
        Zero-if arguments.install _ _ p (Zero-bind _ _ p (λ a t. refl))
          (Zero-bind _ _ p (λ a t. Zero-bind _ _ t (λ b u. Zero-bind _ _ u (λ c v. tt))))))

  -- The start says nothing on the error stream.
  abbrev Quiet : Text → Process → Type 0
  Quiet s p = p.errors ≡ s

  loaded-Quiet :
      (s : Text) (d : Settings) (out : Result (Unit {0}) × Listening)
      → Keeps (Quiet s) (loaded y around d out)
  unfolding loaded
  loaded-Quiet s d (ok _, l) = record { at = λ p h. h }
  loaded-Quiet s d (err e, l) = record { at = λ p h. h }
  loaded-Quiet s d (crash, l) = record { at = λ p h. h }

  initialize-Quiet : (s : Text) → Keeps (Quiet s) (initialize y around arguments)
  unfolding initialize in_disk
  initialize-Quiet s = Keeps-bind _ _ (Keeps-gets _) λ there.
      Keeps-bind _ _ (Keeps-if there _ _ Keeps-skip (record { at = λ p h. h })) λ _.
        Keeps-bind _ _ (Keeps-modify _ (λ p h. h))
          λ _. record { at = λ p h. (loaded-Quiet s _ _).at p h }

  choose_log-Quiet : (s : Text) (c : Settings) → Keeps (Quiet s) (choose_log y around c)
  unfolding choose_log
  choose_log-Quiet s c =
      Keeps-if _ _ _ (Keeps-modify _ (λ p h. h))
        (Keeps-bind _ _ (record { at = λ p h. h }) λ _. Keeps-modify _ (λ p h. h))

  open_under-Quiet : (s : Text) (c : Option Settings) → Keeps (Quiet s) (open_under y around c)
  unfolding open_under
  open_under-Quiet s none = record { at = λ p h. h }
  open_under-Quiet s (some c) = record {
    at = λ p h. (Keeps-bind _ _ (choose_log-Quiet s c) λ _. record { at = λ q k. k }).at p h;
  }

  entrypoint-Quiet : (s exe : Text) → Keeps (Quiet s) (entrypoint y around exe arguments)
  unfolding entrypoint in_disk print
  entrypoint-Quiet s exe =
      Keeps-if arguments.help _ _ (Keeps-bind _ _ (Keeps-modify _ (λ p h. h)) λ _. Keeps-pure _) (
        Keeps-if arguments.version _ _
          (Keeps-bind _ _ (Keeps-modify _ (λ p h. h)) λ _. Keeps-pure _)
          (Keeps-if arguments.install _ _
            (Keeps-bind _ _ (record { at = λ p h. h }) λ _. Keeps-pure _)
            (Keeps-bind _ _ (Keeps-modify _ (λ p h. h)) λ _.
              Keeps-bind _ _ (initialize-Quiet s) λ _.
                Keeps-bind _ _ (record { at = λ p h. (open_under-Quiet s p.conf).at p h })
                  λ _. Keeps-pure _)))

-- An exit of the inner part is one with 0.
abbrev IsDone : Result Progress → Type 0
IsDone (ok serves) = Unit {0}
IsDone (ok (exits n)) = n ≡ 0
IsDone (ok hangs) = Unit {0}
IsDone (err e) = Unit {0}
IsDone crash = Unit {0}

held-IsDone : (r : Result Progress) → IsDone (held r)
unfolding held
held-IsDone (ok p) = tt
held-IsDone (err e) = tt
held-IsDone crash = tt

neither :
    {r : Result Progress} {A : Type 0}
    → r ≢ ok serves
    → r ≢ ok hangs
    → (r ≡ ok serves) ⊎ (r ≡ ok hangs)
    → A
neither a b (inl e) = absurd (a e)
neither a b (inr e) = absurd (b e)

module _ {pt : Parts} where
  joined-IsDone : (outs : List (Result Bool × Worker pt)) → IsDone (joined outs)
  unfolding joined
  joined-IsDone [] = refl
  joined-IsDone ((ok true, w) ∷ more) = joined-IsDone more
  joined-IsDone ((ok false, w) ∷ more) = held-IsDone (joined more)
  joined-IsDone ((err e, w) ∷ more) = joined-IsDone more
  joined-IsDone ((crash, w) ∷ more) = tt

  served-IsDone :
      {A : Type 0} (m : Exec (Hub pt) A) (h : Hub pt) → IsDone ((m >>= λ _. pure serves) h).0
  unfolding ◌>>=◌ pure
  served-IsDone {A = A} m h = by_result (m h).0
    where
      by_result : (r : Result A) → IsDone (continue r (λ _. pure serves) (m h).1).0
      by_result (ok a) = tt
      by_result (err e) = tt
      by_result crash = tt

  going_on-IsDone :
      (r : Result Progress) (m : Exec (Hub pt) Progress) (h : Hub pt)
      → IsDone r
      → ((g : Hub pt) → IsDone (m g).0)
      → IsDone (continue r (going_on m) h).0
  unfolding pure
  going_on-IsDone (ok serves) m h z k = k h
  going_on-IsDone (ok (exits n)) m h z k = z
  going_on-IsDone (ok hangs) m h z k = tt
  going_on-IsDone (err e) m h z k = tt
  going_on-IsDone crash m h z k = tt

  -- What is left when the event loop has been left: an exit is one with 0, and an exception goes on only
  -- when there is no worker.
  abbrev IsLeft : Result Progress × Hub pt → Type 0
  IsLeft (r, h) = IsDone r × ((e : Error) → r ≡ err e → h.workers ≡ 0)

  unwound-IsLeft : (out : Result Progress × Hub pt) → IsDone out.0 → IsLeft (unwound out)
  unfolding unwound
  unwound-IsLeft (ok p, h) z = (z, λ e q. absurd (cc))
  unwound-IsLeft (crash, h) z = (z, λ e q. absurd (cc))
  unwound-IsLeft (err x, h) z = by_test (h.workers == 0) refl
    where
      by_test : (b : Bool) → (h.workers == 0) ≡ b → IsLeft (if b then (err x, h) else (ok hangs, h))
      by_test true q = (tt, λ e _. ground arith)
      by_test false q = (tt, λ e k. absurd (cc))

module _ {pt : Parts} (cli : Cli) (y : Yaml) (around : Surroundings y.Node) where
  on_hub_event-IsDone :
      (arguments : Arguments) (e : HubEvent pt y.Node) (h : Hub pt)
      → IsDone (on_hub_event cli arguments y around.level around.get_nprocs e h).0
  unfolding on_hub_event on_signal pure
  on_hub_event-IsDone arguments (signalled abort ws) h = tt
  on_hub_event-IsDone arguments (signalled broken_pipe ws) h = tt
  on_hub_event-IsDone arguments (signalled termination ws) h = joined-IsDone (terminate ws)
  on_hub_event-IsDone arguments (signalled segmentation_fail ws) h = tt
  on_hub_event-IsDone arguments (signalled other ws) h = tt
  on_hub_event-IsDone arguments (files_changed events) h = served-IsDone _ h
  on_hub_event-IsDone arguments (lines_typed lines) h = if_typed arguments.cli
    where
      if_typed :
          (b : Bool)
          → IsDone
              ((if b
                  then (do
                    on_console (on_line cli arguments y around.level around.get_nprocs lines)
                    pure serves)
                  else pure serves)
                h).0
      if_typed true = served-IsDone _ h
      if_typed false = tt

  serve-IsDone :
      (arguments : Arguments) (events : List (HubEvent pt y.Node)) (h : Hub pt)
      → IsDone (serve cli arguments y around.level around.get_nprocs events h).0
  unfolding serve pure ◌>>=◌
  serve-IsDone arguments [] h = tt
  serve-IsDone arguments (e ∷ more) h =
      going_on-IsDone (on_hub_event cli arguments y around.level around.get_nprocs e h).0
        (serve cli arguments y around.level around.get_nprocs more)
        (on_hub_event cli arguments y around.level around.get_nprocs e h).1
        (on_hub_event-IsDone arguments e h) (serve-IsDone arguments more)

  -- What `entrypoint_internal` comes to: it says nothing on the error stream, knows no exit code but 0,
  -- serves on or hangs only once there is a hub, and throws only while no worker runs.
  abbrev Inner : Text → Result Progress × Whole pt → Type 0
  Inner s out =
      IsDone out.0
      × (out.1.process.errors ≡ s)
      × ((out.0 ≡ ok serves) ⊎ (out.0 ≡ ok hangs) → (h : Hub pt) × (out.1.hub ≡ some h))
      × ((e : Error) (h : Hub pt) → out.0 ≡ err e → out.1.hub ≡ some h → h.workers ≡ 0)

  some-Inner :
      (s : Text) (p : Process) (out : Result Progress × Hub pt)
      → p.errors ≡ s
      → IsLeft out
      → Inner s (out.0, record { process = p; hub = some out.1 })
  some-Inner s p out q (z, k) = (
    z,
    q,
    λ _. (out.1, refl),
    λ e h r i. ap (λ (g : Hub pt). g.workers) (sym (some_inj i)) ∙ k e r,
  )

  none-Inner :
      (s : Text) (p : Process) (r : Result Progress)
      → p.errors ≡ s
      → IsDone r
      → r ≢ ok serves
      → r ≢ ok hangs
      → Inner s (r, record { process = p; hub = none })
  none-Inner s p r q z a b = (z, q, neither a b, λ e h _ i. absurd (cc i))

  enter-Inner :
      (arguments : Arguments) (d c : Option Settings) (events : List (HubEvent pt y.Node))
      (p : Process)
      → Inner p.errors (enter cli y around arguments d c events p)
  unfolding enter
  enter-Inner arguments (some d) (some c) events p =
      some-Inner p.errors p
        (unwound (
          serve cli arguments y around.level around.get_nprocs events
            (first_hub cli y around arguments d c p)))
        refl (unwound-IsLeft _ (serve-IsDone arguments events _))
  enter-Inner arguments (some d) none events p =
      none-Inner p.errors p crash refl tt (λ e. cc e) (λ e. cc e)
  enter-Inner arguments none c events p =
      none-Inner p.errors p crash refl tt (λ e. cc e) (λ e. cc e)

  going_in-Inner :
      (arguments : Arguments) (events : List (HubEvent pt y.Node)) (s : Text)
      (o : Result (Option ℕ) × Process)
      → Zero o
      → o.1.errors ≡ s
      → Inner s (going_in cli y around arguments events o)
  unfolding going_in
  going_in-Inner arguments events s (ok none, p) z q =
      subst (λ t. Inner t (enter cli y around arguments p.default_conf p.conf events p)) q
        (enter-Inner arguments p.default_conf p.conf events p)
  going_in-Inner arguments events s (ok (some n), p) z q =
      none-Inner s p (ok (exits n)) q z (λ e. cc e) (λ e. cc e)
  going_in-Inner arguments events s (err e, p) z q =
      none-Inner s p (err e) q tt (λ e. cc e) (λ e. cc e)
  going_in-Inner arguments events s (crash, p) z q =
      none-Inner s p crash q tt (λ e. cc e) (λ e. cc e)

  -- The program serves on from its event loop, or exits with 0 and no complaint, or with 1 and a
  -- complaint while it has no worker, or hangs behind its event loop, or stops at undefined behaviour.
  pub data Ends (w : Whole pt) (out : Result Progress × Whole pt) : Type 0 where
    serving :
        (h : Hub pt)
        → out.0 ≡ ok serves
        → out.1.hub ≡ some h
        → out.1.process.errors ≡ w.process.errors
        → Ends w out
    success : out.0 ≡ ok (exits 0) → out.1.process.errors ≡ w.process.errors → Ends w out
    failure :
        (s : Text)
        → out.0 ≡ ok (exits 1)
        → out.1.process.errors ≡ w.process.errors ++ s
        → s ≢ []
        → ((h : Hub pt) → out.1.hub ≡ some h → h.workers ≡ 0)
        → Ends w out
    hanging :
        (h : Hub pt)
        → out.0 ≡ ok hangs
        → out.1.hub ≡ some h
        → out.1.process.errors ≡ w.process.errors
        → Ends w out
    undefined_behaviour : out.0 ≡ crash → Ends w out

  reported-Ends :
      (message : Error → Text) (w : Whole pt) (out : Result Progress × Whole pt)
      → Inner w.process.errors out
      → Ends w (reported message out)
  unfolding reported complain
  reported-Ends message w (ok serves, v) (z, q, k, u) =
      let (h, e) = k (inl refl) in serving h refl e q
  reported-Ends message w (ok hangs, v) (z, q, k, u) =
      let (h, e) = k (inr refl) in hanging h refl e q
  reported-Ends message w (ok (exits n), v) (z, q, k, u) =
      success (ap (λ (i : ℕ). ok (exits i)) z) q
  reported-Ends message w (err e, v) (z, q, k, u) =
      failure (message e ++ 10 ∷ []) refl (ap (λ (t : Text). t ++ (message e ++ 10 ∷ [])) q)
        (line_ne (message e)) (λ h i. u e h refl i)
  reported-Ends message w (crash, v) (z, q, k, u) = undefined_behaviour refl

  run-Ends :
      (exe : Text) (events : List (HubEvent pt y.Node)) (parsed : Outcome Arguments) (w : Whole pt)
      → w.hub ≡ none
      → Ends w (run cli y around exe events parsed w)
  unfolding run entrypoint_internal
  run-Ends exe events (done arguments) w n =
      reported-Ends
        (λ x. str "fatal error: " ++ (around.type_name x ++ (str ": " ++ around.what x))) w
        (entrypoint_internal cli y around arguments exe events w)
        (going_in-Inner arguments events w.process.errors
          (entrypoint y around exe arguments w.process)
          (entrypoint-Zero y around arguments exe w.process)
          ((entrypoint-Quiet y around arguments w.process.errors exe).at w.process refl))
  run-Ends exe events invalid_argument w n =
      reported-Ends (λ x. str "invalid program arguments: " ++ around.what x) w
        (err other_exception, w) (tt, refl, neither (λ e. cc e) (λ e. cc e), λ e h _ i. absurd (cc))
  run-Ends exe events undefined w n = undefined_behaviour refl

  -- Whatever the command line, the surroundings and the events, a program that has not started yet
  -- serves on from its event loop, or exits with the code 0 and nothing said on the error stream, or
  -- with the code 1 and something said there, which after the start happens only with no worker, or its
  -- event loop is behind it and it waits without end for a worker, or it stops at undefined behaviour or
  -- a failed `assert`. No exception leaves it.
  pub program-Ends :
      (initial : Arguments) (events : List (HubEvent pt y.Node)) (args : List Text) (w : Whole pt)
      → w.hub ≡ none
      → Ends w (main cli y around initial events args w)
  unfolding main complain
  program-Ends initial events [] w n =
      failure (str "your system acts strange" ++ 10 ∷ []) refl refl
        (line_ne (str "your system acts strange")) (λ h i. absurd (cc))
  program-Ends initial events (exe ∷ args) w n =
      run-Ends exe events (parse around.verb args initial) w n
