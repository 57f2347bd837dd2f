-- ===== src/Workers/Stopping.antt =====
-- A worker that is told to stop ends its loop.
use mcshub.Base.{◌≡◌, ◌≢◌, ◌++◌, ◌⊎◌, ℕ, Bool, true, false, List, [], ◌∷◌}
use mcshub.Exec.{Exec, Error, Result, ok, err, crash}
use mcshub.Workers.{Parts, Worker, Ready, accepted, ready, woken, notified, wait, stop}

-- What `terminate` relies on of `event_d`: what is written first is what is read.
abbrev pub ReadsWritten : Parts → Type 0
ReadsWritten pt = (n : ℕ) → (pt.read (pt.write n pt.fresh)).0 ≡ n

module _ {pt : Parts} where
  -- No descriptor of the channel among those that are ready.
  abbrev pub Quiet : List (Ready pt) → Type 0
  Quiet [] = Unit {0}
  Quiet (accepted a ∷ more) = Quiet more
  Quiet (ready i e known ∷ more) = Quiet more
  Quiet (woken i wake ∷ more) = Quiet more
  Quiet (notified b ∷ more) = ⊥

  -- From this worker on, some wait finds the channel's descriptor, and no handler that this wait calls
  -- before it throws. The descriptor is edge-triggered: where a handler throws before it, the event is
  -- not told again.
  pub data Delivers : Worker pt → List (List (Ready pt)) → Type 0 where
    now :
        (w : Worker pt) (before after : List (Ready pt)) (more : List (List (Ready pt)))
        → Quiet before
        → ((e : Error) → (wait before w).0 ≢ err e)
        → Delivers w ((before ++ notified true ∷ after) ∷ more)
    later :
        (w : Worker pt) (batch : List (Ready pt)) (more : List (List (Ready pt)))
        → Quiet batch
        → Delivers (wait batch w).1 more
        → Delivers w (batch ∷ more)

  -- The loop has ended, or a client's handler has failed an `assert`.
  abbrev pub HasEnded : Result Bool × Worker pt → Type 0
  HasEnded out = ((out.0 ≡ ok true) × (out.1.working ≡ false)) ⊎ (out.0 ≡ crash)

  abbrev Waits : pt.Channel → Bool → Worker pt → Type 0
  Waits ch b w = (w.events ≡ ch) × (w.working ≡ b)

  abbrev Stopped : Worker pt → Type 0
  Stopped w = w.working ≡ false

  -- What a wait does that finds the channel's descriptor behind `before`: it stops the worker, or it has
  -- crashed before.
  abbrev Reaches : List (Ready pt) → List (Ready pt) → Worker pt → Type 0
  Reaches before after w =
      ((v : Worker pt) → v ≡ (wait before w).1 → Stopped (wait (notified true ∷ after) v).1)
      → ((e : Error) → (wait before w).0 ≢ err e)
      → ((wait (before ++ notified true ∷ after) w).0 ≡ crash)
        ⊎ Stopped (wait (before ++ notified true ∷ after) w).1

  abbrev pub AllRunning : List (Worker pt × List (List (Ready pt))) → Type 0
  AllRunning [] = Unit {0}
  AllRunning ((w, found) ∷ more) =
      (w.working ≡ true) × (w.events ≡ pt.fresh) × Delivers (stop w) found × AllRunning more

  abbrev pub AllEnded : List (Result Bool × Worker pt) → Type 0
  AllEnded [] = Unit {0}
  AllEnded (out ∷ more) = HasEnded out × AllEnded more
