-- ===== src/Workers/Coherent.antt =====
-- The portals of a worker, from the time they are accepted.
use mcshub.Base.{◌≡◌, sym, subst, ℕ, none, some, List, [], ◌∷◌}
use mcshub.Exec.{modify}
use mcshub.Exec.Rules.{Keeps}
use mcshub.Platform.{Platform, System}
use mcshub.Portal.{Portal}
use mcshub.Portal.Coherence.{IsCoherent}
use mcshub.Portal.Control.{control, Frames-Keeps, on_disconnect-Frames}
use mcshub.Portal.History.{new_portal, Reach, Reach-IsCoherent}
use mcshub.Portal.Reach.{on_from_event-Coherent, on_to_event-Coherent, on_timeout-Coherent}
use mcshub.Settings.{Settings}
use mcshub.Workers.{Worker, Ready, accepted, ready, woken, notified, job}
use mcshub.Workers.Clients.{portals, PortalWake, backend_event, timer, outside, wake_portal}
use mcshub.Workers.Everyone.{Everyone, IsKept, AllArriving, EachArriving, job-Everyone}

module _ (pf : Platform) (Channel : Type 0) (fresh : Channel) (write : ℕ → Channel → Channel)
    (read : Channel → ℕ × Channel) where
  abbrev pub HasCoherence : Portal pf → Type 0
  HasCoherence p = IsCoherent (control p)

  wake-Coherent : (x : PortalWake pf) → Keeps HasCoherence (wake_portal x)
  unfolding wake_portal modify
  wake-Coherent (backend_event e) = on_to_event-Coherent e
  wake-Coherent timer = on_timeout-Coherent
  wake-Coherent (outside sys conf) = record { at = λ p h. h }

  handlers-Coherent : IsKept (portals pf Channel fresh write read) HasCoherence
  handlers-Coherent = record {
    event = on_from_event-Coherent;
    wake = wake-Coherent;
    stop = Frames-Keeps IsCoherent _ on_disconnect-Frames;
  }

  -- What is accepted is a new portal.
  pub data IsNew (p : Portal pf) : Type 0 where
    is_new : (conf : Settings) (sys : System pf) → p ≡ new_portal conf sys → IsNew p

  new-Coherent : (p : Portal pf) → IsNew p → HasCoherence p
  new-Coherent p (is_new conf sys e) =
      subst HasCoherence (sym e) (Reach-IsCoherent conf sys Reach.here)

  batch-Arriving :
      (batch : List (Ready (portals pf Channel fresh write read)))
      → AllArriving IsNew batch
      → AllArriving HasCoherence batch
  batch-Arriving [] h = tt
  batch-Arriving (accepted none ∷ more) h = (tt, batch-Arriving more h.1)
  batch-Arriving (accepted (some (p, registered)) ∷ more) h =
      (new-Coherent p h.0, batch-Arriving more h.1)
  batch-Arriving (ready i e known ∷ more) h = (tt, batch-Arriving more h.1)
  batch-Arriving (woken i x ∷ more) h = (tt, batch-Arriving more h.1)
  batch-Arriving (notified b ∷ more) h = (tt, batch-Arriving more h.1)

  all-Arriving :
      (batches : List (List (Ready (portals pf Channel fresh write read))))
      → EachArriving IsNew batches
      → EachArriving HasCoherence batches
  all-Arriving [] h = tt
  all-Arriving (batch ∷ more) h = (batch-Arriving batch h.0, all-Arriving more h.1)

  -- If the worker's clients have coherent states, and all that it accepts are new portals, then after
  -- any run every client that is in its list has coherent states: whatever becomes ready, in whatever
  -- order, whatever the handlers throw, other threads and the outside world do in between, and also
  -- after the worker has been stopped.
  pub job-IsCoherent :
      (batches : List (List (Ready (portals pf Channel fresh write read))))
      (w : Worker (portals pf Channel fresh write read))
      → EachArriving IsNew batches
      → Everyone HasCoherence w.clients
      → Everyone HasCoherence (job batches w).1.clients
  job-IsCoherent batches w new h =
      job-Everyone HasCoherence handlers-Coherent batches w (all-Arriving batches new) h
