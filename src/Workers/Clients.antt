-- ===== src/Workers/Clients.antt =====
-- Workers whose clients are portals.
use mcshub.Base.{◌≡◌, ◌≢◌, refl, ℕ, false, List, [], ◌∷◌}
use mcshub.Exec.{Exec, modify, Error, Result, ok, err, crash}
use mcshub.Platform.{Platform, System}
use mcshub.Portal.{Portal}
use mcshub.Portal.Events.{Actions, on_from_event, on_to_event, on_timeout, on_disconnect}
use mcshub.Portal.Contained.{handlers_contained}
use mcshub.Settings.{Settings}
use mcshub.Workers.{Parts, with_rest, disconnect_all}

-- What happens to a portal beside its client's events: the backend's events and the timer, whose
-- handlers it registers itself, and what other threads and the outside world do in between.
pub data PortalWake (pf : Platform) : Type 0 where
  backend_event : Actions → PortalWake pf
  timer : PortalWake pf
  outside : System pf → Settings → PortalWake pf

unfoldable pub wake_portal : {pf : Platform} → PortalWake pf → Exec (Portal pf) (Unit {0})
wake_portal (backend_event e) = on_to_event e
wake_portal timer = on_timeout
wake_portal (outside sys conf) = modify (λ p. record p { sys = sys; shared_conf = conf })

-- The operations of `portal` that a worker calls, over some `event_d`.
abbrev pub portals :
    (pf : Platform) (Channel : Type 0)
    → Channel
    → (ℕ → Channel → Channel)
    → (Channel → ℕ × Channel)
    → Parts
portals pf Channel fresh write read = record {
  Client = Portal pf;
  on_from_event = on_from_event;
  Wake = PortalWake pf;
  on_wake = wake_portal;
  on_disconnect = on_disconnect;
  is_disconnected = λ p. p.disconnected;
  Channel = Channel;
  fresh = fresh;
  write = write;
  read = read;
}

no_error : (r : Result (Unit {0})) → ((x : Error) → r ≢ err x) → r ≢ crash → r ≡ ok tt
no_error (ok tt) h k = refl
no_error (err e) h k = absurd (h e refl)
no_error crash h k = absurd (k refl)

module _ {C : Type 0} where
  pub with_rest_lem :
      (i : ℕ) (m : Result (Unit {0}) × C) (rest more : List (ℕ × C))
      → m.0 ≡ ok tt
      → with_rest i m (ok tt, rest) more ≡ (ok tt, (i, m.1) ∷ rest)
  unfolding with_rest
  with_rest_lem i (ok _, c) rest more h = refl
  with_rest_lem i (err e, c) rest more h = cc
  with_rest_lem i (crash, c) rest more h = cc

module _ (pf : Platform) (Channel : Type 0) (fresh : Channel) (write : ℕ → Channel → Channel)
    (read : Channel → ℕ × Channel) where
  -- No portal's `on_disconnect` fails an `assert`.
  abbrev pub NoCrash : List (ℕ × Portal pf) → Type 0
  NoCrash [] = Unit {0}
  NoCrash ((i, p) ∷ more) = ((on_disconnect p).0 ≢ crash) × NoCrash more

  abbrev pub each_told : List (ℕ × Portal pf) → List (ℕ × Portal pf)
  each_told [] = []
  each_told ((i, p) ∷ more) = (i, (on_disconnect p).1) ∷ each_told more

  -- When a worker stops, every one of its portals gets `on_disconnect`, and the loop over them returns,
  -- unless one fails an `assert`: no portal's exception keeps the others from it.
  pub disconnect_all_lem :
      (l : List (ℕ × Portal pf))
      → NoCrash l
      → disconnect_all (portals pf Channel fresh write read) l ≡ (ok tt, each_told l)
  unfolding disconnect_all
  disconnect_all_lem [] h = refl
  disconnect_all_lem ((i, p) ∷ more) h =
      let quiet : Actions = record {
        rdhup = false;
        hup = false;
        err = false;
        readable = false;
        writable = false;
      } in
      rw (disconnect_all_lem more h.1) (
        with_rest_lem i (on_disconnect p) (each_told more) more
          (no_error (on_disconnect p).0 (λ x. (handlers_contained quiet p x).1) h.0))
