-- ===== src/Portal/History.antt =====
-- What happens to a portal, and what holds after any history.
use mcshub.Base.{◌≢◌, refl, none, false, str, [], pos}
use mcshub.Platform.{Platform, System}
use mcshub.Settings.{Settings}
use mcshub.Portal.{Portal, Gate, State}
use mcshub.Portal.Control.{control, Frames-Keeps, on_disconnect-Frames}
use mcshub.Portal.Coherence.{IsCoherent}
use mcshub.Portal.Events.{Actions, on_from_event, on_to_event, on_disconnect, on_timeout}
use mcshub.Portal.Reach.{on_to_event-Coherent, on_from_event-Coherent, on_timeout-Coherent}

abbrev empty_gate : Gate
empty_gate = record { input = []; output = [] }

-- The constructor of `portal`. Before a handshake the variables look for files beside ".".
unfoldable pub new_portal : {pf : Platform} → Settings → System pf → Portal pf
new_portal conf sys = record {
  from = empty_gate;
  to = empty_gate;
  from_s = State.handshake;
  to_s = none;
  disconnected = false;
  hs = record { version = pos 0; address = []; port = 0; state = pos 0 };
  server_name = str ".";
  nickname = [];
  timeout = 0;
  conf = conf;
  shared_conf = conf;
  rec = conf.default_server.base;
  sys = sys;
}

-- One event. The backend's events and the timer are registered when `to_s` is first written. The
-- last rule is what other threads and the outside world do in between.
pub data Step {pf : Platform} : Portal pf → Portal pf → Type 0 where
  client_event : (p : Portal pf) (e : Actions) → Step p (on_from_event e p).1
  backend_event : (p : Portal pf) (e : Actions) → p.to_s ≢ none → Step p (on_to_event e p).1
  timer : (p : Portal pf) → p.to_s ≢ none → Step p (on_timeout p).1
  stop : (p : Portal pf) → Step p (on_disconnect p).1
  outside :
      (p : Portal pf) (sys : System pf) (conf : Settings)
      → Step p (record p { sys = sys; shared_conf = conf })

pub data Reach {pf : Platform} (p : Portal pf) : Portal pf → Type 0 where
  here : Reach p p
  next : {q r : Portal pf} → Reach p q → Step q r → Reach p r

module _ {pf : Platform} where
  Step-Coherent : {p q : Portal pf} → Step p q → IsCoherent (control p) → IsCoherent (control q)
  Step-Coherent (client_event p e) h = (on_from_event-Coherent e).at p h
  Step-Coherent (backend_event p e _) h = (on_to_event-Coherent e).at p h
  Step-Coherent (timer p _) h = on_timeout-Coherent.at p h
  Step-Coherent (stop p) h = (Frames-Keeps IsCoherent _ on_disconnect-Frames).at p h
  Step-Coherent (outside p sys conf) h = h

  -- After any history of a new portal its two states fit together: it is never in a state for which
  -- a request is illegal, a fake status or a fake login is served only to a client whose handshake
  -- asked for state 1 or 2, and only before the backend side is stable, a login or a proxied stream
  -- comes only with a backend side that forwards, and both sides become stable together.
  pub Reach-IsCoherent :
      (conf : Settings) (sys : System pf) {p : Portal pf}
      → Reach (new_portal conf sys) p
      → IsCoherent (control p)
  unfolding new_portal
  Reach-IsCoherent conf sys here = refl
  Reach-IsCoherent conf sys (next r s) = Step-Coherent s (Reach-IsCoherent conf sys r)
