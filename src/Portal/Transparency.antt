-- ===== src/Portal/Transparency.antt =====
-- A connected portal is transparent in both directions, over any sequence of events.
use mcshub.Base.{◌≡◌, false, Text}
use mcshub.Exec.{ok}
use mcshub.Platform.{Platform, System, Side, client, backend}
use mcshub.Settings.{Settings}
use mcshub.Portal.{Portal}
use mcshub.Portal.Events.{Actions, on_from_event, on_to_event, on_timeout}
use mcshub.Portal.Relay.{IsRelaying, from_event-IsRelaying, to_event-IsRelaying, timer-IsRelaying}
use mcshub.Portal.Stream.{Sockets}

module _ {pf : Platform} (net : Sockets pf) where
  -- Events whose handlers return and leave the portal connected, in any order. In between the world
  -- changes, the portal's own sockets apart.
  pub data Run (p : Portal pf) : Portal pf → Type 0 where
    here : Run p p
    client_event :
        {q : Portal pf} (e : Actions)
        → Run p q
        → (on_from_event e q).0 ≡ ok tt
        → (on_from_event e q).1.disconnected ≡ false
        → Run p (on_from_event e q).1
    backend_event :
        {q : Portal pf} (e : Actions)
        → Run p q
        → (on_to_event e q).0 ≡ ok tt
        → (on_to_event e q).1.disconnected ≡ false
        → Run p (on_to_event e q).1
    timer : {q : Portal pf} → Run p q → Run p (on_timeout q).1
    outside :
        {q : Portal pf} (sys : System pf) (conf : Settings)
        → Run p q
        → ((s : Side) → net.sent s sys.world ≡ net.sent s q.sys.world)
        → ((s : Side) → net.received s sys.world ≡ net.received s q.sys.world)
        → Run p (record q { sys = sys; shared_conf = conf })

  module _ (to_backend to_client : Text) where
    outside-IsRelaying :
        (q : Portal pf) (sys : System pf) (conf : Settings)
        → ((s : Side) → net.sent s sys.world ≡ net.sent s q.sys.world)
        → ((s : Side) → net.received s sys.world ≡ net.received s q.sys.world)
        → IsRelaying net to_backend to_client q
        → IsRelaying net to_backend to_client (record q { sys = sys; shared_conf = conf })
    outside-IsRelaying q sys conf sent received h = (
      h.0,
      record {
        up = rw (sent backend, received client) h.1.up;
        down = rw (sent client, received backend) h.1.down;
      },
    )

    -- A portal whose two sides are both stable keeps both streams whole through every run of events:
    -- if all that the client has sent, behind a fixed text, is what the backend's socket has taken,
    -- then what waits to be sent to it, then what has come in and is not passed on, and likewise from
    -- the backend to the client, then this is still so after the run, and both sides are still stable.
    -- Nothing is lost, repeated, changed or reordered, however often the sockets take only a part.
    pub Run-IsRelaying :
        {p q : Portal pf}
        → Run p q
        → IsRelaying net to_backend to_client p
        → IsRelaying net to_backend to_client q
    Run-IsRelaying here h = h
    Run-IsRelaying (client_event {q} e r returned connected) h =
        from_event-IsRelaying net to_backend to_client e q (Run-IsRelaying r h) returned connected
    Run-IsRelaying (backend_event {q} e r returned connected) h =
        to_event-IsRelaying net to_backend to_client e q (Run-IsRelaying r h) returned connected
    Run-IsRelaying (timer {q} r) h =
        timer-IsRelaying net to_backend to_client q (Run-IsRelaying r h)
    Run-IsRelaying (outside {q} sys conf r sent received) h =
        outside-IsRelaying q sys conf sent received (Run-IsRelaying r h)
