-- ===== src/Portal/Carried.antt =====
-- The bytes of both streams, and the actions that carry them on.
use mcshub.Base.{◌≡◌, sym, ◌∙◌, ℕ, [], ◌++◌, append_assoc, append-nil, Text}
use mcshub.Exec.{modify, ◌>>=◌}
use mcshub.Exec.Rules.{Keeps, Ensures, Keeps-Ensures, Ensures-bind}
use mcshub.Platform.{Platform, Side, client, backend}
use mcshub.Portal.{Portal, in_world}
use mcshub.Portal.Buffers.{send, read_some, receive, tunnel}
use mcshub.Portal.Requests.{disconnect}
use mcshub.Portal.Stream.{Sockets, queued, queued-send, send-Rest}

module _ {pf : Platform} (net : Sockets pf) (to_backend to_client : Text) where
  -- All that the client has sent, behind a fixed text, is what the backend's socket has taken, what
  -- waits to be sent to it, and what has come in and is not passed on; and the other way round.
  pub record IsCarried (p : Portal pf) : Type 0 where
    pub up : queued net backend p ++ p.from.input ≡ to_backend ++ net.received client p.sys.world
    pub down : queued net client p ++ p.to.input ≡ to_client ++ net.received backend p.sys.world

  pub send-IsCarried : (side : Side) → Keeps IsCarried (send side)
  send-IsCarried client = record {
    at = λ p h.
        let (q, i, j, r) = send-Rest net client backend p (λ e. cc) in
        record {
          up = rw (q, i, r client) h.up;
          down = rw (queued-send net client p, j, r backend) h.down;
        };
  }
  send-IsCarried backend = record {
    at = λ p h.
        let (q, i, j, r) = send-Rest net backend client p (λ e. cc) in
        record {
          up = rw (queued-send net backend p, i, r client) h.up;
          down = rw (q, j, r backend) h.down;
        };
  }

  moved : (a b c k : Text) → (a ++ b) ++ c ≡ k → (a ++ (b ++ c)) ++ [] ≡ k
  moved a b c k h = rw (append-nil, ← append_assoc) h

  pub tunnel_up : Keeps IsCarried (tunnel client backend)
  unfolding tunnel ◌>>=◌
  tunnel_up = record {
    at = λ p h. (send-IsCarried backend).at _ (record {
      up = moved (net.sent backend p.sys.world) p.to.output p.from.input _ h.up;
      down = h.down;
    });
  }

  pub tunnel_down : Keeps IsCarried (tunnel backend client)
  unfolding tunnel ◌>>=◌
  tunnel_down = record {
    at = λ p h. (send-IsCarried client).at _ (record {
      up = h.up;
      down = moved (net.sent client p.sys.world) p.from.output p.to.input _ h.down;
    });
  }

  pub disconnect-IsCarried : Keeps IsCarried disconnect
  unfolding disconnect modify
  disconnect-IsCarried = record { at = λ p h. record { up = h.up; down = h.down } }

  avail-IsCarried : (side : Side) → Keeps IsCarried (in_world (pf.avail side))
  avail-IsCarried side = record {
    at = λ p h.
        let w = p.sys.world in
        record {
          up = rw (net.avail_sent side backend w, net.avail_received side client w) h.up;
          down = rw (net.avail_sent side client w, net.avail_received side backend w) h.down;
        };
  }

  grown : (a b c k : Text) → a ++ b ≡ k → a ++ (b ++ c) ≡ k ++ c
  grown a b c k h = rw (← h) (sym (append_assoc a b c))

  read_some-IsCarried : (side : Side) (n : ℕ) → Ensures IsCarried (read_some side n)
  unfolding read_some
  read_some-IsCarried client n = record {
    at = λ p a h e.
        let w = p.sys.world in
        record {
          up =
              rw (net.read_sent client backend n w, net.read_received client n w e)
                (grown (queued net backend p) p.from.input _ _ h.up
                  ∙ append_assoc to_backend (net.received client w) (pf.read client n w).0);
          down =
              rw (net.read_sent client client n w, net.read_other client backend n w (λ e. cc))
                h.down;
        };
  }
  read_some-IsCarried backend n = record {
    at = λ p a h e.
        let w = p.sys.world in
        record {
          up =
              rw (net.read_sent backend backend n w, net.read_other backend client n w (λ e. cc))
                h.up;
          down =
              rw (net.read_sent backend client n w, net.read_received backend n w e)
                (grown (queued net client p) p.to.input _ _ h.down
                  ∙ append_assoc to_client (net.received backend w) (pf.read backend n w).0);
        };
  }

  pub receive-IsCarried : (side : Side) → Ensures IsCarried (receive side)
  unfolding receive
  receive-IsCarried side =
      Ensures-bind _ _ (Keeps-Ensures _ (avail-IsCarried side)) λ n. read_some-IsCarried side n
