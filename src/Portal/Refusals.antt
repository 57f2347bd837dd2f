-- ===== src/Portal/Refusals.antt =====
-- Clients that are turned away.
use mcshub.Base.{
  ◌≡◌, refl, sym, ap, ◌∙◌, arith, subst, true, false, none, some, Option, ◌++◌, Text, Bool-cases,
  inl, inr,
}
use mcshub.Exec.{Exec, Result, ok, err, drop, bad_request, catch, skip, ◌>>=◌}
use mcshub.Exec.Rules.{Keeps, Keeps-bind, Keeps-pure}
use mcshub.Paket.{Handshake}
use mcshub.Platform.{Platform, client, backend}
use mcshub.Portal.Control.{Frames-Keeps, receive-Frames}
use mcshub.Portal.Stream.{Sockets, queued}
use mcshub.Portal.{Portal, State}
use mcshub.Portal.Buffers.{paket_read, read_done, head, receive, read_some}
use mcshub.Portal.Events.{Actions, on_from_event}
use mcshub.Portal.Requests.{
  disconnect, serve_record, serve_routed, read_handshake, from_handshake, process_at, process_from,
  process_from_request,
}
use mcshub.Routing.{route}
use mcshub.Settings.{BasicRecord}

module _ {pf : Platform} where
  -- An event with an asynchronous error ends the connection at once: nothing is read, answered or
  -- sent, whatever else has happened.
  pub on_from_event-error :
      (e : Actions) (p : Portal pf)
      → e.err ≡ true
      → on_from_event e p ≡ (ok tt, record p { disconnected = true })
  unfolding on_from_event catch disconnect
  on_from_event-error e p h = elim (Bool-cases e.rdhup) [
    | inl gone ↦ rw (gone, h) refl
    | inr there ↦ rw (there, h) refl
  ]

  serve_drop :
      (faked : Exec (Portal pf) (Unit {0})) (name : Text) (r : BasicRecord) (q : Portal pf)
      → r.drop ≡ true
      → serve_record faked (name, r) q ≡ (err (bad_request drop), record q { server_name = name })
  unfolding serve_record ◌>>=◌
  serve_drop faked name r q h = rw (h) refl

  serve_dropped :
      (faked : Exec (Portal pf) (Unit {0})) (name : Text) (r : BasicRecord) (q : Portal pf)
      → route q.conf q.hs.address ≡ some (name, r)
      → r.drop ≡ true
      → serve_routed faked (route q.conf q.hs.address) q
        ≡ (err (bad_request drop), record q { server_name = name })
  unfolding serve_routed
  serve_dropped faked name r q routed h =
      subst
        (λ (o : Option (Text × BasicRecord)).
          serve_routed faked o q ≡ (err (bad_request drop), record q { server_name = name }))
        (sym routed) (serve_drop faked name r q h)

  read_dropped :
      (faked : Exec (Portal pf) (Unit {0})) (p q : Portal pf) (hs : Handshake) (name : Text)
      (r : BasicRecord)
      → paket_read client pf.codec.handshake p.hs (λ x s. record s { hs = x }) p ≡ (ok (some hs), q)
      → route q.conf q.hs.address ≡ some (name, r)
      → r.drop ≡ true
      → read_handshake faked p ≡ (err (bad_request drop), record q { server_name = name })
  unfolding read_handshake ◌>>=◌
  read_dropped faked p q hs name r read routed h =
      rw (read, read_handshake) (serve_dropped faked name r q routed h)

  -- A complete handshake whose address selects a record that drops is refused: the request ends
  -- with that exception in the state that reading the handshake has left, but for the server's name.
  pub drop_refused :
      (p q : Portal pf) (hs : Handshake) (name : Text) (r : BasicRecord)
      → p.from_s ≡ State.handshake
      → paket_read client pf.codec.handshake p.hs (λ x s. record s { hs = x }) p ≡ (ok (some hs), q)
      → route q.conf q.hs.address ≡ some (name, r)
      → r.drop ≡ true
      → process_from_request p ≡ (err (bad_request drop), record q { server_name = name })
  unfolding process_from_request process_from process_at from_handshake
  drop_refused p q hs name r start read routed h =
      subst
        (λ s.
          process_at (process_from 1) s p
          ≡ (err (bad_request drop), record q { server_name = name }))
        (sym start) (read_dropped _ p q hs name r read routed h)

module _ {pf : Platform} (net : Sockets pf) (x y : Text) where
  -- Nothing is sent, and nothing waits to be sent but what waited before.
  abbrev Silent : Portal pf → Type 0
  Silent p = (queued net client p ≡ x) × (queued net backend p ≡ y)

  receive-Silent : Keeps Silent (receive client)
  unfolding receive read_some
  receive-Silent =
      Keeps-bind _ _
        (record {
          at = λ p h.
              let w = p.sys.world in
              (
                ap (λ (s : Text). s ++ p.from.output) (net.avail_sent client client w) ∙ h.0,
                ap (λ (s : Text). s ++ p.to.output) (net.avail_sent client backend w) ∙ h.1,
              );
        })
        λ n. record {
          at = λ p h.
              let w = p.sys.world in
              (
                ap (λ (s : Text). s ++ p.from.output) (net.read_sent client client n w) ∙ h.0,
                ap (λ (s : Text). s ++ p.to.output) (net.read_sent client backend n w) ∙ h.1,
              );
        }

  handshake-Silent :
      (old : Handshake)
      → Keeps Silent (paket_read client pf.codec.handshake old (λ hs s. record s { hs = hs }))
  unfolding paket_read read_done head
  handshake-Silent old =
      Keeps-bind _ _ (record { at = λ p h. h })
        (elim [ none ↦ Keeps-pure none | some (id, size) ↦ record { at = λ p h. ground arith } ])

module _ {pf : Platform} where
  -- Where an event says that the client has sent bytes, and neither that it has gone nor that there was
  -- an error, and these bytes complete its handshake, with an address that selects a record which drops:
  -- the handler returns, the portal is disconnected, and beside the handshake and the server's name it
  -- is as reading has left it. Neither the client nor the backend server is sent anything, and nothing
  -- new waits to be sent, even if the sockets are writable.
  pub on_from_event_refused :
      (net : Sockets pf) (e : Actions) (p p1 q : Portal pf) (hs : Handshake) (name : Text)
      (r : BasicRecord)
      → e.rdhup ≡ false
      → e.err ≡ false
      → e.readable ≡ true
      → p.from_s ≡ State.handshake
      → receive client p ≡ (ok tt, p1)
      → paket_read client pf.codec.handshake p1.hs (λ x s. record s { hs = x }) p1
        ≡ (ok (some hs), q)
      → route q.conf q.hs.address ≡ some (name, r)
      → r.drop ≡ true
      → (on_from_event e p ≡ (ok tt, record q { server_name = name; disconnected = true }))
        × (queued net client (on_from_event e p).1 ≡ queued net client p)
        × (queued net backend (on_from_event e p).1 ≡ queued net backend p)
  unfolding on_from_event catch ◌>>=◌ disconnect skip
  on_from_event_refused net e p p1 q hs name r there fine readable start got read routed drops =
      let state =
        (Frames-Keeps (λ c. c.from_s ≡ State.handshake) _ (receive-Frames client)).at p start in
      let state' : p1.from_s ≡ State.handshake =
        subst (λ (o : Result (Unit {0}) × Portal pf). o.1.from_s ≡ State.handshake) got state in
      let refused = drop_refused p1 q hs name r state' read routed drops in
      let x = queued net client p in
      let y = queued net backend p in
      let heard : Silent net x y p1 =
        subst (λ (o : Result (Unit {0}) × Portal pf). Silent net x y o.1) got
          ((receive-Silent net x y).at p (refl, refl)) in
      let taken : Silent net x y q =
        subst (λ (o : Result (Option Handshake) × Portal pf). Silent net x y o.1) read
          ((handshake-Silent net x y p1.hs).at p1 heard) in
      let ends : on_from_event e p ≡ (ok tt, record q { server_name = name; disconnected = true }) =
        rw (there, fine, readable) (rw got (rw refused refl)) in
      (
        ends,
        ap (λ (o : Result (Unit {0}) × Portal pf). queued net client o.1) ends ∙ taken.0,
        ap (λ (o : Result (Unit {0}) × Portal pf). queued net backend o.1) ends ∙ taken.1,
      )
