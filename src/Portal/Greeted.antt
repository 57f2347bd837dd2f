-- ===== src/Portal/Greeted.antt =====
-- From the handshake of a client to the answer, at a server that is not forwarded.
use mcshub.Base.{
  ◌≡◌, refl, sym, ap, subst, ◌∙◌, ℕ, ◌+◌, ◌<◌, ◌^◌, false, some, Option, length, pos, Text,
}
use mcshub.Exec.{Exec, Result, ok, ◌>>=◌}
use mcshub.Paket.{Handshake}
use mcshub.Paket.Ids
use mcshub.Platform.{Platform, client}
use mcshub.Portal.{Portal, State}
use mcshub.Portal.Answers.{Asks, Answered, from_fake_status-Answered}
use mcshub.Portal.Buffers.{paket_read}
use mcshub.Portal.Requests.{
  has_backend, set_from_state_by_hs, fall_back, serve_record, serve_routed, read_handshake,
  from_handshake, process_at, process_from, process_from_request, status_text,
}
use mcshub.Portal.Stream.{Sockets}
use mcshub.Routing.{route}
use mcshub.Settings.{BasicRecord}
use mcshub.Vars.Division.{IsClosed}

module _ {pf : Platform} where
  -- A portal that is to answer itself, with the record that the client's address selects.
  abbrev pub chosen : Text → BasicRecord → State → Portal pf → Portal pf
  chosen name r state q = record q { server_name = name; rec = r; from_s = state }

  module _ (p q : Portal pf) (hs : Handshake) (name : Text) (r : BasicRecord)
      (start : p.from_s ≡ State.handshake)
      (reads : paket_read client pf.codec.handshake p.hs (λ x s. record s { hs = x }) p
        ≡ (ok (some hs), q))
      (routed : route q.conf q.hs.address ≡ some (name, r)) (kept : r.drop ≡ false)
      (alone : has_backend r ≡ false) where
    to_fake :
        (faked : Exec (Portal pf) (Unit {0}))
        → serve_record faked (name, r) q ≡ faked (record q { server_name = name; rec = r })
    unfolding serve_record ◌>>=◌
    to_fake faked = rw (kept, alone) refl

    faked_status :
        (again : Exec (Portal pf) (Unit {0}))
        → q.hs.state ≡ pos 1
        → fall_back again (record q { server_name = name; rec = r })
          ≡ again (chosen name r State.status_fake q)
    unfolding fall_back set_from_state_by_hs ◌>>=◌
    faked_status again status = rw status refl

    greeted :
        (faked : Exec (Portal pf) (Unit {0}))
        → read_handshake faked p ≡ faked (record q { server_name = name; rec = r })
    unfolding read_handshake serve_routed ◌>>=◌
    greeted faked =
        rw (reads, read_handshake)
          (ap (λ (o : Option (Text × BasicRecord)). serve_routed faked o q) routed ∙ to_fake faked)

    greeted_status :
        q.hs.state ≡ pos 1
        → process_from_request p ≡ process_from_request (chosen name r State.status_fake q)
    unfolding process_from_request process_from process_at from_handshake
    greeted_status status =
        ap (λ s. process_at (process_from 1) s p) start
        ∙ greeted (fall_back (process_from 1))
        ∙ faked_status (process_from 1) status

    -- A client that has sent a whole handshake with the state 1, for an address that selects a record
    -- which does not drop and names no backend server, and behind it a whole request for the status,
    -- gets its answer in one go: behind all that the client has been sent or that waits to be sent comes
    -- one response, with what the pieces of that record's status text mean, and both packets are taken
    -- from the input. The library accepts the packets, and the text's brackets after a dollar sign are
    -- closed and its size fits 32 bits. Sending may fail then.
    pub process_from_request-Answered :
        (net : Sockets pf) (size : ℕ) (bytes : Text → Text)
        → q.hs.state ≡ pos 1
        → Asks pf.codec.request (record {}) Ids.request size (chosen name r State.status_fake q)
        → ((text : Text)
            → pf.codec.response.write
                (record { message = text })
                (10 + pf.codec.response.size (record { message = text }))
              ≡ some (bytes text))
        → IsClosed pf.tools (status_text (chosen name r State.status_fake q))
        → length (status_text (chosen name r State.status_fake q)) < 2 ^ 32
        → Answered net
            (chosen name r State.status_fake q)
            size
            bytes
            (status_text (chosen name r State.status_fake q))
            (process_from_request p).1
    process_from_request-Answered net size bytes status a written closed small =
        subst
          (λ (o : Result (Unit {0}) × Portal pf).
            Answered net (chosen name r State.status_fake q) size bytes
              (status_text (chosen name r State.status_fake q)) o.1)
          (sym (greeted_status status))
          (from_fake_status-Answered net (chosen name r State.status_fake q) size bytes refl a
            written closed small)
