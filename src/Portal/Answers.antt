-- ===== src/Portal/Answers.antt =====
-- What a client that is not forwarded gets: the resolved text, in one packet.
use mcshub.Base.{
  ◌≡◌, refl, sym, ap, ◌∙◌, ℕ, ◌+◌, ◌<◌, ◌^◌, ℤ, true, some, List, [], ◌++◌, append_assoc, arith,
  drop, take, length, pos, int_eq, Text,
}
use mcshub.Exec.{Exec, Result, ok, err, crash, continue, modify, ◌>>=◌, ◌>>◌}
use mcshub.Exec.Rules.{bind_eq}
use mcshub.Namespaces.{main_namespace, other_namespaces}
use mcshub.Paket.{PaketType}
use mcshub.Paket.Ids
use mcshub.Platform.{Platform, client, backend}
use mcshub.Portal.{Portal, State, set_input}
use mcshub.Portal.Buffers.{head, read_done, paket_read, paket_write, appended}
use mcshub.Portal.Requests.{
  disconnect, resolve_vars, status_text, login_text, resolve_status, resolve_login, answer_status,
  from_fake_status, from_fake_login, process_at, process_from, process_from_request,
}
use mcshub.Portal.Stream.{Sockets, queued, queued-send, send-Rest}
use mcshub.Vars
use mcshub.Vars.{Namespace}
use mcshub.Vars.Division.{IsClosed, resolve-meaning}
use mcshub.Vars.Pieces.{Piece, render, AreFit, meaning}

module _ {pf : Platform} where
  -- The variable types of a portal.
  abbrev pub main_of : Portal pf → Namespace
  main_of p = main_namespace (pf.uuid p.sys.world)

  abbrev pub others_of : Portal pf → List Namespace
  others_of p =
      let world = p.sys.world in
      other_namespaces p.rec.vars p.server_name (pf.file world) p.hs (pf.getenv world)

  -- The client has sent one packet of this type, with this id, as a whole: `size` bytes that the
  -- library accepts.
  pub record Asks {P : Type 0} (type : PaketType P) (old : P) (id : ℤ) (size : ℕ) (p : Portal pf)
      : Type 0 where
    pub found : head client p ≡ (ok (some (id, size)), p)
    pub parsed : (type.read old (take size p.from.input)).result ≡ some (pos size)

  abbrev pub after : ℕ → Portal pf → Portal pf
  after size p = set_input client (drop size p.from.input) p

  asked :
      {P : Type 0} (type : PaketType P) (old : P) (id : ℤ) (size : ℕ) (p : Portal pf)
      → Asks type old id size p
      → paket_read client type old (λ x q. q) p
        ≡ (ok (some (type.read old (take size p.from.input)).paket), after size p)
  unfolding paket_read read_done
  asked type old id size p a =
      let whole : int_eq (pos size) (pos size) ≡ true = ground arith in
      bind_eq (head client) _ p p (some (id, size)) a.found ∙ rw (a.parsed, read_done, whole) refl

  resolved :
      (content : Text) (p : Portal pf)
      → (t : Text) → Vars.resolve pf.tools (main_of p) (others_of p) content ≡ some t
      → resolve_vars content p ≡ (ok t, p)
  unfolding resolve_vars
  resolved content p t e = rw (e, resolve_vars) refl

  -- Writing a packet puts its bytes behind all that the client has been sent.
  written_behind :
      (net : Sockets pf) {P : Type 0} (type : PaketType P) (paket : P) (bytes : Text)
      (p : Portal pf)
      → type.write paket (10 + type.size paket) ≡ some bytes
      → (queued net client (paket_write client type paket p).1 ≡ queued net client p ++ bytes)
        × ((paket_write client type paket p).1.from.input ≡ p.from.input)
  unfolding paket_write appended modify ◌>>=◌
  written_behind net type paket bytes p e =
      let q = record p {
        from = record { input = p.from.input; output = p.from.output ++ bytes };
      } in
      rw e (
        queued-send net client q
            ∙ sym (append_assoc (net.sent client p.sys.world) p.from.output bytes),
        (send-Rest net client backend q (λ h. cc h)).1,
      )

  module _ (net : Sockets pf) (p : Portal pf) (size : ℕ) (bytes : Text → Text) where
    -- Behind all that the client has been sent comes one packet with what the text means, and the
    -- client's packet is taken.
    abbrev pub Answered : Text → Portal pf → Type 0
    Answered content q =
        (ps : List Piece) × (render ps ≡ content)
        × AreFit pf.tools ps
        × (queued net client q
            ≡ queued net client p ++ bytes (meaning pf.tools (main_of p) (others_of p) 0 ps))
        × (q.from.input ≡ drop size p.from.input)

    -- A client with a whole request for the status, at a server that is not forwarded, where the library
    -- accepts the request and writes every response, and the text's brackets after a dollar sign are
    -- closed and its size fits 32 bits: behind all that the client has been sent or that waits to be
    -- sent comes one response, with what the pieces of the server's status text mean, and the request
    -- is taken from the input. Sending may fail then.
    pub from_fake_status-Answered :
        p.from_s ≡ State.status_fake
        → Asks pf.codec.request (record {}) Ids.request size p
        → ((text : Text)
            → pf.codec.response.write
                (record { message = text })
                (10 + pf.codec.response.size (record { message = text }))
              ≡ some (bytes text))
        → IsClosed pf.tools (status_text p)
        → length (status_text p) < 2 ^ 32
        → Answered (status_text p) (process_from_request p).1
    unfolding process_from_request process_from process_at from_fake_status answer_status
        resolve_status status_text
    from_fake_status-Answered state a written closed small =
        let (ps, e, fit, r) =
          resolve-meaning pf.tools (main_of p) (others_of p) (status_text p) closed small in
        let text = meaning pf.tools (main_of p) (others_of p) 0 ps in
        let (sent, input) =
          written_behind net pf.codec.response (record { message = text }) (bytes text)
            (after size p) (written text) in
        let steps : process_from_request p
            ≡ paket_write client pf.codec.response (record { message = text }) (after size p) =
          ap (λ (s : State). process_at (process_from 1) s p) state
          ∙ bind_eq (head client) _ p p (some (Ids.request, size)) a.found
          ∙ bind_eq (paket_read client pf.codec.request (record {}) (λ x q. q)) _ p (after size p) _
              (asked pf.codec.request (record {}) Ids.request size p a)
          ∙ bind_eq resolve_status _ (after size p) (after size p) text
              (resolved (status_text p) (after size p) text r) in
        (
          ps,
          e,
          fit,
          ap (λ (o : Result (Unit {0}) × Portal pf). queued net client o.1) steps ∙ sent,
          ap (λ (o : Result (Unit {0}) × Portal pf). o.1.from.input) steps ∙ input,
        )

    -- A packet, and the end of the connection.
    last_words :
        (m : Exec (Portal pf) (Unit {0})) (q : Portal pf)
        → (queued net client ((m >> disconnect) q).1 ≡ queued net client (m q).1)
          × (((m >> disconnect) q).1.from.input ≡ (m q).1.from.input)
    unfolding ◌>>=◌ disconnect
    last_words m q = after_result (m q).0 (m q).1
      where
        after_result :
            (r : Result (Unit {0})) (q : Portal pf)
            → (queued net client (continue r (λ _. disconnect) q).1 ≡ queued net client q)
              × ((continue r (λ _. disconnect) q).1.from.input ≡ q.from.input)
        after_result (ok x) q = (refl, refl)
        after_result (err e) q = (refl, refl)
        after_result crash q = (refl, refl)

    -- A client with a whole login packet, at a server that is not forwarded, where the library accepts
    -- the login and writes every disconnect packet, and the login text's brackets after a dollar sign
    -- are closed and its size fits 32 bits: behind all that the client has been sent or that waits to be
    -- sent comes one disconnect packet, with what the pieces of the server's login text mean, and the
    -- login is taken from the input. Sending may fail then.
    pub from_fake_login-Answered :
        (id : ℤ)
        → p.from_s ≡ State.login_fake
        → Asks pf.codec.login (record { name = [] }) id size p
        → ((text : Text)
            → pf.codec.disconnect.write
                (record { message = text })
                (10 + pf.codec.disconnect.size (record { message = text }))
              ≡ some (bytes text))
        → IsClosed pf.tools (login_text p)
        → length (login_text p) < 2 ^ 32
        → Answered (login_text p) (process_from_request p).1
    unfolding process_from_request process_from process_at from_fake_login resolve_login login_text
    from_fake_login-Answered id state a written closed small =
        let (ps, e, fit, r) =
          resolve-meaning pf.tools (main_of p) (others_of p) (login_text p) closed small in
        let text = meaning pf.tools (main_of p) (others_of p) 0 ps in
        let q = after size p in
        let tells = paket_write client pf.codec.disconnect (record { message = text }) in
        let (sent, input) =
          written_behind net pf.codec.disconnect (record { message = text }) (bytes text) q
            (written text) in
        let (sent', input') = last_words tells q in
        let steps : process_from_request p ≡ (tells >> disconnect) q =
          ap (λ (s : State). process_at (process_from 1) s p) state
          ∙ bind_eq (paket_read client pf.codec.login (record { name = [] }) (λ x q. q)) _ p q _
              (asked pf.codec.login (record { name = [] }) id size p a)
          ∙ bind_eq resolve_login _ q q text (resolved (login_text p) q text r) in
        (
          ps,
          e,
          fit,
          ap (λ (o : Result (Unit {0}) × Portal pf). queued net client o.1) steps ∙ sent' ∙ sent,
          ap (λ (o : Result (Unit {0}) × Portal pf). o.1.from.input) steps ∙ input' ∙ input,
        )
