-- ===== src/Portal/Requests.antt =====
-- The methods of `portal` that answer the client and the backend server, src/client.cpp.
use mcshub.Base.{
  ℕ, zero, suc, Bool, true, false, not, ◌&&◌, Option, none, some, [], ◌==◌, if◌then◌else◌, pos,
  int_eq, Text, length,
}
use mcshub.Exec.{
  Exec, ok, err, crash, drop, unexpected_id, bad_state, bad_request, dns_error, illegal_state, pure,
  throw, crashed, gets, modify, skip, catch, ◌>>=◌, ◌>>◌,
}
use mcshub.HostsDb.{connect}
use mcshub.Namespaces.{main_namespace, other_namespaces}
use mcshub.Paket.Ids
use mcshub.Platform.{Platform, client, backend}
use mcshub.Portal.{Portal, State, in_system, in_world}
use mcshub.Portal.Buffers.{head, paket_read, paket_write, tunnel}
use mcshub.Routing.{route}
use mcshub.Settings.{BasicRecord}
use mcshub.Vars

unfoldable pub has_backend : BasicRecord → Bool
has_backend r = not (length r.address == 0) && not (r.port == 0)

module _ {pf : Platform} where
  unfoldable pub disconnect : Exec (Portal pf) (Unit {0})
  disconnect = modify (λ p. record p { disconnected = true })

  unfoldable pub set_from_state_by_hs : Exec (Portal pf) (Unit {0})
  set_from_state_by_hs p =
      if int_eq p.hs.state (pos 1)
      then (ok tt, record p { from_s = State.status_fake })
      else if int_eq p.hs.state (pos 2)
      then (ok tt, record p { from_s = State.login_fake })
      else (err (bad_request (bad_state p.hs.state)), p)

  -- `vars.resolve`; a text whose variables cannot be resolved in finite time is a crash.
  unfoldable pub resolve_vars : Text → Exec (Portal pf) Text
  resolve_vars content p =
      let world = p.sys.world in
      let main = main_namespace (pf.uuid world) in
      let others =
        other_namespaces p.rec.vars p.server_name (pf.file world) p.hs (pf.getenv world) in
      elim (Vars.resolve pf.tools main others content) [
        | none ↦ (crash, p)
        | some text ↦ (ok text, p)
      ]

  unfoldable pub status_text : Portal pf → Text
  status_text p = elim (pf.file p.sys.world p.rec.status) [
    | none ↦ if p.rec.mcsman then pf.resources.mcsman_status else pf.resources.fallback_status
    | some content ↦ content
  ]

  unfoldable pub login_text : Portal pf → Text
  login_text p = elim (pf.file p.sys.world p.rec.login) [
    | none ↦ if p.rec.mcsman then pf.resources.mcsman_login else pf.resources.fallback_login
    | some content ↦ content
  ]

  unfoldable pub resolve_status : Exec (Portal pf) Text
  unfolding status_text
  resolve_status p = resolve_vars (status_text p) p

  unfoldable pub resolve_login : Exec (Portal pf) Text
  unfolding login_text
  resolve_login p = resolve_vars (login_text p) p

  unfoldable pub from_login : Exec (Portal pf) (Unit {0})
  from_login = do
    found ← paket_read client pf.codec.login (record { name = [] }) (λ l p. p)
    elim found [
      | none ↦ skip
      | some login ↦ do
        modify (λ p. record p { from_s = State.proxy })
        paket_write backend pf.codec.login login
        modify (λ p. record p { nickname = login.name })
    ]

  unfoldable pub answer_status : Exec (Portal pf) (Unit {0})
  answer_status = do
    found ← paket_read client pf.codec.request (record {}) (λ r p. p)
    elim found [
      | none ↦ skip
      | some req ↦ do
        text ← resolve_status
        paket_write client pf.codec.response (record { message = text })
    ]

  unfoldable pub answer_ping : Exec (Portal pf) (Unit {0})
  answer_ping = do
    found ← paket_read client pf.codec.pinpong (record { payload = pos 0 }) (λ r p. p)
    elim found [ none ↦ skip | some ping_pong ↦ paket_write client pf.codec.pinpong ping_pong ]

  unfoldable pub from_fake_status : Exec (Portal pf) (Unit {0})
  unfolding answer_status answer_ping
  from_fake_status = do
    found ← head client
    elim found [
      | none ↦ skip
      | some (id, size) ↦
          if int_eq id Ids.request
          then answer_status
          else if int_eq id Ids.pingpong
          then answer_ping
          else throw (bad_request unexpected_id)
    ]

  unfoldable pub from_fake_login : Exec (Portal pf) (Unit {0})
  unfolding disconnect
  from_fake_login = do
    found ← paket_read client pf.codec.login (record { name = [] }) (λ l p. p)
    elim found [
      | none ↦ skip
      | some login ↦ do
        text ← resolve_login
        paket_write client pf.codec.disconnect (record { message = text })
        disconnect
    ]

  -- The `try` block: whether a connection to the backend server has been started.
  unfoldable pub start_connect : BasicRecord → Exec (Portal pf) Bool
  start_connect r =
      catch
        (do
          cache ← gets (λ p. p.conf.dns_cache && not r.mcsman)
          in_system (connect pf cache r.address r.port)
          modify (λ p. record p { to_s = some State.connect; from_s = State.wait })
          in_world pf.poll_add
          ms ← gets (λ p. p.conf.timeout)
          timer ← in_world (pf.poll_later ms)
          modify (λ p. record p { timeout = timer })
          pure true)
        λ e. elim e [ dns_error ↦ pure false | other ↦ throw other ]

  -- The end of `from_handshake`; `again` is its call of `process_from_request`.
  unfoldable pub fall_back : Exec (Portal pf) (Unit {0}) → Exec (Portal pf) (Unit {0})
  unfolding set_from_state_by_hs
  fall_back again = do set_from_state_by_hs; again

  unfoldable pub serve_record :
      Exec (Portal pf) (Unit {0}) → Text × BasicRecord → Exec (Portal pf) (Unit {0})
  unfolding start_connect has_backend
  serve_record faked (name, r) = do
    modify (λ p. record p { server_name = name })
    if r.drop then throw (bad_request drop) else do
      modify (λ p. record p { rec = r })
      started ← if has_backend r then start_connect r else pure false
      if started then skip else faked

  -- The result of `record`; `none` is undefined behaviour.
  unfoldable pub serve_routed :
      Exec (Portal pf) (Unit {0}) → Option (Text × BasicRecord) → Exec (Portal pf) (Unit {0})
  unfolding serve_record
  serve_routed faked none = crashed
  serve_routed faked (some choice) = serve_record faked choice

  unfoldable pub read_handshake : Exec (Portal pf) (Unit {0}) → Exec (Portal pf) (Unit {0})
  unfolding serve_routed
  read_handshake faked p =
      (do
        found ← paket_read client pf.codec.handshake p.hs (λ hs q. record q { hs = hs })
        elim found [
          | none ↦ skip
          | some hs ↦ λ q. serve_routed faked (route q.conf q.hs.address) q
        ])
        p

  unfoldable pub from_handshake : Exec (Portal pf) (Unit {0}) → Exec (Portal pf) (Unit {0})
  unfolding read_handshake fall_back
  from_handshake again = read_handshake (fall_back again)

  unfoldable pub process_at : Exec (Portal pf) (Unit {0}) → State → Exec (Portal pf) (Unit {0})
  process_at again State.handshake = from_handshake again
  process_at again State.wait = skip
  process_at again State.login = from_login
  process_at again State.status_fake = from_fake_status
  process_at again State.login_fake = from_fake_login
  process_at again State.proxy_stable = tunnel client backend
  process_at again State.proxy = tunnel client backend
  process_at again State.connect = throw illegal_state
  process_at again State.ping = throw illegal_state

  -- The number bounds how often `from_handshake` may call back; one is enough.
  unfoldable pub process_from : ℕ → Exec (Portal pf) (Unit {0})
  unfolding process_at
  process_from zero p = (crash, p)
  process_from (suc n) p = process_at (process_from n) p.from_s p

  unfoldable pub process_from_request : Exec (Portal pf) (Unit {0})
  unfolding process_from
  process_from_request = process_from 2

  -- A `to_s` that was never written is read.
  unfoldable pub process_to_at : Option State → Exec (Portal pf) (Unit {0})
  process_to_at none = crashed
  process_to_at (some State.proxy) = tunnel backend client
  process_to_at (some State.proxy_stable) = tunnel backend client
  process_to_at (some State.connect) = skip
  process_to_at (some other) = throw illegal_state

  unfoldable pub process_to_request : Exec (Portal pf) (Unit {0})
  unfolding process_to_at
  process_to_request p = process_to_at p.to_s p
