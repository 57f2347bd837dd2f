-- ===== src/Portal/Events.antt =====
-- The event handlers of `portal`, src/client.cpp.
use mcshub.Base.{ℕ, Bool, Option, none, some, ltb, ◌==◌, if◌then◌else◌, pos, int_eq, length}
use mcshub.Exec.{Exec, system_error, pure, throw, crashed, gets, modify, skip, catch, ◌>>=◌, ◌>>◌}
use mcshub.Platform.{Platform, client, backend}
use mcshub.Portal.{Portal, State, in_world}
use mcshub.Portal.Buffers.{send, receive, paket_write, kostil_a, kostil_b}
use mcshub.Portal.Requests.{
  disconnect, set_from_state_by_hs, resolve_login, process_from_request, process_to_request,
}

-- The bits of `ekutils::actions` that an event may have.
pub record Actions : Type 0 where
  pub rdhup : Bool
  pub hup : Bool
  pub err : Bool
  pub readable : Bool
  pub writable : Bool

module _ {pf : Platform} where
  abbrev pub when : Bool → Exec (Portal pf) (Unit {0}) → Exec (Portal pf) (Unit {0})
  when b m = if b then m else skip

  -- `assert(poll.refuse(timeout))`
  unfoldable pub refuse_timeout : Exec (Portal pf) (Unit {0})
  refuse_timeout p =
      (do refused ← in_world (pf.poll_refuse p.timeout); if refused then skip else crashed) p

  unfoldable pub to_send_new_hs : Exec (Portal pf) (Unit {0})
  unfolding refuse_timeout
  to_send_new_hs = do
    hs ← gets (λ p. p.hs)
    paket_write backend pf.codec.handshake hs
    refuse_timeout
    modify (λ p. record p {
      to_s = some State.proxy;
      from_s = if int_eq p.hs.state (pos 1) then State.proxy else State.login;
    })
    process_to_request
    process_from_request

  unfoldable pub on_from_event : Actions → Exec (Portal pf) (Unit {0})
  unfolding disconnect
  on_from_event e =
      catch
        (do
          when e.rdhup disconnect
          when e.err (throw system_error)
          when e.readable (receive client >> process_from_request)
          when e.writable (send client))
        λ _. disconnect

  -- What the client should have sent, where it has not sent it yet.
  unfoldable pub kostil : Exec (Portal pf) (Unit {0})
  kostil = do
    short ← gets (λ p. ltb (length p.from.input) 2)
    status ← gets (λ p. int_eq p.hs.state (pos 1))
    nick ← gets (λ p. p.nickname)
    when short (if status then kostil_a else kostil_b nick)

  unfoldable pub backend_failed : Exec (Portal pf) (Unit {0})
  unfolding kostil
  backend_failed = do
    set_from_state_by_hs
    address ← in_world pf.remote_endpoint
    kostil
    process_from_request
    in_world pf.close_backend

  -- `last_error`, asked again if the first answer is 0.
  unfoldable pub error_twice : Exec (Portal pf) ℕ → Exec (Portal pf) ℕ
  error_twice first = do e ← first; if e == 0 then in_world pf.last_error else pure e

  unfoldable pub connect_writable : Exec (Portal pf) (Unit {0})
  unfolding error_twice
  connect_writable = do
    e ← error_twice (in_world pf.last_error)
    if e == 0 then to_send_new_hs else do set_from_state_by_hs; in_world pf.close_backend

  unfoldable pub writable_at : Option State → Exec (Portal pf) (Unit {0})
  unfolding connect_writable
  writable_at none = crashed
  writable_at (some State.connect) = connect_writable
  writable_at (some other) = do
    send backend
    modify (λ p. record p { to_s = some State.proxy_stable; from_s = State.proxy_stable })
    process_from_request

  unfoldable pub error_at : Option State → Exec (Portal pf) (Unit {0})
  unfolding backend_failed
  error_at none = crashed
  error_at (some State.connect) = backend_failed
  error_at (some State.proxy) = backend_failed
  error_at (some other) = throw system_error

  unfoldable pub backend_writable : Exec (Portal pf) (Unit {0})
  unfolding writable_at
  backend_writable p = writable_at p.to_s p

  unfoldable pub backend_error : Exec (Portal pf) (Unit {0})
  unfolding error_at
  backend_error p = error_at p.to_s p

  unfoldable pub after_hup : Actions → Exec (Portal pf) (Unit {0})
  unfolding backend_error backend_writable
  after_hup e = if e.err then backend_error else do
    when e.readable (receive backend >> process_to_request)
    when e.writable backend_writable

  unfoldable pub hup_at : Actions → Option State → Exec (Portal pf) (Unit {0})
  unfolding after_hup
  hup_at e none = crashed
  hup_at e (some State.connect) = do set_from_state_by_hs; in_world pf.poll_remove
  hup_at e (some other) = do disconnect; after_hup e

  unfoldable pub backend_hup : Actions → Exec (Portal pf) (Unit {0})
  unfolding hup_at
  backend_hup e p = hup_at e p.to_s p

  unfoldable pub retry : Exec (Portal pf) (Unit {0})
  unfolding error_twice kostil
  retry = do
    e ← error_twice (in_world pf.ensure_connected)
    if e == 0 then to_send_new_hs else do set_from_state_by_hs; kostil; in_world pf.close_backend

  -- The handler of the exceptions of `on_to_event`; what it throws itself is not caught.
  unfoldable pub recover_at : Option State → Exec (Portal pf) (Unit {0})
  unfolding retry
  recover_at none = crashed
  recover_at (some State.connect) = retry
  recover_at (some State.proxy) = retry
  recover_at (some other) = disconnect

  unfoldable pub recover : Exec (Portal pf) (Unit {0})
  unfolding recover_at
  recover p = recover_at p.to_s p

  unfoldable pub on_to_event : Actions → Exec (Portal pf) (Unit {0})
  unfolding backend_hup after_hup recover disconnect
  on_to_event e =
      catch (do when e.rdhup disconnect; if e.hup then backend_hup e else after_hup e) λ _. recover

  unfoldable pub on_disconnect : Exec (Portal pf) (Unit {0})
  on_disconnect =
      catch
        (do
          text ← resolve_login
          paket_write client pf.codec.disconnect (record { message = text }))
        λ _. skip

  unfoldable pub timeout_at : Option State → Exec (Portal pf) (Unit {0})
  timeout_at none = crashed
  timeout_at (some State.connect) = do
    set_from_state_by_hs
    in_world pf.close_backend
    process_from_request
  timeout_at (some other) = skip

  unfoldable pub on_timeout : Exec (Portal pf) (Unit {0})
  unfolding timeout_at
  on_timeout p = timeout_at p.to_s p
