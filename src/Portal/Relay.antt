-- ===== src/Portal/Relay.antt =====
-- A connected portal relays: the handlers of its events keep both streams whole.
use mcshub.Base.{◌≡◌, refl, sym, subst, inl, inr, Bool, true, false, some, Text, if◌then◌else◌}
use mcshub.Exec.{Exec, Result, Error, ok, modify, skip, throw, catch, system_error, ◌>>◌}
use mcshub.Exec.Rules.{
  Keeps, Keeps-skip, Keeps-throw, Keeps-bind, Keeps-if, Ensures, Keeps-Ensures, Ensures-bind,
  Ensures-if, Ensures-throw, catch_cases,
}
use mcshub.Platform.{Platform, Side, client, backend}
use mcshub.Portal.{Portal, State}
use mcshub.Portal.Buffers.{send, receive}
use mcshub.Portal.Control.{
  Control, control, Frames, Frames-Keeps, receive-Frames, send-Frames, tunnel-Frames,
  disconnect-Frames,
}
use mcshub.Portal.Events.{
  Actions, on_from_event, error_at, backend_error, writable_at, backend_writable, after_hup, hup_at,
  backend_hup, recover_at, recover, on_to_event, timeout_at, on_timeout,
}
use mcshub.Portal.Requests.{
  disconnect, process_at, process_from, process_from_request, process_to_at, process_to_request,
}
use mcshub.Portal.Stream.{Sockets}
use mcshub.Portal.Carried.{
  IsCarried, send-IsCarried, tunnel_up, tunnel_down, disconnect-IsCarried, receive-IsCarried,
}

abbrev pub Stable : Control → Type 0
Stable c = (c.from_s ≡ State.proxy_stable) × (c.to_s ≡ some State.proxy_stable)

module _ {pf : Platform} (net : Sockets pf) (to_backend to_client : Text) where
  -- Both sides forward, and both streams are whole.
  abbrev pub IsRelaying : Portal pf → Type 0
  IsRelaying p = Stable (control p) × IsCarried net to_backend to_client p

  -- `m` leaves both sides forwarding, and where it returns also both streams whole.
  record Relays (m : Exec (Portal pf) (Unit {0})) : Type 0 where
    keeps : Keeps (λ p. Stable (control p)) m
    ensures : Ensures IsRelaying m

  framed :
      (m : Exec (Portal pf) (Unit {0}))
      → Frames m
      → Ensures (IsCarried net to_backend to_client) m
      → Relays m
  framed m f c = record {
    keeps = Frames-Keeps Stable m f;
    ensures = record { at = λ p a h e. ((Frames-Keeps Stable m f).at p h.0, c.at p a h.1 e) };
  }

  bind : (m n : Exec (Portal pf) (Unit {0})) → Relays m → Relays n → Relays (m >> n)
  bind m n rm rn = record {
    keeps = Keeps-bind m (λ _. n) rm.keeps (λ _. rn.keeps);
    ensures = Ensures-bind m (λ _. n) rm.ensures (λ _. rn.ensures);
  }

  branch :
      (b : Bool) (m n : Exec (Portal pf) (Unit {0}))
      → Relays m
      → Relays n
      → Relays (if b then m else n)
  branch b m n rm rn = record {
    keeps = Keeps-if b m n rm.keeps rn.keeps;
    ensures = Ensures-if b m n rm.ensures rn.ensures;
  }

  skip-Relays : Relays skip
  skip-Relays = record { keeps = Keeps-skip; ensures = Keeps-Ensures skip Keeps-skip }

  throw-Relays : (e : Error) → Relays (throw e)
  throw-Relays e = record { keeps = Keeps-throw e; ensures = Ensures-throw e }

  receive-Relays : (side : Side) → Relays (receive side)
  receive-Relays side =
      framed _ (receive-Frames side) (receive-IsCarried net to_backend to_client side)

  send-Relays : (side : Side) → Relays (send side)
  send-Relays side =
      framed _ (send-Frames side) (Keeps-Ensures _ (send-IsCarried net to_backend to_client side))

  disconnect-Relays : Relays disconnect
  disconnect-Relays =
      framed _ disconnect-Frames (Keeps-Ensures _ (disconnect-IsCarried net to_backend to_client))

  -- An action that depends on a state, where that state is known.
  module _ {K : Type 0} (state : Portal pf → K) (m : K → Exec (Portal pf) (Unit {0})) (k : K) where
    at_state :
        ((p : Portal pf) → Stable (control p) → state p ≡ k)
        → Relays (m k)
        → Relays (λ p. m (state p) p)
    at_state known here = record {
      keeps = record {
        at = λ p h. subst (λ x. Stable (control (m x p).1)) (sym (known p h)) (here.keeps.at p h);
      };
      ensures = record {
        at = λ p a h.
            subst (λ (x : K). (m x p).0 ≡ ok a → IsRelaying (m x p).1) (sym (known p h.0))
              (here.ensures.at p a h);
      };
    }

  process_from-Relays : Relays process_from_request
  unfolding process_from_request process_from process_at
  process_from-Relays =
      at_state (λ p. p.from_s) (process_at (process_from 1)) State.proxy_stable (λ p h. h.0)
        (framed _ (tunnel-Frames client backend)
          (Keeps-Ensures _ (tunnel_up net to_backend to_client)))

  process_to-Relays : Relays process_to_request
  unfolding process_to_request process_to_at
  process_to-Relays =
      at_state (λ p. p.to_s) process_to_at (some State.proxy_stable) (λ p h. h.1)
        (framed _ (tunnel-Frames backend client)
          (Keeps-Ensures _ (tunnel_down net to_backend to_client)))

  error-Relays : Relays backend_error
  unfolding backend_error error_at
  error-Relays =
      at_state (λ p. p.to_s) error_at (some State.proxy_stable) (λ p h. h.1)
        (throw-Relays system_error)

  settled : Portal pf → Portal pf
  settled p = record p { to_s = some State.proxy_stable; from_s = State.proxy_stable }

  settled-Relays : Relays (modify settled)
  unfolding settled modify
  settled-Relays = record {
    keeps = record { at = λ p h. (refl, refl) };
    ensures = record { at = λ p a h e. ((refl, refl), record { up = h.1.up; down = h.1.down }) };
  }

  writable-Relays : Relays backend_writable
  unfolding backend_writable writable_at settled
  writable-Relays =
      at_state (λ p. p.to_s) writable_at (some State.proxy_stable) (λ p h. h.1)
        (bind _ _ (send-Relays backend) (bind _ _ settled-Relays process_from-Relays))

  after_hup-Relays : (e : Actions) → Relays (after_hup e)
  unfolding after_hup
  after_hup-Relays e = branch _ _ _ error-Relays (
      bind _ _
        (branch e.readable _ _ (bind _ _ (receive-Relays backend) process_to-Relays) skip-Relays)
        (branch e.writable _ _ writable-Relays skip-Relays))

  hup-Relays : (e : Actions) → Relays (backend_hup e)
  unfolding backend_hup hup_at
  hup-Relays e =
      at_state (λ p. p.to_s) (hup_at e) (some State.proxy_stable) (λ p h. h.1)
        (bind _ _ disconnect-Relays (after_hup-Relays e))

  -- What the handlers have in common: an exception ends with `disconnect`.
  caught :
      (m : Exec (Portal pf) (Unit {0})) (h : Exec (Portal pf) (Unit {0})) (p : Portal pf)
      → Relays m
      → ((q : Portal pf) → Stable (control q) → (h q).1.disconnected ≡ true)
      → IsRelaying p
      → (catch m (λ _. h) p).0 ≡ ok tt
      → (catch m (λ _. h) p).1.disconnected ≡ false
      → IsRelaying (catch m (λ _. h) p).1
  caught m h p k cut r e d = elim (catch_cases m (λ _. h) p tt e) [
    | inl (returned, same) ↦
        subst (λ (x : Result (Unit {0}) × Portal pf). IsRelaying x.1) (sym same)
          (k.ensures.at p tt r returned)
    | inr (x, same) ↦ absurd (lost same)
  ]
    where
      lost : catch m (λ _. h) p ≡ h (m p).1 → ⊥
      lost same = cc (cut (m p).1 (k.keeps.at p r.0), d, same)

  pub from_event-IsRelaying :
      (e : Actions) (p : Portal pf)
      → IsRelaying p
      → (on_from_event e p).0 ≡ ok tt
      → (on_from_event e p).1.disconnected ≡ false
      → IsRelaying (on_from_event e p).1
  unfolding on_from_event disconnect modify
  from_event-IsRelaying e p r =
      caught _ disconnect p
        (bind _ _ (branch e.rdhup _ _ disconnect-Relays skip-Relays) (
          bind _ _ (branch e.err _ _ (throw-Relays system_error) skip-Relays) (
            bind _ _
              (branch e.readable _ _ (bind _ _ (receive-Relays client) process_from-Relays)
                skip-Relays)
              (branch e.writable _ _ (send-Relays client) skip-Relays))))
        (λ q s. refl) r

  recover-disconnects : (p : Portal pf) → Stable (control p) → (recover p).1.disconnected ≡ true
  unfolding recover recover_at disconnect modify
  recover-disconnects p h = subst (λ s. (recover_at s p).1.disconnected ≡ true) (sym h.1) refl

  pub to_event-IsRelaying :
      (e : Actions) (p : Portal pf)
      → IsRelaying p
      → (on_to_event e p).0 ≡ ok tt
      → (on_to_event e p).1.disconnected ≡ false
      → IsRelaying (on_to_event e p).1
  unfolding on_to_event
  to_event-IsRelaying e p r =
      caught _ recover p
        (bind _ _ (branch e.rdhup _ _ disconnect-Relays skip-Relays)
          (branch e.hup _ _ (hup-Relays e) (after_hup-Relays e)))
        recover-disconnects r

  pub timer-IsRelaying : (p : Portal pf) → IsRelaying p → IsRelaying (on_timeout p).1
  unfolding on_timeout timeout_at skip
  timer-IsRelaying p r = subst (λ s. IsRelaying (timeout_at s p).1) (sym r.0.1) r
