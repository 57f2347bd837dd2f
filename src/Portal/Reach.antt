-- ===== src/Portal/Reach.antt =====
-- The events that a portal meets, and what holds after any sequence of them.
use mcshub.Base.{◌≡◌, refl, sym, subst, Option, none, some, arith, ℤ, ◌⊎◌, inl, inr}
use mcshub.Exec.{Exec, ◌>>◌, throw, modify, crashed, skip}
use mcshub.Exec.Rules.{
  Keeps, Keeps-bind, Keeps-skip, Keeps-gets, Keeps-if, Keeps-throw, Keeps-catch, Keeps-modify,
}
use mcshub.Platform.{Platform, client, backend}
use mcshub.Portal.{Portal, State}
use mcshub.Portal.Control.{
  control, Frames, Frames-Keeps, in_world-Frames, send-Frames, receive-Frames, tunnel-Frames,
  paket_write-Frames, disconnect-Frames, kostil-Frames, error_twice-Frames, refuse_timeout-Frames,
}
use mcshub.Portal.Coherence.{
  IsEarly, Fits, IsCoherent, KeepsOpen, open_frame, set_from_state-Open, request-Open,
  process_to_request-Frames,
}
use mcshub.Portal.Buffers.{send}
use mcshub.Portal.Requests.{process_from, process_at, process_from_request}
use mcshub.Portal.Events.{
  Actions, to_send_new_hs, on_from_event, backend_failed, connect_writable, writable_at, error_at,
  backend_writable, backend_error, after_hup, hup_at, backend_hup, recover, retry, recover_at,
  on_to_event, timeout_at, on_timeout,
}

Fits-split :
    (s : State) (to : Option State) (asked : ℤ)
    → Fits s to asked
    → IsEarly to ⊎ ((s ≡ State.proxy_stable) × (to ≡ some State.proxy_stable))
Fits-split State.handshake to asked h = inl (rw h tt)
Fits-split State.connect to asked h = absurd h
Fits-split State.wait to asked h = inl (rw h tt)
Fits-split State.status_fake to asked h = inl h.0
Fits-split State.login_fake to asked h = inl h.0
Fits-split State.login to asked h = inl (rw h tt)
Fits-split State.proxy to asked h = inl (rw h tt)
Fits-split State.proxy_stable to asked h = inr (refl, h)
Fits-split State.ping to asked h = absurd h

module _ {pf : Platform} where
  -- The client's handshake has been passed on.
  to_send_new_hs-Open : KeepsOpen {pf = pf} to_send_new_hs
  unfolding to_send_new_hs
  to_send_new_hs-Open = Keeps-bind _ _ (Keeps-gets _) λ hs.
      Keeps-bind _ _ (open_frame _ (paket_write-Frames backend _ _)) λ _.
        Keeps-bind _ _ (open_frame _ refuse_timeout-Frames) λ _.
          Keeps-bind _ _ (Keeps-modify _ (λ p h. ground arith))
            λ _. Keeps-bind _ _ (open_frame _ process_to_request-Frames) λ _. request-Open

  backend_failed-Open : KeepsOpen {pf = pf} backend_failed
  unfolding backend_failed
  backend_failed-Open = Keeps-bind _ _ set_from_state-Open λ _.
      Keeps-bind _ _ (open_frame _ (in_world-Frames _)) λ _.
        Keeps-bind _ _ (open_frame _ kostil-Frames)
          λ _. Keeps-bind _ _ request-Open λ _. open_frame _ (in_world-Frames _)

  connect_writable-Open : KeepsOpen {pf = pf} connect_writable
  unfolding connect_writable
  connect_writable-Open =
      Keeps-bind _ _ (open_frame _ (error_twice-Frames _ (in_world-Frames _))) λ e.
        Keeps-if _ _ _ to_send_new_hs-Open
          (Keeps-bind _ _ set_from_state-Open λ _. open_frame _ (in_world-Frames _))

  retry-Open : KeepsOpen {pf = pf} retry
  unfolding retry
  retry-Open = Keeps-bind _ _ (open_frame _ (error_twice-Frames _ (in_world-Frames _))) λ e.
      Keeps-if _ _ _ to_send_new_hs-Open (
        Keeps-bind _ _ set_from_state-Open
          λ _. Keeps-bind _ _ (open_frame _ kostil-Frames) λ _. open_frame _ (in_world-Frames _))

  abbrev KeepsCoherent : {A : Type 0} → Exec (Portal pf) A → Type 0
  KeepsCoherent m = Keeps (λ p. IsCoherent (control p)) m

  frame : {A : Type 0} (m : Exec (Portal pf) A) → Frames m → KeepsCoherent m
  frame m f = Frames-Keeps IsCoherent m f

  stable_request :
      (p : Portal pf)
      → p.from_s ≡ State.proxy_stable
      → control (process_from_request p).1 ≡ control p
  unfolding process_from_request process_from process_at
  stable_request p e =
      subst (λ s. control (process_at (process_from 1) s p).1 ≡ control p) (sym e)
        ((tunnel-Frames client backend (control p)).at p refl)

  request-Coherent : KeepsCoherent process_from_request
  request-Coherent = record {
    at = λ p h. elim (Fits-split p.from_s p.to_s p.hs.state h) [
      | inl early ↦ (request-Open.at p (h, early)).0
      | inr stable ↦ subst IsCoherent (sym (stable_request p stable.0)) h
    ];
  }

  -- Where the backend side is known to be early, what keeps `Open` keeps coherence.
  early_at :
      (m : Exec (Portal pf) (Unit {0})) (to : Option State) (p : Portal pf)
      → KeepsOpen m
      → IsEarly to
      → p.to_s ≡ to
      → IsCoherent (control p)
      → IsCoherent (control (m p).1)
  early_at m to p k early e h = (k.at p (h, subst IsEarly (sym e) early)).0

  writable_at-Coherent :
      (to : Option State) (p : Portal pf)
      → p.to_s ≡ to
      → IsCoherent (control p)
      → IsCoherent (control (writable_at to p).1)
  unfolding writable_at crashed
  writable_at-Coherent none p e h = h
  writable_at-Coherent (some State.connect) p e h =
      early_at connect_writable (some State.connect) p connect_writable-Open tt e h
  writable_at-Coherent (some other) p e h = rest.at p h
    where
      rest : KeepsCoherent (do
        send backend
        modify (λ p. record p { to_s = some State.proxy_stable; from_s = State.proxy_stable })
        process_from_request)
      rest =
          Keeps-bind _ _ (frame _ (send-Frames backend))
            λ _. Keeps-bind _ _ (Keeps-modify _ (λ q k. refl)) λ _. request-Coherent

  error_at-Coherent :
      (to : Option State) (p : Portal pf)
      → p.to_s ≡ to
      → IsCoherent (control p)
      → IsCoherent (control (error_at to p).1)
  unfolding error_at crashed throw
  error_at-Coherent none p e h = h
  error_at-Coherent (some State.connect) p e h =
      early_at backend_failed (some State.connect) p backend_failed-Open tt e h
  error_at-Coherent (some State.proxy) p e h =
      early_at backend_failed (some State.proxy) p backend_failed-Open tt e h
  error_at-Coherent (some other) p e h = h

  backend_writable-Coherent : KeepsCoherent backend_writable
  unfolding backend_writable
  backend_writable-Coherent = record { at = λ p. writable_at-Coherent p.to_s p refl }

  backend_error-Coherent : KeepsCoherent backend_error
  unfolding backend_error
  backend_error-Coherent = record { at = λ p. error_at-Coherent p.to_s p refl }

  after_hup-Coherent : (e : Actions) → KeepsCoherent (after_hup e)
  unfolding after_hup
  after_hup-Coherent e = Keeps-if _ _ _ backend_error-Coherent (
      Keeps-bind _ _
        (Keeps-if _ _ _
          (Keeps-bind _ _ (frame _ (receive-Frames backend)) λ _. frame _ process_to_request-Frames)
          Keeps-skip)
        λ _. Keeps-if _ _ _ backend_writable-Coherent Keeps-skip)

  hup_at-Coherent :
      (e : Actions) (to : Option State) (p : Portal pf)
      → p.to_s ≡ to
      → IsCoherent (control p)
      → IsCoherent (control (hup_at e to p).1)
  unfolding hup_at crashed
  hup_at-Coherent e none p q h = h
  hup_at-Coherent e (some State.connect) p q h =
      early_at _ (some State.connect) p
        (Keeps-bind _ _ set_from_state-Open λ _. open_frame _ (in_world-Frames _)) tt q h
  hup_at-Coherent e (some other) p q h =
      (Keeps-bind _ _ (frame _ disconnect-Frames) λ _. after_hup-Coherent e).at p h

  backend_hup-Coherent : (e : Actions) → KeepsCoherent (backend_hup e)
  unfolding backend_hup
  backend_hup-Coherent e = record { at = λ p. hup_at-Coherent e p.to_s p refl }

  recover_at-Coherent :
      (to : Option State) (p : Portal pf)
      → p.to_s ≡ to
      → IsCoherent (control p)
      → IsCoherent (control (recover_at to p).1)
  unfolding recover_at crashed
  recover_at-Coherent none p q h = h
  recover_at-Coherent (some State.connect) p q h =
      early_at retry (some State.connect) p retry-Open tt q h
  recover_at-Coherent (some State.proxy) p q h =
      early_at retry (some State.proxy) p retry-Open tt q h
  recover_at-Coherent (some other) p q h = (frame _ disconnect-Frames).at p h

  recover-Coherent : KeepsCoherent recover
  unfolding recover
  recover-Coherent = record { at = λ p. recover_at-Coherent p.to_s p refl }

  pub on_to_event-Coherent : (e : Actions) → KeepsCoherent (on_to_event e)
  unfolding on_to_event
  on_to_event-Coherent e =
      Keeps-catch _ _
        (Keeps-bind _ _ (Keeps-if _ _ _ (frame _ disconnect-Frames) Keeps-skip)
          λ _. Keeps-if _ _ _ (backend_hup-Coherent e) (after_hup-Coherent e))
        (λ x. recover-Coherent)

  pub on_from_event-Coherent : (e : Actions) → KeepsCoherent (on_from_event e)
  unfolding on_from_event
  on_from_event-Coherent e =
      Keeps-catch _ _
        (Keeps-bind _ _ (Keeps-if _ _ _ (frame _ disconnect-Frames) Keeps-skip) λ _.
          Keeps-bind _ _ (Keeps-if _ _ _ (Keeps-throw _) Keeps-skip) λ _.
            Keeps-bind _ _
              (Keeps-if _ _ _
                (Keeps-bind _ _ (frame _ (receive-Frames client)) λ _. request-Coherent) Keeps-skip)
              λ _. Keeps-if _ _ _ (frame _ (send-Frames client)) Keeps-skip)
        (λ x. frame _ disconnect-Frames)

  timeout_at-Coherent :
      (to : Option State) (p : Portal pf)
      → p.to_s ≡ to
      → IsCoherent (control p)
      → IsCoherent (control (timeout_at to p).1)
  unfolding timeout_at crashed skip
  timeout_at-Coherent none p q h = h
  timeout_at-Coherent (some State.connect) p q h =
      early_at _ (some State.connect) p
        (Keeps-bind _ _ set_from_state-Open
          λ _. Keeps-bind _ _ (open_frame _ (in_world-Frames _)) λ _. request-Open)
        tt q h
  timeout_at-Coherent (some other) p q h = h

  pub on_timeout-Coherent : KeepsCoherent on_timeout
  unfolding on_timeout
  on_timeout-Coherent = record { at = λ p. timeout_at-Coherent p.to_s p refl }
