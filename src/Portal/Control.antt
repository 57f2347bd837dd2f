-- ===== src/Portal/Control.antt =====
-- What moving bytes, writing packets and asking the system leave alone: the two states of a portal
-- and its handshake.
use mcshub.Base.{◌≡◌, refl, sym, subst, ◌∙◌, Option, none, some, ◌++◌, arith, take, drop, ℕ, Text}
use mcshub.Exec.{Exec, modify, ◌>>=◌}
use mcshub.Exec.Rules.{
  Keeps, Keeps-bind, Keeps-pure, Keeps-skip, Keeps-gets, Keeps-crashed, Keeps-if, Keeps-throw,
  Keeps-catch, keeps_rules,
}
use mcshub.Paket.{Handshake, PaketType, ReadResult}
use mcshub.Platform.{Platform, System, Side, client, backend}
use mcshub.Portal.{Portal, State, gate, set_input, set_output, in_system, in_world}
use mcshub.Portal.Buffers.{
  send, receive, tunnel, head, read_done, paket_read, paket_write, injected, kostil_a, kostil_b,
}
use mcshub.Portal.Requests.{
  disconnect, resolve_vars, status_text, login_text, resolve_status, resolve_login, answer_status,
  answer_ping, from_fake_status, from_fake_login,
}
use mcshub.Portal.Events.{kostil, error_twice, refuse_timeout, on_disconnect}

pub record Control : Type 0 where
  pub from_s : State
  pub to_s : Option State
  pub hs : Handshake

abbrev pub control : {pf : Platform} → Portal pf → Control
control p = record { from_s = p.from_s; to_s = p.to_s; hs = p.hs }

-- `m` leaves the control part as it is, whether it returns, throws or crashes.
abbrev pub Frames : {pf : Platform} {A : Type 0} → Exec (Portal pf) A → Type 0
Frames {pf} m = (c : Control) → Keeps (λ (p : Portal pf). control p ≡ c) m

pub Frames-Keeps :
    {pf : Platform} {A : Type 0} (P : Control → Type 0) (m : Exec (Portal pf) A)
    → Frames m
    → Keeps (λ p. P (control p)) m
Frames-Keeps P m f = record { at = λ p h. subst P (sym ((f (control p)).at p refl)) h }

module _ {pf : Platform} where
  pub in_world-Frames : {A : Type 0} (m : Exec pf.World A) → Frames (in_world {pf = pf} m)
  in_world-Frames m c = record { at = λ p h. h }

  pub in_system-Frames : {A : Type 0} (m : Exec (System pf) A) → Frames (in_system {pf = pf} m)
  in_system-Frames m c = record { at = λ p h. h }

  pub send-Frames : (side : Side) → Frames (send {pf = pf} side)
  unfolding send ◌>>=◌
  send-Frames client c = record { at = λ p h. ground arith }
  send-Frames backend c = record { at = λ p h. ground arith }

  pub receive-Frames : (side : Side) → Frames (receive {pf = pf} side)
  unfolding receive ◌>>=◌
  receive-Frames client c = record { at = λ p h. ground arith }
  receive-Frames backend c = record { at = λ p h. ground arith }

  pub set_output-Frames :
      (side : Side) (f : Portal pf → Text) → Frames (modify (λ p. set_output side (f p) p))
  unfolding modify
  set_output-Frames client f c = record { at = λ p h. h }
  set_output-Frames backend f c = record { at = λ p h. h }

  pub set_input-Frames :
      (side : Side) (f : Portal pf → Text) → Frames (modify (λ p. set_input side (f p) p))
  unfolding modify
  set_input-Frames client f c = record { at = λ p h. h }
  set_input-Frames backend f c = record { at = λ p h. h }

  pub tunnel-Frames : (self other : Side) → Frames (tunnel {pf = pf} self other)
  unfolding tunnel
  tunnel-Frames self other c =
      Keeps-bind _ _ (set_output-Frames other _ c)
        λ _. Keeps-bind _ _ (set_input-Frames self _ c) λ _. send-Frames other c

  pub head-Frames : (side : Side) → Frames (head {pf = pf} side)
  unfolding head
  head-Frames side c = record { at = λ p h. h }

  set_input_same :
      (side : Side) (b : Text) (p : Portal pf) → control (set_input side b p) ≡ control p
  set_input_same client b p = refl
  set_input_same backend b p = refl

  set_output_same :
      (side : Side) (b : Text) (p : Portal pf) → control (set_output side b p) ≡ control p
  set_output_same client b p = refl
  set_output_same backend b p = refl

  module _ {P : Type 0} (side : Side) (type : PaketType P) where
    read_done-Frames : (size : ℕ) (r : ReadResult P) → Frames (read_done {pf = pf} side type size r)
    unfolding read_done
    read_done-Frames size r c = record {
      at = λ p h. ground (arith, set_input_same side (drop size (gate side p).input) p);
    }

    -- What keeps a property when the packet is stored keeps it when the packet is read.
    pub paket_read-Keeps :
        (Q : Control → Type 0) (old : P) (store : P → Portal pf → Portal pf)
        → ((x : P) (p : Portal pf) → Q (control p) → Q (control (store x p)))
        → Keeps (λ p. Q (control p)) (paket_read {pf = pf} side type old store)
    unfolding paket_read
    paket_read-Keeps Q old store kept = Keeps-bind _ _ (Frames-Keeps Q _ (head-Frames side)) (elim [
      | none ↦ Keeps-pure none
      | some (id, size) ↦ record {
        at = λ p h.
            let r = type.read old (take size (gate side p).input) in
            (Frames-Keeps Q _ (read_done-Frames size r)).at (store r.paket p) (kept r.paket p h);
      }
    ])

    -- A packet that is kept nowhere but in a local variable.
    pub paket_read-Frames : (old : P) → Frames (paket_read {pf = pf} side type old (λ r p. p))
    paket_read-Frames old c = paket_read-Keeps (λ d. d ≡ c) old _ (λ x p h. h)

    pub paket_write-Frames : (paket : P) → Frames (paket_write {pf = pf} side type paket)
    unfolding paket_write
    paket_write-Frames paket c =
        Keeps-bind _ _ (set_output-Frames side _ c) (λ _. send-Frames side c)

  injected-Frames : (side : Side) (o : Option Text) → Frames (injected {pf = pf} side o)
  unfolding injected
  injected-Frames side none c = record { at = λ p h. h }
  injected-Frames side (some bytes) c = record {
    at = λ p h. set_input_same side ((gate side p).input ++ bytes) p ∙ h;
  }

  pub kostil_a-Frames : Frames (kostil_a {pf = pf})
  unfolding kostil_a
  kostil_a-Frames = injected-Frames client _

  pub kostil_b-Frames : (nick : Text) → Frames (kostil_b {pf = pf} nick)
  unfolding kostil_b
  kostil_b-Frames nick = injected-Frames client _

  -- Resolving a text changes nothing.
  pub resolve_vars-Frames : (content : Text) → Frames (resolve_vars {pf = pf} content)
  unfolding resolve_vars
  resolve_vars-Frames content c = record { at = λ p h. ground arith }

  pub resolve_status-Frames : Frames (resolve_status {pf = pf})
  unfolding resolve_status
  resolve_status-Frames c = record { at = λ p. (resolve_vars-Frames (status_text p) c).at p }

  pub resolve_login-Frames : Frames (resolve_login {pf = pf})
  unfolding resolve_login
  resolve_login-Frames c = record { at = λ p. (resolve_vars-Frames (login_text p) c).at p }

  pub disconnect-Frames : Frames (disconnect {pf = pf})
  unfolding disconnect
  disconnect-Frames c = search keeps_rules

  pub answer_status-Frames : Frames (answer_status {pf = pf})
  unfolding answer_status
  answer_status-Frames c = Keeps-bind _ _ (paket_read-Frames client _ _ c) (elim [
    | none ↦ Keeps-skip
    | some req ↦ Keeps-bind _ _ (resolve_status-Frames c) λ text. paket_write-Frames client _ _ c
  ])

  pub answer_ping-Frames : Frames (answer_ping {pf = pf})
  unfolding answer_ping
  answer_ping-Frames c =
      Keeps-bind _ _ (paket_read-Frames client _ _ c)
        (elim [ none ↦ Keeps-skip | some ping_pong ↦ paket_write-Frames client _ _ c ])

  pub from_fake_status-Frames : Frames (from_fake_status {pf = pf})
  unfolding from_fake_status
  from_fake_status-Frames c = Keeps-bind _ _ (head-Frames client c) (elim [
    | none ↦ Keeps-skip
    | some (id, size) ↦
        Keeps-if _ _ _ (answer_status-Frames c)
          (Keeps-if _ _ _ (answer_ping-Frames c) (Keeps-throw _))
  ])

  pub from_fake_login-Frames : Frames (from_fake_login {pf = pf})
  unfolding from_fake_login
  from_fake_login-Frames c = Keeps-bind _ _ (paket_read-Frames client _ _ c) (elim [
    | none ↦ Keeps-skip
    | some login ↦
        Keeps-bind _ _ (resolve_login-Frames c)
          λ text. Keeps-bind _ _ (paket_write-Frames client _ _ c) λ _. disconnect-Frames c
  ])

  pub kostil-Frames : Frames (kostil {pf = pf})
  unfolding kostil
  kostil-Frames c = Keeps-bind _ _ (Keeps-gets _) λ short. Keeps-bind _ _ (Keeps-gets _) λ status.
      Keeps-bind _ _ (Keeps-gets _) λ nick.
        Keeps-if _ _ _ (Keeps-if _ _ _ (kostil_a-Frames c) (kostil_b-Frames nick c)) Keeps-skip

  pub error_twice-Frames : (m : Exec (Portal pf) ℕ) → Frames m → Frames (error_twice m)
  unfolding error_twice
  error_twice-Frames m f c =
      Keeps-bind _ _ (f c) λ e. Keeps-if _ _ _ (in_world-Frames pf.last_error c) (Keeps-pure e)

  pub refuse_timeout-Frames : Frames (refuse_timeout {pf = pf})
  unfolding refuse_timeout
  refuse_timeout-Frames c = record {
    at = λ p h.
        (Keeps-bind _ _ (in_world-Frames (pf.poll_refuse p.timeout) c)
            λ refused. Keeps-if _ _ _ Keeps-skip Keeps-crashed).at
          p h;
  }

  pub on_disconnect-Frames : Frames (on_disconnect {pf = pf})
  unfolding on_disconnect
  on_disconnect-Frames c =
      Keeps-catch _ _
        (Keeps-bind _ _ (resolve_login-Frames c) λ text. paket_write-Frames client _ _ c)
        λ _. Keeps-skip
