-- ===== src/Portal/Coherence.antt =====
-- The two states of a portal and its handshake fit together, whatever happens.
use mcshub.Base.{
  ◌≡◌, refl, subst, true, false, Option, none, some, arith, ℤ, pos, int_eq, ℕ, zero, suc, Text,
  Bool-cases, ◌⊎◌, inl, inr,
}
use mcshub.Exec.{
  Exec, bad_request, paket_error, dns_error, system_error, illegal_state, other_exception,
  yaml_exception, config_exception, throw, skip,
}
use mcshub.Exec.Rules.{
  Keeps, Keeps-bind, Keeps-pure, Keeps-skip, Keeps-gets, Keeps-crashed, Keeps-if, Keeps-throw,
  Keeps-catch, Keeps-modify, Keeps-then,
}
use mcshub.Platform.{Platform, client, backend}
use mcshub.Portal.{Portal, State}
use mcshub.Routing.{route}
use mcshub.Settings.{BasicRecord}
use mcshub.Portal.Control.{
  Control, control, Frames, Frames-Keeps, in_world-Frames, in_system-Frames, tunnel-Frames,
  paket_read-Keeps, paket_read-Frames, paket_write-Frames, from_fake_status-Frames,
  from_fake_login-Frames,
}
use mcshub.Portal.Requests.{
  set_from_state_by_hs, from_login, start_connect, serve_record, serve_routed, fall_back,
  read_handshake, from_handshake, process_at, process_from, process_from_request, process_to_at,
  process_to_request,
}

-- The backend side is not yet stable.
abbrev pub IsEarly : Option State → Type 0
IsEarly none = Unit
IsEarly (some State.connect) = Unit
IsEarly (some State.proxy) = Unit
IsEarly _ = ⊥

-- What each state of the client's side says of the backend's side, and of the state that the
-- client's handshake asked for.
abbrev pub Fits : State → Option State → ℤ → Type 0
Fits State.handshake to asked = to ≡ none
Fits State.wait to asked = to ≡ some State.connect
Fits State.status_fake to asked = IsEarly to × (asked ≡ pos 1)
Fits State.login_fake to asked = IsEarly to × (asked ≡ pos 2)
Fits State.login to asked = to ≡ some State.proxy
Fits State.proxy to asked = to ≡ some State.proxy
Fits State.proxy_stable to asked = to ≡ some State.proxy_stable
Fits State.connect to asked = ⊥
Fits State.ping to asked = ⊥

abbrev pub IsCoherent : Control → Type 0
IsCoherent c = Fits c.from_s c.to_s c.hs.state

-- Coherent, and the backend side is not yet stable.
abbrev pub Open : Control → Type 0
Open c = Fits c.from_s c.to_s c.hs.state × IsEarly c.to_s

-- The client's side before its handshake, and while it logs in.
abbrev Fresh : Control → Type 0
Fresh c = (c.from_s ≡ State.handshake) × (c.to_s ≡ none)

abbrev LogsIn : Control → Type 0
LogsIn c = (c.to_s ≡ some State.proxy) × ((c.from_s ≡ State.login) ⊎ (c.from_s ≡ State.proxy))

Fresh-Open : (c : Control) → Fresh c → Open c
Fresh-Open c h = rw (h.0, h.1) (refl, tt)

LogsIn-Open : (c : Control) → LogsIn c → Open c
LogsIn-Open c (h, inl e) = rw (e, h) (refl, tt)
LogsIn-Open c (h, inr e) = rw (e, h) (refl, tt)

int_eq→eq : (a b : ℤ) → int_eq a b ≡ true → a ≡ b
int_eq→eq a b h = ground arith

abbrev pub KeepsOpen : {pf : Platform} {A : Type 0} → Exec (Portal pf) A → Type 0
KeepsOpen m = Keeps (λ p. Open (control p)) m

module _ {pf : Platform} where
  pub open_frame : {A : Type 0} (m : Exec (Portal pf) A) → Frames m → KeepsOpen m
  open_frame m f = Frames-Keeps Open m f

  pub set_from_state-Open : KeepsOpen {pf = pf} set_from_state_by_hs
  unfolding set_from_state_by_hs
  set_from_state-Open = record {
    at = λ p h. elim (Bool-cases (int_eq p.hs.state (pos 1))) [
      | inl status ↦ rw (status, set_from_state_by_hs) ((h.1, int_eq→eq _ _ status), h.1)
      | inr other ↦ elim (Bool-cases (int_eq p.hs.state (pos 2))) [
        | inl login ↦ rw (other, login, set_from_state_by_hs) ((h.1, int_eq→eq _ _ login), h.1)
        | inr bad ↦ rw (other, bad, set_from_state_by_hs) h
      ]
    ];
  }

  LogsIn-frame :
      {A : Type 0} (m : Exec (Portal pf) A) → Frames m → Keeps (λ p. LogsIn (control p)) m
  LogsIn-frame m f = Frames-Keeps LogsIn m f

  from_login-LogsIn : Keeps (λ p. LogsIn (control p)) (from_login {pf = pf})
  unfolding from_login
  from_login-LogsIn = Keeps-bind _ _ (LogsIn-frame _ (paket_read-Frames client _ _)) (elim [
    | none ↦ Keeps-skip
    | some login ↦ Keeps-bind _ _ (Keeps-modify _ (λ p h. (h.0, inr refl))) λ _.
        Keeps-bind _ _ (LogsIn-frame _ (paket_write-Frames backend _ _))
          λ _. Keeps-modify _ (λ p h. h)
  ])

  start_connect-Open : (r : BasicRecord) → KeepsOpen {pf = pf} (start_connect r)
  unfolding start_connect
  start_connect-Open r =
      Keeps-catch _ _
        (Keeps-bind _ _ (Keeps-gets _) λ cache.
          Keeps-bind _ _ (open_frame _ (in_system-Frames _)) λ _.
            Keeps-bind _ _ (Keeps-modify _ (λ p h. (refl, tt))) λ _.
              Keeps-bind _ _ (open_frame _ (in_world-Frames _)) λ _.
                Keeps-bind _ _ (Keeps-gets _) λ ms.
                  Keeps-bind _ _ (open_frame _ (in_world-Frames _))
                    λ timer. Keeps-bind _ _ (Keeps-modify _ (λ p h. h)) λ _. Keeps-pure true)
        (elim [
          | bad_request r ↦ Keeps-throw _
          | dns_error ↦ Keeps-pure false
          | paket_error ↦ Keeps-throw _
          | system_error ↦ Keeps-throw _
          | illegal_state ↦ Keeps-throw _
          | other_exception ↦ Keeps-throw _
          | yaml_exception ↦ Keeps-throw _
          | config_exception ↦ Keeps-throw _
        ])

  module _ (faked : Exec (Portal pf) (Unit {0})) (kept : KeepsOpen faked) where
    serve_record-Open : (choice : Text × BasicRecord) → KeepsOpen (serve_record faked choice)
    unfolding serve_record
    serve_record-Open (name, r) = Keeps-bind _ _ (Keeps-modify _ (λ p h. h)) λ _.
        Keeps-if _ _ _ (Keeps-throw _) (
          Keeps-bind _ _ (Keeps-modify _ (λ p h. h)) λ _.
            Keeps-bind _ _ (Keeps-if _ _ _ (start_connect-Open r) (Keeps-pure false))
              λ started. Keeps-if _ _ _ Keeps-skip kept)

    serve_routed-Open : (o : Option (Text × BasicRecord)) → KeepsOpen (serve_routed faked o)
    unfolding serve_routed
    serve_routed-Open none = Keeps-crashed
    serve_routed-Open (some choice) = serve_record-Open choice

    read_handshake-Open :
        (p : Portal pf) → Fresh (control p) → Open (control (read_handshake faked p).1)
    unfolding read_handshake
    read_handshake-Open p h =
        Keeps-then {Holds = λ q. Fresh (control q)} _ _
          (paket_read-Keeps client pf.codec.handshake Fresh p.hs _ (λ x q h. h))
          (λ q. Fresh-Open (control q))
          (elim [
            | none ↦ Keeps-skip
            | some hs ↦ record {
              at = λ q h. (serve_routed-Open (route q.conf q.hs.address)).at q h;
            }
          ])
          p h

  pub process_at-Open :
      (again : Exec (Portal pf) (Unit {0}))
      → KeepsOpen again
      → (s : State) (p : Portal pf) → p.from_s ≡ s
      → Open (control p)
      → Open (control (process_at again s p).1)
  unfolding process_at from_handshake fall_back skip throw
  process_at-Open again kept State.handshake p e h =
      read_handshake-Open (fall_back again) (Keeps-bind _ _ set_from_state-Open λ _. kept) p
        (e, subst (λ s. Fits s p.to_s p.hs.state) e h.0)
  process_at-Open again kept State.connect p e h = h
  process_at-Open again kept State.wait p e h = h
  process_at-Open again kept State.status_fake p e h = (open_frame _ from_fake_status-Frames).at p h
  process_at-Open again kept State.login_fake p e h = (open_frame _ from_fake_login-Frames).at p h
  process_at-Open again kept State.login p e h =
      LogsIn-Open (control (from_login p).1)
        (from_login-LogsIn.at p (subst (λ s. Fits s p.to_s p.hs.state) e h.0, inl e))
  process_at-Open again kept State.proxy p e h =
      (open_frame _ (tunnel-Frames client backend)).at p h
  process_at-Open again kept State.proxy_stable p e h =
      (open_frame _ (tunnel-Frames client backend)).at p h
  process_at-Open again kept State.ping p e h = h

  process_from-Open : (n : ℕ) → KeepsOpen {pf = pf} (process_from n)
  unfolding process_from
  process_from-Open zero = record { at = λ p h. h }
  process_from-Open (suc n) = record {
    at = λ p h. process_at-Open (process_from n) (process_from-Open n) p.from_s p refl h;
  }

  pub request-Open : KeepsOpen {pf = pf} process_from_request
  unfolding process_from_request
  request-Open = process_from-Open 2

  process_to_at-Frames : (to : Option State) → Frames (process_to_at {pf = pf} to)
  unfolding process_to_at
  process_to_at-Frames none c = Keeps-crashed
  process_to_at-Frames (some State.proxy) c = tunnel-Frames backend client c
  process_to_at-Frames (some State.proxy_stable) c = tunnel-Frames backend client c
  process_to_at-Frames (some State.connect) c = Keeps-skip
  process_to_at-Frames (some other) c = Keeps-throw _

  pub process_to_request-Frames : Frames (process_to_request {pf = pf})
  unfolding process_to_request
  process_to_request-Frames c = record { at = λ p. (process_to_at-Frames p.to_s c).at p }
