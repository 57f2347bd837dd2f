-- ===== src/Portal/Progress.antt =====
-- A connected portal delivers: what waits for the backend server gets there.
use mcshub.Base.{
  ◌≡◌, ◌≢◌, refl, sym, subst, ap, ◌∙◌, arith, ℕ, zero, suc, ◌+◌, ◌-◌, ◌≤◌, true, false, some, [],
  ◌∷◌, ◌++◌, ◌==◌, List, pos, length, drop, length-append, length-drop, append-nil, Bool-cases, inl,
  inr, Text, to_size_t,
}
use mcshub.Exec.{Exec, Result, ok, skip, catch, ◌>>=◌, ◌>>◌}
use mcshub.Platform.{Platform, Side, client, backend}
use mcshub.Portal.{Portal, State}
use mcshub.Portal.Buffers.{send, tunnel}
use mcshub.Portal.Control.{control}
use mcshub.Portal.Events.{Actions, on_to_event, after_hup, backend_writable, writable_at}
use mcshub.Portal.Relay.{Stable, IsRelaying, to_event-IsRelaying}
use mcshub.Portal.Requests.{process_at, process_from, process_from_request}
use mcshub.Portal.Stream.{Sockets}

-- A socket that is offered bytes takes at least one of them.
pub record Accepting (pf : Platform) : Type 0 where
  pub takes :
      (side : Side) (b : Text) (w : pf.World)
      → length b ≢ 0
      → (n : ℕ) × (n ≢ 0) × ((pf.write side b w).0 ≡ ok (pos n))

abbrev pub only_writable : Actions
only_writable = record {
  rdhup = false;
  hup = false;
  err = false;
  readable = false;
  writable = true;
}

pub length_zero : {A : Type 0} (xs : List A) → length xs ≡ 0 → xs ≡ []
length_zero [] h = refl
length_zero (x ∷ xs) h = absurd (omega (arith, h))

pub nonzero : (n : ℕ) → (n == 0) ≡ false → n ≢ 0
nonzero n e = λ z. ground arith

counts : (a b n m : ℕ) → (a ≢ 0 → n ≢ 0) → (a - n + b ≢ 0 → m ≢ 0) → a - n + b - m ≤ a + b - 1
counts a b n m hn hm = elim (Bool-cases (a == 0)) [
  | inl ea ↦ elim (Bool-cases (a - n + b == 0)) [
    | inl e ↦ ground arith
    | inr e ↦ let k = hm (nonzero _ e) in ground arith
  ]
  | inr ea ↦ let k = hn (nonzero a ea) in ground arith
]

shrinks :
    (n m : ℕ) (x y : Text)
    → (length x ≢ 0 → n ≢ 0)
    → (length (drop n x ++ y) ≢ 0 → m ≢ 0)
    → length (drop m (drop n x ++ y)) + 0 ≤ length x + length y - 1
shrinks n m x y hn hm =
    let e : length (drop n x ++ y) ≡ length x - n + length y =
      length-append (drop n x) y ∙ ap (λ (k : ℕ). k + length y) (length-drop n x) in
    let c = counts (length x) (length y) n m hn (λ h. hm (λ z. h (sym e ∙ z))) in
    omega (arith, length-drop m (drop n x ++ y), e, c)

module _ {pf : Platform} where
  -- What waits on the way to the backend server.
  abbrev pub left_up : Portal pf → ℕ
  left_up p = length p.to.output + length p.from.input

  -- The backend's socket has taken `n` bytes.
  abbrev pub taken_up : ℕ → pf.World → Portal pf → Portal pf
  taken_up n w p = record p {
    to = record { input = p.to.input; output = drop n p.to.output };
    sys = record p.sys { world = w };
  }

  abbrev pub tunnelled : Portal pf → Portal pf
  tunnelled p = record p {
    to = record { input = p.to.input; output = p.to.output ++ p.from.input };
    from = record { input = []; output = p.from.output };
  }

  abbrev pub settled : Portal pf → Portal pf
  settled p = record p { to_s = some State.proxy_stable; from_s = State.proxy_stable }

  module _ (socket : Accepting pf) where
    sends :
        (p : Portal pf)
        → (n : ℕ) × (w : pf.World) × (length p.to.output ≢ 0 → n ≢ 0)
          × (send backend p ≡ (ok tt, taken_up n w p))
    unfolding send to_size_t ◌>>=◌
    sends p = elim (Bool-cases (length p.to.output == 0)) [
      | inl e ↦ (0, p.sys.world, λ h. absurd (h (ground arith)), rw e refl)
      | inr e ↦
          let (n, positive, took) =
            socket.takes backend p.to.output p.sys.world (nonzero (length p.to.output) e) in
          (n, (pf.write backend p.to.output p.sys.world).1, λ h. positive, rw (e, took) refl)
    ]

    pub event_up :
        (p : Portal pf)
        → (n m : ℕ) × (v w : pf.World) × (length p.to.output ≢ 0 → n ≢ 0)
          × (length (drop n p.to.output ++ p.from.input) ≢ 0 → m ≢ 0)
          × (on_to_event only_writable (settled p)
              ≡ (ok tt, taken_up m w (tunnelled (taken_up n v (settled p)))))
    unfolding on_to_event after_hup backend_writable writable_at process_from_request process_from
        process_at tunnel ◌>>=◌ catch
    event_up p =
        let (n, v, hn, first) = sends (settled p) in
        let (m, w, hm, second) = sends (tunnelled (taken_up n v (settled p))) in
        (n, m, v, w, hn, hm, rw (first, ◌>>=◌) (rw (second, ◌>>=◌) refl))

  abbrev pub settled_same : (p : Portal pf) → Stable (control p) → settled p ≡ p
  settled_same p h = λ i. record p { to_s = sym h.1 i; from_s = sym h.0 i }

  -- That many times the backend's socket is found writable, and nothing else happens.
  unfoldable pub writable_times : ℕ → Exec (Portal pf) (Unit {0})
  writable_times zero = skip
  writable_times (suc n) = do on_to_event only_writable; writable_times n

  module _ (net : Sockets pf) (socket : Accepting pf) (to_backend to_client : Text) where
    abbrev pub Going : Portal pf → Type 0
    Going p = IsRelaying net to_backend to_client p × (p.disconnected ≡ false)

    pub event_goes :
        (p : Portal pf)
        → Going p
        → ((on_to_event only_writable p).0 ≡ ok tt)
          × Going (on_to_event only_writable p).1
          × (left_up (on_to_event only_writable p).1 ≤ left_up p - 1)
    event_goes p h =
        let (n, m, v, w, hn, hm, e) = event_up socket p in
        let q = taken_up m w (tunnelled (taken_up n v (settled p))) in
        let e' : on_to_event only_writable p ≡ (ok tt, q) =
          ap (on_to_event only_writable) (sym (settled_same p h.0.0)) ∙ e in
        let returned : (on_to_event only_writable p).0 ≡ ok tt =
          ap (λ (o : Result (Unit {0}) × Portal pf). o.0) e' in
        let connected : (on_to_event only_writable p).1.disconnected ≡ false =
          ap (λ (o : Result (Unit {0}) × Portal pf). o.1.disconnected) e' ∙ h.1 in
        (
          returned,
          (
            to_event-IsRelaying net to_backend to_client only_writable p h.0 returned connected,
            connected,
          ),
          subst (λ (o : Result (Unit {0}) × Portal pf). left_up o.1 ≤ left_up p - 1) (sym e')
              (shrinks n m p.to.output p.from.input hn hm),
        )

    pub arrived :
        (p : Portal pf)
        → Going p
        → left_up p ≤ 0
        → net.sent backend p.sys.world ≡ to_backend ++ net.received client p.sys.world
    arrived p h none_left =
        let sent = net.sent backend p.sys.world in
        let x = length_zero p.to.output (omega (arith, none_left)) in
        let y = length_zero p.from.input (omega (arith, none_left)) in
        sym (
          ap (λ (b : Text). (sent ++ b) ++ p.from.input) x
          ∙ ap (λ (b : Text). (sent ++ []) ++ b) y
          ∙ append-nil (sent ++ [])
          ∙ append-nil sent)
        ∙ h.0.1.up

    -- If a connected portal relays both streams, and its sockets take at least a byte of what they are
    -- offered, then after as many writable events of the backend's socket as bytes wait on the way to
    -- it, all handlers have returned, the portal relays still, and all that the client has sent, behind
    -- the fixed text, is what the backend's socket has taken.
    pub writable_times_deliver :
        (p : Portal pf) (n : ℕ)
        → IsRelaying net to_backend to_client p
        → p.disconnected ≡ false
        → left_up p ≤ n
        → ((writable_times n p).0 ≡ ok tt)
          × IsRelaying net to_backend to_client (writable_times n p).1
          × (net.sent backend (writable_times n p).1.sys.world
              ≡ to_backend ++ net.received client (writable_times n p).1.sys.world)
    unfolding writable_times skip ◌>>=◌
    writable_times_deliver p zero h d le = (refl, h, arrived p (h, d) le)
    writable_times_deliver p (suc n) h d le =
        let (e, (g, c), less) = event_goes p (h, d) in
        let rest =
          writable_times_deliver (on_to_event only_writable p).1 n g c (omega (arith, less, le)) in
        rw (e, ◌>>=◌) rest
