-- ===== src/Portal/Delivery.antt =====
-- A connected portal delivers in both directions.
use mcshub.Base.{
  ◌≡◌, ◌≢◌, refl, sym, subst, ap, ◌∙◌, arith, ℕ, suc, ◌-◌, ◌≤◌, false, [], ◌∷◌, ◌++◌, ◌==◌, List,
  length, drop, length-drop, append-nil, Bool-cases, inl, inr, Text, to_size_t,
}
use mcshub.Exec.{Exec, Result, ok, skip, catch, ◌>>=◌, ◌>>◌}
use mcshub.Platform.{Platform, Side, client, backend}
use mcshub.Portal.{Portal}
use mcshub.Portal.Buffers.{send}
use mcshub.Portal.Events.{on_from_event, on_to_event}
use mcshub.Portal.Progress.{
  Accepting, Going, arrived, only_writable, length_zero, nonzero, left_up, settled_same, event_up,
  event_goes,
}
use mcshub.Portal.Relay.{IsRelaying, from_event-IsRelaying}
use mcshub.Portal.Stream.{Sockets}

-- How often a socket is found writable.
abbrev pub times : Side → List Side → ℕ
times side [] = 0
times backend (backend ∷ order) = suc (times backend order)
times backend (client ∷ order) = times backend order
times client (client ∷ order) = suc (times client order)
times client (backend ∷ order) = times client order

taken : (n : ℕ) (b : Text) → (length b ≢ 0 → n ≢ 0) → length (drop n b) ≤ length b - 1
taken n b h = elim (Bool-cases (length b == 0)) [
  | inl e ↦ let d = length-drop n b in ground (arith, d)
  | inr e ↦ let k = h (nonzero _ e) in omega (arith, length-drop n b, k)
]

module _ {pf : Platform} where
  -- The client's socket has taken `n` bytes.
  abbrev taken_down : ℕ → pf.World → Portal pf → Portal pf
  taken_down n w p = record p {
    from = record { input = p.from.input; output = drop n p.from.output };
    sys = record p.sys { world = w };
  }

  -- The sockets are found writable, one after another in this order, and nothing else happens.
  unfoldable pub writables : List Side → Exec (Portal pf) (Unit {0})
  writables [] = skip
  writables (backend ∷ order) = do on_to_event only_writable; writables order
  writables (client ∷ order) = do on_from_event only_writable; writables order

  module _ (socket : Accepting pf) where
    event_down :
        (p : Portal pf)
        → (n : ℕ) × (w : pf.World) × (length p.from.output ≢ 0 → n ≢ 0)
          × (on_from_event only_writable p ≡ (ok tt, taken_down n w p))
    unfolding on_from_event send to_size_t catch ◌>>=◌
    event_down p = elim (Bool-cases (length p.from.output == 0)) [
      | inl e ↦ (0, p.sys.world, λ h. absurd (h (ground arith)), rw e refl)
      | inr e ↦
          let (n, positive, took) =
            socket.takes client p.from.output p.sys.world (nonzero (length p.from.output) e) in
          (n, (pf.write client p.from.output p.sys.world).1, λ h. positive, rw (e, took) refl)
    ]

  module _ (net : Sockets pf) (socket : Accepting pf) (to_backend to_client : Text) where
    -- Both are still on their way: what waits for the backend server, and what waits for the client.
    abbrev Moves : (Portal pf) → Result (Unit {0}) × Portal pf → ℕ → ℕ → Type 0
    Moves p o up down =
        (o.0 ≡ ok tt)
        × Going net socket to_backend to_client o.1
        × (left_up o.1 ≤ left_up p - up)
        × (length o.1.from.output ≤ length p.from.output - down)

    backend-Moves :
        (p : Portal pf)
        → Going net socket to_backend to_client p
        → Moves p (on_to_event only_writable p) 1 0
    backend-Moves p h =
        let (returned, going, less) = event_goes net socket to_backend to_client p h in
        let (n, m, v, w, hn, hm, e) = event_up socket p in
        let same : (on_to_event only_writable p).1.from.output ≡ p.from.output =
          ap (λ (q : Portal pf). (on_to_event only_writable q).1.from.output)
            (sym (settled_same p h.0.0))
          ∙ ap (λ (o : Result (Unit {0}) × Portal pf). o.1.from.output) e in
        (returned, going, less, omega (arith, ap length same))

    client-Moves :
        (p : Portal pf)
        → Going net socket to_backend to_client p
        → Moves p (on_from_event only_writable p) 0 1
    client-Moves p h =
        let (n, w, hn, e) = event_down socket p in
        let returned : (on_from_event only_writable p).0 ≡ ok tt =
          ap (λ (o : Result (Unit {0}) × Portal pf). o.0) e in
        let connected : (on_from_event only_writable p).1.disconnected ≡ false =
          ap (λ (o : Result (Unit {0}) × Portal pf). o.1.disconnected) e ∙ h.1 in
        (
          returned,
          (
            from_event-IsRelaying net to_backend to_client only_writable p h.0 returned connected,
            connected,
          ),
          subst (λ (o : Result (Unit {0}) × Portal pf). left_up o.1 ≤ left_up p - 0) (sym e)
              (omega arith),
          subst
              (λ (o : Result (Unit {0}) × Portal pf).
                length o.1.from.output ≤ length p.from.output - 1)
              (sym e) (taken n p.from.output hn),
        )

    there :
        (p : Portal pf)
        → IsRelaying net to_backend to_client p
        → length p.from.output ≤ 0
        → net.sent client p.sys.world ++ p.to.input ≡ to_client ++ net.received backend p.sys.world
    there p h none_left =
        let x = length_zero p.from.output (omega (arith, none_left)) in
        let sent = net.sent client p.sys.world in
        sym (
          ap (λ (b : Text). (sent ++ b) ++ p.to.input) x
          ∙ ap (λ (b : Text). b ++ p.to.input) (append-nil sent))
        ∙ h.1.down

    -- If a connected portal relays both streams, and its sockets take at least a byte of what they are
    -- offered, then after any order of writable events in which the backend's socket comes as often as
    -- bytes wait on the way to it, and the client's as often as bytes are queued for it, all handlers
    -- have returned and the portal relays still. The backend's socket has taken the fixed text and all
    -- that the client has sent, and the client's has taken its fixed text and all that the backend
    -- server has sent but for what is read and not yet forwarded.
    pub writables_deliver :
        (order : List Side) (p : Portal pf)
        → IsRelaying net to_backend to_client p
        → p.disconnected ≡ false
        → left_up p ≤ times backend order
        → length p.from.output ≤ times client order
        → ((writables order p).0 ≡ ok tt)
          × IsRelaying net to_backend to_client (writables order p).1
          × (net.sent backend (writables order p).1.sys.world
              ≡ to_backend ++ net.received client (writables order p).1.sys.world)
          × (net.sent client (writables order p).1.sys.world ++ (writables order p).1.to.input
              ≡ to_client ++ net.received backend (writables order p).1.sys.world)
    unfolding writables skip ◌>>=◌
    writables_deliver [] p h d up down =
        (refl, h, arrived net socket to_backend to_client p (h, d) up, there p h down)
    writables_deliver (backend ∷ order) p h d up down =
        let (e, (g, c), less, kept) = backend-Moves p (h, d) in
        rw (e, ◌>>=◌)
          (writables_deliver order (on_to_event only_writable p).1 g c (omega (arith, less, up))
            (omega (arith, kept, down)))
    writables_deliver (client ∷ order) p h d up down =
        let (e, (g, c), kept, less) = client-Moves p (h, d) in
        rw (e, ◌>>=◌)
          (writables_deliver order (on_from_event only_writable p).1 g c (omega (arith, kept, up))
            (omega (arith, less, down)))
