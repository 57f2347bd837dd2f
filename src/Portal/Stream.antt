-- ===== src/Portal/Stream.antt =====
-- What the sockets have taken and handed out, and how the gates keep account of it.
use mcshub.Base.{
  ◌≡◌, ◌≢◌, refl, ap, Bool-cases, inl, inr, ℕ, ℤ, pos, negsuc, [], ◌++◌, append_assoc, arith,
  length, take, take-append-drop, ◌==◌, to_size_t, Text,
}
use mcshub.Exec.{Result, ok, err, crash, modify, continue, ◌>>=◌}
use mcshub.Platform.{Platform, Side, client, backend}
use mcshub.Portal.{Portal, gate}
use mcshub.Portal.Buffers.{written, send_some, send}

-- The bytes that a call of `write` has taken.
abbrev pub taken : Result ℤ → Text → Text
taken (ok (pos n)) b = take n b
taken _ b = []

-- What the code relies on of its sockets: `sent` and `received` are the bytes that a socket has taken
-- and handed out so far. A `write` takes as many bytes from the start of its argument as it returns,
-- or returns -1 and takes none; a `read` that returns hands out the bytes that it puts in the buffer.
pub record Sockets (pf : Platform) : Type 0 where
  pub sent : Side → pf.World → Text
  pub received : Side → pf.World → Text
  pub write_sent :
      (side : Side) (b : Text) (w : pf.World)
      → sent side (pf.write side b w).1 ≡ sent side w ++ taken (pf.write side b w).0 b
  pub write_other :
      (side other : Side) (b : Text) (w : pf.World)
      → side ≢ other
      → sent other (pf.write side b w).1 ≡ sent other w
  pub write_received :
      (side other : Side) (b : Text) (w : pf.World)
      → received other (pf.write side b w).1 ≡ received other w
  pub write_result :
      (side : Side) (b : Text) (w : pf.World) (k : ℕ)
      → (pf.write side b w).0 ≡ ok (negsuc k)
      → k ≡ 0
  pub avail_sent :
      (side other : Side) (w : pf.World) → sent other (pf.avail side w).1 ≡ sent other w
  pub avail_received :
      (side other : Side) (w : pf.World) → received other (pf.avail side w).1 ≡ received other w
  pub read_sent :
      (side other : Side) (n : ℕ) (w : pf.World) → sent other (pf.read side n w).2 ≡ sent other w
  pub read_received :
      (side : Side) (n : ℕ) (w : pf.World)
      → (pf.read side n w).1 ≡ ok tt
      → received side (pf.read side n w).2 ≡ received side w ++ (pf.read side n w).0
  pub read_other :
      (side other : Side) (n : ℕ) (w : pf.World)
      → side ≢ other
      → received other (pf.read side n w).2 ≡ received other w

module _ {pf : Platform} (net : Sockets pf) where
  -- What the socket has taken, and what waits to be sent.
  abbrev pub queued : Side → Portal pf → Text
  queued side p = net.sent side p.sys.world ++ (gate side p).output

  send_done :
      (side : Side) (r : Result ℤ) (before : Text) (p : Portal pf)
      → net.sent side p.sys.world ≡ before ++ taken r (gate side p).output
      → ((k : ℕ) → r ≡ ok (negsuc k) → k ≡ 0)
      → queued side (continue r (λ n. modify (written side n)) p).1 ≡ before ++ (gate side p).output
  unfolding written modify to_size_t
  send_done client (ok (pos n)) before p h minus = rw (h, append_assoc, take-append-drop)
  send_done client (ok (negsuc k)) before p h minus = rw (minus k refl) (rw (h, append_assoc))
  send_done client (err e) before p h minus = rw (h, append_assoc)
  send_done client crash before p h minus = rw (h, append_assoc)
  send_done backend (ok (pos n)) before p h minus = rw (h, append_assoc, take-append-drop)
  send_done backend (ok (negsuc k)) before p h minus = rw (minus k refl) (rw (h, append_assoc))
  send_done backend (err e) before p h minus = rw (h, append_assoc)
  send_done backend crash before p h minus = rw (h, append_assoc)

  queued-send_some :
      (side : Side) (p : Portal pf) → queued side (send_some side p).1 ≡ queued side p
  unfolding send_some ◌>>=◌
  queued-send_some client p =
      send_done client _ (net.sent client p.sys.world)
        (record p { sys = record p.sys { world = (pf.write client p.from.output p.sys.world).1 } })
        (net.write_sent client p.from.output p.sys.world)
        (net.write_result client p.from.output p.sys.world)
  queued-send_some backend p =
      send_done backend _ (net.sent backend p.sys.world)
        (record p { sys = record p.sys { world = (pf.write backend p.to.output p.sys.world).1 } })
        (net.write_sent backend p.to.output p.sys.world)
        (net.write_result backend p.to.output p.sys.world)

  -- With sockets as described, sending moves bytes from the buffer to the socket: none is lost,
  -- repeated or reordered, however many the socket takes.
  pub queued-send : (side : Side) (p : Portal pf) → queued side (send side p).1 ≡ queued side p
  unfolding send
  queued-send side p = elim (Bool-cases (length (gate side p).output == 0)) [
    | inl none_left ↦ rw (none_left, send)
    | inr some_left ↦ rw (some_left, send) (queued-send_some side p)
  ]

  -- What sending on one side leaves alone: what is queued for the other, both inputs, and what has
  -- been received.
  abbrev pub Rest : Side → Portal pf → Portal pf → Type 0
  Rest other p q =
      (queued other q ≡ queued other p)
      × (q.from.input ≡ p.from.input)
      × (q.to.input ≡ p.to.input)
      × ((s : Side) → net.received s q.sys.world ≡ net.received s p.sys.world)

  send_some-Rest :
      (side other : Side) (p : Portal pf) → side ≢ other → Rest other p (send_some side p).1
  unfolding send_some ◌>>=◌ written
  send_some-Rest client client p h = absurd (h refl)
  send_some-Rest client backend p h =
      let w = net.write_other client backend p.from.output p.sys.world h in
      (
        ground (arith, ap (λ (x : Text). x ++ p.to.output) w),
        ground arith,
        ground arith,
        λ s. ground (arith, net.write_received client s p.from.output p.sys.world),
      )
  send_some-Rest backend client p h =
      let w = net.write_other backend client p.to.output p.sys.world h in
      (
        ground (arith, ap (λ (x : Text). x ++ p.from.output) w),
        ground arith,
        ground arith,
        λ s. ground (arith, net.write_received backend s p.to.output p.sys.world),
      )
  send_some-Rest backend backend p h = absurd (h refl)

  pub send-Rest : (side other : Side) (p : Portal pf) → side ≢ other → Rest other p (send side p).1
  unfolding send
  send-Rest side other p h = elim (Bool-cases (length (gate side p).output == 0)) [
    | inl none_left ↦ rw (none_left, send) (refl, refl, refl, λ s. refl)
    | inr some_left ↦ rw (some_left, send) (send_some-Rest side other p h)
  ]
