-- ===== src/Sclient/Pinged.antt =====
-- `ping`: what goes out, and the time that it returns.
use mcshub.Base.{◌≡◌, refl, sym, ap, subst, ◌∙◌, ℕ, ◌++◌, append-nil, ℤ, pos, Text}
use mcshub.Exec.{Exec, Result, ok, pure, ◌>>=◌}
use mcshub.Exec.Rules.{bind_ok, bind_eq}
use mcshub.Sclient.{Network, Sclient, in_world, milliseconds, read_paket, write_paket, ping}
use mcshub.Sclient.Loops.{Reliable}
use mcshub.Sclient.Written.{IsWritten, write_paket-Written}
use mcshub.Sclient.Answers.{Exchanged, Arrives, Exchanged-read, Arrives-later}

module _ {net : Network} (law : Reliable net) where
  -- A reading of the clock, which touches no socket.
  pub record Ticks : Type 0 where
    pub time : net.World → ℕ
    pub after : net.World → net.World
    pub reads : (w : net.World) → net.now w ≡ (ok (time w), after w)
    pub quiet : (w : net.World) → law.sent (after w) ≡ law.sent w
    pub still : (w : net.World) → law.pending (after w) ≡ law.pending w

  pub in_world_ok :
      {A : Type 0} (act : Exec net.World A) (c : Sclient net) (a : A) (w : net.World)
      → act c.world ≡ (ok a, w)
      → in_world {net = net} act c ≡ (ok a, record c { world = w })
  in_world_ok act c a w e = rw e refl

  -- The end of `ping`.
  timed : (start : ℕ) → Exec (Sclient net) ℤ
  timed start = in_world net.now >>= λ end. pure (milliseconds start end)

  module _ (k : Ticks) where
    timed_lem :
        (start : ℕ) (c : Sclient net)
        → timed start c
          ≡ (ok (milliseconds start (k.time c.world)), record c { world = k.after c.world })
    unfolding timed ◌>>=◌
    timed_lem start c = rw (k.reads c.world) refl

    -- If the server sends one packet that the library accepts as a ping, `ping` sends the packet with
    -- the payload, and nothing else, returns the time between the two readings of the clock, whatever
    -- payload came back, and leaves what the server sends after it.
    pub ping-Exchanged :
        (fuel : ℕ) (payload : ℤ) (bytes frame rest : Text) (c : Sclient net)
        → IsWritten law net.codec.pinpong (pos 1) (record { payload = payload }) bytes
        → Arrives law net.codec.pinpong fuel (record { payload = payload }) frame rest c
        → (w : net.World) × Exchanged law bytes rest
            (milliseconds (k.time c.world) (k.time w))
            c
            (ping fuel payload c)
          × ((ping fuel payload c).1.world ≡ k.after w)
    unfolding ping timed
    ping-Exchanged fuel payload bytes frame rest c w a =
        let start = k.time c.world in
        let d = record c { world = k.after c.world } in
        let sends = write_paket net.codec.pinpong (pos 1) (record { payload = payload }) in
        let reads = read_paket net.codec.pinpong fuel (record { payload = payload }) in
        let s =
          write_paket-Written law net.codec.pinpong (pos 1) (record { payload = payload }) bytes d
            w in
        let a' =
          Arrives-later law net.codec.pinpong fuel (record { payload = payload }) frame rest c
            (sends d).1 (s.left ∙ k.still c.world) s.buffer a in
        let r =
          Exchanged-read law net.codec.pinpong fuel (record { payload = payload }) frame rest
            (sends d).1 a' in
        let last = (reads (sends d).1).1 in
        let e =
          bind_eq (in_world net.now) _ c d start
            (in_world_ok net.now c start (k.after c.world) (k.reads c.world))
          ∙ bind_ok sends _ d tt s.returned
          ∙ bind_ok reads (λ _. timed start) (sends d).1 _ r.returned
          ∙ timed_lem start last in
        (
          last.world,
          subst (Exchanged law bytes rest (milliseconds start (k.time last.world)) c) (sym e)
              (record {
                returned = refl;
                went =
                    k.quiet last.world
                    ∙ r.went
                    ∙ append-nil _
                    ∙ s.went
                    ∙ ap (λ (t : Text). t ++ bytes) (k.quiet c.world);
                left = k.still last.world ∙ r.left;
                emptied = r.emptied;
                kept = r.kept ∙ s.kept;
              }),
          ap (λ (o : Result ℤ × Sclient net). o.1.world) e,
        )
