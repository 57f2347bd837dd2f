-- ===== src/Sclient/Loops.antt =====
-- The loops of `read` and `write` move every byte, however the socket splits them.
use mcshub.Base.{
  ◌≡◌, ◌≢◌, refl, sym, ap, subst, ◌∙◌, ℕ, zero, suc, ◌+◌, ◌-◌, ◌%◌, ◌^◌, ◌≤◌, ◌<◌, [], ◌∷◌, ◌++◌,
  append_assoc, append-nil, arith, length, take, drop, replicate, length-append, length-drop,
  take-append, drop-append_add, ltb, lt→ltb, true, false, pos, to_size_t, Text,
}
use native.Mathlib.Nat.{zero-add, suc-add}
use mcshub.Exec.{Result, ok, ◌>>=◌}
use mcshub.Sclient.{Network, Sclient, overwrite, read_once, read_loop, read}

-- What the code relies on of its sockets: `pending` is all that the server will have sent, `sent` all
-- that the socket has taken. A call that is asked for at least one byte waits for one.
pub record Reliable (net : Network) : Type 0 where
  pub pending : net.World → Text
  pub sent : net.World → Text
  pub read_takes :
      (n : ℕ) (w : net.World)
      → 0 < n
      → pending w ≢ []
      → (0 < length (net.read n w).0)
        × (length (net.read n w).0 ≤ n)
        × ((net.read n w).1 ≡ ok (pos (length (net.read n w).0)))
        × (pending w ≡ (net.read n w).0 ++ pending (net.read n w).2)
        × (sent (net.read n w).2 ≡ sent w)
  pub write_takes :
      (b : Text) (w : net.World)
      → b ≢ []
      → (k : ℕ) × (0 < k)
        × (k ≤ length b)
        × ((net.write b w).0 ≡ ok (pos k))
        × (sent (net.write b w).1 ≡ sent w ++ take k b)
        × (pending (net.write b w).1 ≡ pending w)

pub small_mod : (n : ℕ) → n < 2 ^ 64 → n % 2 ^ 64 ≡ n
small_mod n h = omega arith

overwrite_lem :
    (before bytes rest : Text) (n : ℕ)
    → n ≡ length before
    → overwrite n bytes (before ++ rest) ≡ (before ++ bytes) ++ drop (length bytes) rest
unfolding overwrite
overwrite_lem before bytes rest n h =
    rw (h, take-append, drop-append_add) (sym (append_assoc before bytes _))

ltb-false : (a b : ℕ) → b ≤ a → ltb a b ≡ false
ltb-false a b h = ground arith

take_cut : (b t : Text) (n : ℕ) → take (length b + n) (b ++ t) ≡ b ++ take n t
take_cut [] t n = rw zero-add
take_cut (x ∷ b) t n = rw suc-add (ap (λ (r : Text). x ∷ r) (take_cut b t n))

length-replicate : (n a : ℕ) → length (replicate n a) ≡ n
length-replicate zero a = refl
length-replicate (suc n) a = ap suc (length-replicate n a)

pub nonempty : (n : ℕ) (t : Text) → suc n ≤ length t → t ≢ []
nonempty n [] h e = absurd (omega arith)
nonempty n (y ∷ t) h e = cc

module _ {net : Network} where
  read_loop_end :
      (fuel n base received : ℕ) (c : Sclient net)
      → ltb received n ≡ false
      → read_loop (suc fuel) n base received c ≡ (ok tt, c)
  unfolding read_loop
  read_loop_end fuel n base received c h = rw (h) refl

  abbrev after_read : ℕ → ℕ → Sclient net → Sclient net
  after_read n at c = record c {
    in_buff = overwrite at (net.read n c.world).0 c.in_buff;
    world = (net.read n c.world).2;
  }

  read_loop_step :
      (fuel n base received k : ℕ) (c : Sclient net)
      → ltb received n ≡ true
      → (net.read (n - received) c.world).1 ≡ ok (pos k)
      → received + k < 2 ^ 64
      → read_loop (suc fuel) n base received c
        ≡ read_loop fuel n base (received + k) (after_read (n - received) (base + received) c)
  unfolding read_loop read_once ◌>>=◌ to_size_t
  read_loop_step fuel n base received k c h e small = rw (h, e, small_mod (received + k) small) refl

module _ {net : Network} (law : Reliable net) where
  -- Between the states `c` and `d`, the client has read `n` bytes behind `before`, and sent nothing.
  pub record Filled (before : Text) (n : ℕ) (c : Sclient net)
      (out : Result (Unit {0}) × Sclient net) : Type 0 where
    pub returned : out.0 ≡ ok tt
    pub buffer : out.1.in_buff ≡ before ++ take n (law.pending c.world)
    pub left : law.pending out.1.world ≡ drop n (law.pending c.world)
    pub quiet : law.sent out.1.world ≡ law.sent c.world
    pub kept : out.1.conns ≡ c.conns

  Filled-none :
      (before : Text) (n : ℕ) (c : Sclient net)
      → c.in_buff ≡ before
      → n ≡ 0
      → Filled before n c (ok tt, c)
  Filled-none before n c h e = rw e (record {
    returned = refl;
    buffer = h ∙ sym (append-nil before);
    left = refl;
    quiet = refl;
    kept = refl;
  })

  -- After one call that read `bytes`, the rest.
  Filled-step :
      (before bytes : Text) (n m : ℕ) (c d : Sclient net) (out : Result (Unit {0}) × Sclient net)
      → law.pending c.world ≡ bytes ++ law.pending d.world
      → law.sent d.world ≡ law.sent c.world
      → d.conns ≡ c.conns
      → n ≡ length bytes + m
      → Filled (before ++ bytes) m d out
      → Filled before n c out
  Filled-step before bytes n m c d out came quiet kept e f = record {
    returned = f.returned;
    buffer =
        rw (e, came, take_cut bytes (law.pending d.world) m)
          (f.buffer ∙ append_assoc before bytes _);
    left = rw (e, came, drop-append_add m bytes (law.pending d.world)) f.left;
    quiet = f.quiet ∙ quiet;
    kept = f.kept ∙ kept;
  }

  read_loop_lem :
      (fuel n base received : ℕ) (before rest : Text) (c : Sclient net)
      → c.in_buff ≡ before ++ rest
      → base + received ≡ length before
      → received + length rest ≡ n
      → n < 2 ^ 64
      → length rest < fuel
      → length rest ≤ length (law.pending c.world)
      → Filled before (length rest) c (read_loop fuel n base received c)
  read_loop_lem zero n base received before rest c b at total small enough more =
      absurd (omega arith)
  read_loop_lem (suc fuel) n base received before [] c b at total small enough more =
      rw (read_loop_end fuel n base received c (ltb-false received n (omega arith)))
        (Filled-none before 0 c (b ∙ append-nil before) refl)
  read_loop_lem (suc fuel) n base received before (x ∷ rest) c b at total small enough more =
      let r = x ∷ rest in
      let (some_read, fits, returned, came, quiet) =
        law.read_takes (n - received) c.world (omega arith)
          (nonempty (length rest) (law.pending c.world) more) in
      let bytes = (net.read (n - received) c.world).0 in
      let k = length bytes in
      let d = after_read (n - received) (base + received) c in
      let cut = length-drop k r in
      let b' : d.in_buff ≡ (before ++ bytes) ++ drop k r =
        ap (overwrite (base + received) bytes) b ∙ overwrite_lem before bytes r _ at in
      let e =
        read_loop_step fuel n base received k c (lt→ltb received n (omega arith)) returned
          (omega arith) in
      subst (Filled before (length r) c) (sym e) (
        Filled-step before bytes (length r) (length (drop k r)) c d _ came quiet refl
          (omega (arith, cut))
          (read_loop_lem fuel n base (received + k) (before ++ bytes) (drop k r) d b'
            (omega (arith, length-append before bytes)) (omega (arith, cut)) small
            (omega (arith, cut))
            (omega (arith, cut, ap length came, length-append bytes (law.pending d.world)))))

  -- `read n` reads exactly the next `n` bytes of what the server sends, and no more, however the
  -- socket splits them, if the server sends so many and `n` is a size of 64 bits.
  pub read-Filled :
      (n : ℕ) (c : Sclient net)
      → n < 2 ^ 64
      → n ≤ length (law.pending c.world)
      → Filled c.in_buff n c (read n c)
  unfolding read
  read-Filled n c small more =
      let e = length-replicate n 0 in
      let f =
        subst (λ (k : ℕ). Filled c.in_buff k grown (read_loop (suc n) n (length c.in_buff) 0 grown))
          e
          (read_loop_lem (suc n) n (length c.in_buff) 0 c.in_buff (replicate n 0) grown refl
            (omega arith) (omega (arith, e)) small (omega (arith, e)) (omega (arith, e))) in
      record {
        returned = f.returned;
        buffer = f.buffer;
        left = f.left;
        quiet = f.quiet;
        kept = f.kept;
      }
    where
      grown : Sclient net
      grown = record c { in_buff = c.in_buff ++ replicate n 0 }
