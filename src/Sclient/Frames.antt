-- ===== src/Sclient/Frames.antt =====
-- `peek_head` and `read_paket`: one packet is read as a whole.
use mcshub.Base.{
  ◌≡◌, refl, sym, ap, subst, ◌∙◌, ℕ, zero, suc, ◌+◌, ◌-◌, ◌%◌, ◌^◌, ◌≤◌, ◌<◌, none, some, [], ◌∷◌,
  ◌++◌, arith, length, take, drop, length-append, length-drop, length-take, take-append-drop,
  take-append, drop-append, take_long, ◌==◌, if◌then◌else◌, true, pos, to_size_t, Text,
}
use native.Mathlib.Decide.{dec_lt}
use mcshub.Exec.{Result, ok, crash}
use mcshub.Exec.Rules.{bind_ok, bind_eq}
use mcshub.Paket.{Head, PaketType, ReadResult, Codec}
use mcshub.Sclient.{Network, Sclient, read, peek_head, received_paket, read_paket}
use mcshub.Sclient.Loops.{Reliable, read-Filled, small_mod}

-- A packet on the wire, as the library recognises it: its head stands in the first bytes, and in no
-- fewer, and tells its length.
pub record IsFrame (codec : Codec) (frame : Text) (h : Head) : Type 0 where
  pub body : ℕ
  pub sized : h.size ≡ pos body
  pub whole : h.consumed + body ≡ length frame
  pub known : codec.head (take h.consumed frame) ≡ some h
  pub early : (k : ℕ) → k < h.consumed → codec.head (take k frame) ≡ none
  pub small : length frame < 2 ^ 64

pub eq_self : (n : ℕ) → (n == n) ≡ true
eq_self n = ground arith

take_more :
    (k : ℕ) (t r : Text) → k < length t → take k t ++ take 1 (drop k t ++ r) ≡ take (suc k) t
take_more k [] r h = absurd (omega arith)
take_more zero (x ∷ t) r h = refl
take_more (suc k) (x ∷ t) r h = ap (λ (s : Text). x ∷ s) (take_more k t r (omega arith))

drop_more : (k : ℕ) (t r : Text) → k < length t → drop 1 (drop k t ++ r) ≡ drop (suc k) t ++ r
drop_more k [] r h = absurd (omega arith)
drop_more zero (x ∷ t) r h = refl
drop_more (suc k) (x ∷ t) r h = drop_more k t r (omega arith)

drop_all : (t : Text) → drop (length t) t ≡ []
drop_all [] = refl
drop_all (x ∷ t) = drop_all t

same_length :
    (n : ℕ) (xs ys : Text) → n ≡ length xs → (take n (xs ++ ys) ≡ xs) × (drop n (xs ++ ys) ≡ ys)
same_length n xs ys e = rw e (take-append xs ys, drop-append xs ys)

module _ {net : Network} where
  peek_more :
      (fuel : ℕ) (c : Sclient net)
      → net.codec.head c.in_buff ≡ none
      → (read 1 c).0 ≡ ok tt
      → peek_head (suc fuel) c ≡ peek_head fuel (read 1 c).1
  unfolding peek_head
  peek_more fuel c none_yet e =
      rw (none_yet, peek_head) (bind_ok (read 1) (λ _. peek_head fuel) c tt e)

  peek_known :
      (fuel : ℕ) (c : Sclient net) (h : Head) (n : ℕ)
      → net.codec.head c.in_buff ≡ some h
      → (h.consumed + to_size_t h.size) % 2 ^ 64 ≡ n
      → peek_head (suc fuel) c ≡ (ok n, c)
  unfolding peek_head
  peek_known fuel c h n known e = rw (known, peek_head, e) refl

  read_paket_steps :
      {P : Type 0} (type : PaketType P) (fuel size n : ℕ) (old : P) (c d : Sclient net)
      → peek_head fuel c ≡ (ok size, d)
      → (size + 2 ^ 64 - length d.in_buff) % 2 ^ 64 ≡ n
      → (read n d).0 ≡ ok tt
      → read_paket type fuel old c
        ≡ received_paket type size (type.read old (take size (read n d).1.in_buff)) (read n d).1
  unfolding read_paket
  read_paket_steps type fuel size n old c d e m returned =
      bind_eq (peek_head fuel) _ c d size e
      ∙ bind_ok (λ c'. read ((size + 2 ^ 64 - length c'.in_buff) % 2 ^ 64) c') _ d tt
          (rw m returned)
      ∙ rw m refl

module _ {net : Network} (law : Reliable net) (frame rest : Text) (h : Head) where
  -- From `c` on, `k` bytes of the packet stand in the buffer, and the others will come.
  record Split (k : ℕ) (from c : Sclient net) : Type 0 where
    pub here : c.in_buff ≡ take k frame
    pub coming : law.pending c.world ≡ drop k frame ++ rest
    pub quiet : law.sent c.world ≡ law.sent from.world
    pub kept : c.conns ≡ from.conns

  module _ (f : IsFrame net.codec frame h) where
    read_one :
        (k : ℕ) (from c : Sclient net)
        → k < length frame
        → Split k from c
        → ((read 1 c).0 ≡ ok tt) × Split (suc k) from (read 1 c).1
    read_one k from c lt s =
        let l = length-append (drop k frame) rest in
        let enough : 1 ≤ length (law.pending c.world) =
          omega (arith, ap length s.coming, l, length-drop k frame) in
        let r = read-Filled law 1 c (omega arith) enough in
        (
          r.returned,
          record {
            here = r.buffer ∙ rw (s.here, s.coming) (take_more k frame rest lt);
            coming = r.left ∙ rw (s.coming) (drop_more k frame rest lt);
            quiet = r.quiet ∙ s.quiet;
            kept = r.kept ∙ s.kept;
          },
        )

    peek_head_lem :
        (fuel k : ℕ) (from c : Sclient net)
        → k ≤ h.consumed
        → h.consumed < k + fuel
        → Split k from c
        → (d : Sclient net) × (peek_head fuel c ≡ (ok (length frame), d)) × Split h.consumed from d
    unfolding to_size_t
    peek_head_lem zero k from c le enough s = absurd (omega arith)
    peek_head_lem (suc fuel) k from c le enough s = elim (dec_lt k h.consumed) [
      | yes lt ↦
          let (returned, t) = read_one k from c (omega (arith, f.whole)) s in
          let e = peek_more fuel c (ap net.codec.head s.here ∙ f.early k lt) returned in
          let (d, e', u) =
            peek_head_lem fuel (suc k) from (read 1 c).1 (omega arith) (omega arith) t in
          (d, e ∙ e', u)
      | no ge ↦
          let same : k ≡ h.consumed = omega arith in
          let s' = subst (λ j. Split j from c) same s in
          let e =
            peek_known fuel c h (length frame) (ap net.codec.head s'.here ∙ f.known)
              (rw (f.sized) (small_mod _ (omega (arith, f.whole, f.small)) ∙ f.whole)) in
          (c, e, s')
    ]

    module _ {P : Type 0} (type : PaketType P) where
      received_lem :
          (r : ReadResult P) (c : Sclient net)
          → r.result ≡ some (pos (length frame))
          → received_paket type (length frame) r c
            ≡ (ok r.paket, record c { in_buff = drop (length frame) c.in_buff })
      unfolding received_paket to_size_t
      received_lem r c e =
          rw (e, received_paket)
            (ap
              (λ b.
                if b
                then (ok r.paket, record c { in_buff = drop (length frame) c.in_buff })
                else (crash, c))
              (eq_self (length frame)))

      -- `c` has read the packet `frame` and nothing else: it returns what the library makes of it.
      pub record Answered (paket : P) (c : Sclient net) (out : Result P × Sclient net)
          : Type 0 where
        pub returned : out.0 ≡ ok paket
        pub emptied : out.1.in_buff ≡ []
        pub left : law.pending out.1.world ≡ rest
        pub quiet : law.sent out.1.world ≡ law.sent c.world
        pub kept : out.1.conns ≡ c.conns

      pub read_paket-Answered :
          (fuel : ℕ) (old : P) (c : Sclient net)
          → h.consumed < fuel
          → c.in_buff ≡ []
          → law.pending c.world ≡ frame ++ rest
          → (type.read old frame).result ≡ some (pos (length frame))
          → Answered (type.read old frame).paket c (read_paket type fuel old c)
      unfolding read_paket
      read_paket-Answered fuel old c enough empty coming parsed =
          let s0 : Split 0 c c = record {
            here = empty;
            coming = coming;
            quiet = refl;
            kept = refl;
          } in
          let (d, e, s) = peek_head_lem fuel 0 c c (omega arith) (omega arith) s0 in
          let n = length frame - h.consumed in
          let l : length d.in_buff ≡ h.consumed =
            omega (arith, ap length s.here, length-take h.consumed frame, f.whole) in
          let enough : n ≤ length (law.pending d.world) = omega (
            arith,
            ap length s.coming,
            length-append (drop h.consumed frame) rest,
            length-drop h.consumed frame,
          ) in
          let r = read-Filled law n d (omega (arith, f.small)) enough in
          let e' =
            read_paket_steps type fuel (length frame) n old c d e
              (omega (arith, l, f.small, f.whole)) r.returned in
          let (took, dropped) =
            same_length n (drop h.consumed frame) rest (sym (length-drop h.consumed frame)) in
          let all : (read n d).1.in_buff ≡ frame =
            r.buffer ∙ rw (s.here, s.coming, took) (take-append-drop h.consumed frame) in
          let got : take (length frame) (read n d).1.in_buff ≡ frame =
            rw all (take_long (length frame) frame (omega arith)) in
          let parsed' = ap (λ (t : Text). (type.read old t).result) got ∙ parsed in
          let e'' =
            received_lem (type.read old (take (length frame) (read n d).1.in_buff)) (read n d).1
              parsed' in
          subst (Answered (type.read old frame).paket c) (sym (e' ∙ e'')) (record {
            returned = rw got refl;
            emptied = rw all (drop_all frame);
            left = r.left ∙ rw (s.coming) dropped;
            quiet = r.quiet ∙ s.quiet;
            kept = r.kept ∙ s.kept;
          })
