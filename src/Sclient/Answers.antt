-- ===== src/Sclient/Answers.antt =====
-- `status` and `login`: what goes out, and what comes back.
use mcshub.Base.{
  ◌≡◌, sym, ap, subst, ◌∙◌, ℕ, ◌<◌, some, [], ◌++◌, append_assoc, append-nil, length, ℤ, pos, Text,
}
use mcshub.Exec.{Exec, Result, ok, ◌>>◌}
use mcshub.Exec.Rules.{bind_ok}
use mcshub.Paket.{Head, PaketType}
use mcshub.Sclient.{Network, Sclient, hello, read_paket, write_paket, status, login}
use mcshub.Sclient.Loops.{Reliable}
use mcshub.Sclient.Frames.{IsFrame, read_paket-Answered}
use mcshub.Sclient.Written.{IsWritten, write_paket-Written}

module _ {net : Network} (law : Reliable net) where
  -- From `c` on, the client has sent `out`, has read exactly the bytes before `rest`, and returns
  -- `value`.
  pub record Exchanged {A : Type 0} (out rest : Text) (value : A) (c : Sclient net)
      (r : Result A × Sclient net) : Type 0 where
    pub returned : r.0 ≡ ok value
    pub went : law.sent r.1.world ≡ law.sent c.world ++ out
    pub left : law.pending r.1.world ≡ rest
    pub emptied : r.1.in_buff ≡ []
    pub kept : r.1.conns ≡ c.conns

  -- What the server sends: one packet, that the library accepts, and then `rest`.
  pub record Arrives {P : Type 0} (type : PaketType P) (fuel : ℕ) (old : P) (frame rest : Text)
      (c : Sclient net) : Type 0 where
    pub head : Head
    pub framed : IsFrame net.codec frame head
    pub enough : head.consumed < fuel
    pub empty : c.in_buff ≡ []
    pub coming : law.pending c.world ≡ frame ++ rest
    pub parsed : (type.read old frame).result ≡ some (pos (length frame))

  pub Exchanged-read :
      {P : Type 0} (type : PaketType P) (fuel : ℕ) (old : P) (frame rest : Text) (c : Sclient net)
      → Arrives type fuel old frame rest c
      → Exchanged [] rest (type.read old frame).paket c (read_paket type fuel old c)
  Exchanged-read type fuel old frame rest c a =
      let r =
        read_paket-Answered law frame rest a.head a.framed type fuel old c a.enough a.empty a.coming
          a.parsed in
      record {
        returned = r.returned;
        went = r.quiet ∙ sym (append-nil (law.sent c.world));
        left = r.left;
        emptied = r.emptied;
        kept = r.kept;
      }

  Exchanged-write :
      {P B : Type 0} (sent : PaketType P) (id : ℤ) (paket : P) (bytes out rest : Text) (value : B)
      (next : Exec (Sclient net) B) (c : Sclient net)
      → IsWritten law sent id paket bytes
      → ((d : Sclient net)
          → law.pending d.world ≡ law.pending c.world
          → d.in_buff ≡ c.in_buff
          → Exchanged out rest value d (next d))
      → Exchanged (bytes ++ out) rest value c ((write_paket sent id paket >> next) c)
  Exchanged-write sent id paket bytes out rest value next c w then =
      let r = write_paket-Written law sent id paket bytes c w in
      let d = (write_paket sent id paket c).1 in
      let e = then d r.left r.buffer in
      subst (Exchanged (bytes ++ out) rest value c)
        (sym (bind_ok (write_paket sent id paket) (λ _. next) c tt r.returned))
        (record {
          returned = e.returned;
          went =
              e.went
              ∙ ap (λ (t : Text). t ++ out) r.went
              ∙ append_assoc (law.sent c.world) bytes out;
          left = e.left;
          emptied = e.emptied;
          kept = e.kept ∙ r.kept;
        })

  -- The packet is still to come after a message of the client.
  pub Arrives-later :
      {P : Type 0} (type : PaketType P) (fuel : ℕ) (old : P) (frame rest : Text) (c d : Sclient net)
      → law.pending d.world ≡ law.pending c.world
      → d.in_buff ≡ c.in_buff
      → Arrives type fuel old frame rest c
      → Arrives type fuel old frame rest d
  Arrives-later type fuel old frame rest c d p b a = record {
    head = a.head;
    framed = a.framed;
    enough = a.enough;
    empty = b ∙ a.empty;
    coming = p ∙ a.coming;
    parsed = a.parsed;
  }

  module _ {P Q R : Type 0} (first : PaketType P) (second : PaketType Q) (answer : PaketType R)
      (i j : ℤ) (p : P) (q : Q) (old : R) (fuel : ℕ) (b1 b2 frame rest : Text) where
    -- Two packets go out and one comes back.
    Exchanged-two :
        (c : Sclient net)
        → IsWritten law first i p b1
        → IsWritten law second j q b2
        → Arrives answer fuel old frame rest c
        → Exchanged
            (b1 ++ b2)
            rest
            (answer.read old frame).paket
            c
            ((write_paket first i p >> (write_paket second j q >> read_paket answer fuel old)) c)
    Exchanged-two c w1 w2 a =
        subst
          (λ out.
            Exchanged (b1 ++ out) rest (answer.read old frame).paket c
              ((write_paket first i p >> (write_paket second j q >> read_paket answer fuel old)) c))
          (append-nil b2)
          (Exchanged-write first i p b1 _ rest _ _ c w1 λ d p1 e1.
            Exchanged-write second j q b2 _ rest _ _ d w2 λ k p2 e2.
              Exchanged-read answer fuel old frame rest k
                (Arrives-later answer fuel old frame rest c k (p2 ∙ p1) (e2 ∙ e1) a))

  -- If the server sends one packet that the library accepts as a response, `status` sends the
  -- handshake of the state 1 and the request, and nothing else, returns the response, and leaves what
  -- the server sends after it.
  pub status-Exchanged :
      (fuel : ℕ) (name : Text) (port : ℕ) (b1 b2 frame rest : Text) (c : Sclient net)
      → IsWritten law net.codec.handshake (pos 0) (hello name port (pos 1)) b1
      → IsWritten law net.codec.request (pos 0) (record {}) b2
      → Arrives net.codec.response fuel (record { message = [] }) frame rest c
      → Exchanged
          (b1 ++ b2)
          rest
          (net.codec.response.read (record { message = [] }) frame).paket
          c
          (status fuel name port c)
  unfolding status
  status-Exchanged fuel name port b1 b2 frame rest c w1 w2 a =
      Exchanged-two net.codec.handshake net.codec.request net.codec.response (pos 0) (pos 0) _ _ _
        fuel b1 b2 frame rest c w1 w2 a

  pub login-Exchanged :
      (fuel : ℕ) (name : Text) (port : ℕ) (nick b1 b2 frame rest : Text) (c : Sclient net)
      → IsWritten law net.codec.handshake (pos 0) (hello name port (pos 2)) b1
      → IsWritten law net.codec.login (pos 0) (record { name = nick }) b2
      → Arrives net.codec.disconnect fuel (record { message = [] }) frame rest c
      → Exchanged
          (b1 ++ b2)
          rest
          (net.codec.disconnect.read (record { message = [] }) frame).paket
          c
          (login fuel name port nick c)
  unfolding login
  login-Exchanged fuel name port nick b1 b2 frame rest c w1 w2 a =
      Exchanged-two net.codec.handshake net.codec.login net.codec.disconnect (pos 0) (pos 0) _ _ _
        fuel b1 b2 frame rest c w1 w2 a
