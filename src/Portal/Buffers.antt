-- ===== src/Portal/Buffers.antt =====
-- The methods of the class `gate`, src/client.cpp.
use mcshub.Base.{
  ℕ, ◌+◌, ◌-◌, Bool, not, Option, none, some, [], ◌++◌, ltb, leb, ◌==◌, if◌then◌else◌, ℤ, pos,
  negsuc, minus_one, int_eq, wrap_int32, to_size_t, Text, length, take, drop,
}
use mcshub.Exec.{
  Exec, Result, ok, err, crash, packet_format, negative_size, oversized, bad_request, paket_error,
  pure, modify, ◌>>=◌, ◌>>◌,
}
use mcshub.Paket.{Head, PaketType, ReadResult}
use mcshub.Platform.{Platform, Side, client}
use mcshub.Portal.{Portal, gate, set_input, set_output, in_world}

-- The size that `head` finds is refused below 0, and above the configured maximum unless that
-- is -1.
unfoldable pub is_oversized : ℕ → ℤ → Bool
is_oversized size (pos m) = ltb m size
is_oversized size (negsuc k) = not (k == 0)

-- The output after a packet has been written behind it: on -1 one byte more than the new ones is
-- taken off the buffer.
unfoldable pub appended : Text → Option Text → Text
appended out none = take (length out - 1) out
appended out (some bytes) = out ++ bytes

module _ {pf : Platform} where
  -- `output.move(written)` drops what the socket has taken.
  unfoldable pub written : Side → ℤ → Portal pf → Portal pf
  written side n p =
      if int_eq n minus_one then p else set_output side (drop (to_size_t n) (gate side p).output) p

  unfoldable pub send_some : Side → Exec (Portal pf) (Unit {0})
  unfolding written
  send_some side p =
      (do n ← in_world (pf.write side (gate side p).output); modify (written side n)) p

  unfoldable pub send : Side → Exec (Portal pf) (Unit {0})
  unfolding send_some
  send side p = if length (gate side p).output == 0 then (ok tt, p) else send_some side p

  -- The buffer has grown before the socket is read, and keeps its size if that fails.
  unfoldable pub read_some : Side → ℕ → Exec (Portal pf) (Unit {0})
  read_some side n p =
      let (bytes, r, w) = pf.read side n p.sys.world in
      (
        r,
        set_input side ((gate side p).input ++ bytes)
            (record p { sys = record p.sys { world = w } }),
      )

  unfoldable pub receive : Side → Exec (Portal pf) (Unit {0})
  unfolding read_some
  receive side = do n ← in_world (pf.avail side); read_some side n

  unfoldable pub tunnel : Side → Side → Exec (Portal pf) (Unit {0})
  unfolding send
  tunnel self other = do
    modify (λ p. set_output other ((gate other p).output ++ (gate self p).input) p)
    modify (set_input self [])
    send other

  unfoldable pub whole_paket : Head → ℕ → Portal pf → Side → Option (ℤ × ℕ)
  whole_paket h size p side =
      let total = wrap_int32 (size + h.consumed) in
      if leb (to_size_t total) (length (gate side p).input)
      then some (h.id, to_size_t total)
      else none

  unfoldable pub head_sized : Side → Portal pf → Head → ℤ → Result (Option (ℤ × ℕ))
  head_sized side p h (negsuc k) = err (bad_request negative_size)
  head_sized side p h (pos size) =
      if is_oversized size p.shared_conf.max_packet_size
      then err (bad_request oversized)
      else ok (whole_paket h size p side)

  unfoldable pub head_found : Side → Portal pf → Option Head → Result (Option (ℤ × ℕ))
  unfolding head_sized
  head_found side p none = ok none
  head_found side p (some h) = head_sized side p h h.size

  -- The id and the whole size of the packet at the start of the input, once all of it is there.
  unfoldable pub head : Side → Exec (Portal pf) (Option (ℤ × ℕ))
  unfolding head_found whole_paket is_oversized
  head side p = (head_found side p (pf.codec.head (gate side p).input), p)

  -- The result of the `assert` in `kostilA` and `kostilB`.
  unfoldable pub injected : Side → Option Text → Exec (Portal pf) (Unit {0})
  injected side none p = (crash, p)
  injected side (some bytes) p = (ok tt, set_input side ((gate side p).input ++ bytes) p)

  module _ {P : Type 0} (side : Side) (type : PaketType P) where
    -- What follows the library's `read` of `size` bytes.
    unfoldable pub read_done : ℕ → ReadResult P → Exec (Portal pf) (Option P)
    read_done size r p = elim r.result [
      | none ↦ (err paket_error, p)
      | some s ↦
          if int_eq s (pos size)
          then (ok (some r.paket), set_input side (drop size (gate side p).input) p)
          else (err (bad_request packet_format), p)
    ]

    -- `store` keeps what was read in the portal, also where the packet turns out to be wrong. The
    -- result is `none` while the packet is not complete.
    unfoldable pub paket_read : P → (P → Portal pf → Portal pf) → Exec (Portal pf) (Option P)
    unfolding head read_done
    paket_read old store = do
      found ← head side
      elim found [
        | none ↦ pure none
        | some (id, size) ↦ λ p.
            let r = type.read old (take size (gate side p).input) in
            read_done size r (store r.paket p)
      ]

    unfoldable pub paket_write : P → Exec (Portal pf) (Unit {0})
    unfolding send appended
    paket_write paket = do
      modify (λ p.
          set_output side (appended (gate side p).output (type.write paket (10 + type.size paket)))
            p)
      send side

    -- `kostilA` and `kostilB`: a packet that the client did not send is put at the end of its input.
    unfoldable pub inject : P → Exec (Portal pf) (Unit {0})
    unfolding injected
    inject paket = injected side (type.write paket (10 + type.size paket))

  unfoldable pub kostil_a : Exec (Portal pf) (Unit {0})
  unfolding inject
  kostil_a = inject client pf.codec.request (record {})

  unfoldable pub kostil_b : Text → Exec (Portal pf) (Unit {0})
  unfolding inject
  kostil_b nick = inject client pf.codec.login (record { name = nick })
