-- ===== src/Sclient.antt =====
-- src/sclient.hpp and src/sclient.cpp: the client that fetches a status, pings and logs in. Its
-- socket blocks. A crash stands for a failed `assert` and for a loop that has not ended within its
-- bound: at the end of the stream `read` takes 0 bytes in each round, and the source loops on.
pub mod Loops
pub mod Sending
pub mod Frames
pub mod Written
pub mod Answers
pub mod Pinged
use mcshub.Base.{
  ℕ, zero, suc, ◌+◌, ◌-◌, ◌%◌, ◌^◌, Option, none, some, List, [], ◌++◌, ltb, leb, ◌/◌, wrap_int64,
  ◌==◌, if◌then◌else◌, ℤ, pos, minus_one, int_eq, to_size_t, negsuc, Text, length, take, drop,
  replicate,
}
use mcshub.Exec.{
  Exec, Result, ok, err, crash, continue, Error, paket_error, pure, throw, crashed, gets, modify,
  skip, ◌>>=◌, ◌>>◌,
}
use mcshub.Paket.{
  Handshake, Request, Response, Pinpong, Disconnect, Login, Head, PaketType, ReadResult, Codec,
}

-- What the client asks of the system and of the packet library. `read n` says what the call puts at
-- the start of the buffer of `n` bytes.
pub record Network : Type 1 where
  pub World : Type 0
  pub Endpoint : Type 0
  pub resolve_name : Text → Text → Exec World (List Endpoint)
  pub open_socket : List Endpoint → Exec World (Unit {0})
  pub read : ℕ → World → Text × Result ℤ × World
  pub write : Text → Exec World ℤ
  pub remote_port : Exec World ℕ
  -- `system_clock::now`, in nanoseconds since the epoch.
  pub now : Exec World ℕ
  pub codec : Codec
  pub size_varint : ℤ → ℕ

-- The class `sclient`.
pub record Sclient (net : Network) : Type 0 where
  pub conns : List net.Endpoint
  pub in_buff : Text
  pub world : net.World

-- `bytes` written over a buffer from `at` on.
unfoldable pub overwrite : ℕ → Text → Text → Text
overwrite at bytes buf = take at buf ++ (bytes ++ drop (at + length bytes) buf)

negated : ℕ → ℤ
negated zero = pos 0
negated (suc n) = negsuc n

-- `duration_cast<milliseconds>`, towards zero; the clock may have been set back.
unfoldable pub milliseconds : ℕ → ℕ → ℤ
unfolding negated
milliseconds start end =
    if leb start end then pos ((end - start) / 10 ^ 6) else negated ((start - end) / 10 ^ 6)

unfoldable pub hello : Text → ℕ → ℤ → Handshake
hello name port state = record { version = minus_one; address = name; port = port; state = state }

module _ {net : Network} {A : Type 0} where
  abbrev pub in_world : Exec net.World A → Exec (Sclient net) A
  in_world m c = ((m c.world).0, record c { world = (m c.world).1 })

module _ {net : Network} where
  -- The constructors: names are resolved, then the socket is opened.
  unfoldable pub new_sclient : Text → Text → Exec net.World (Sclient net)
  new_sclient host service w =
      (do
        conns ← net.resolve_name host service
        net.open_socket conns
        λ v. (ok (record { conns = conns; in_buff = []; world = v }), v))
        w

  unfoldable pub reconnect : Exec (Sclient net) (Unit {0})
  reconnect c = in_world (net.open_socket c.conns) c

  unfoldable pub read_once : ℕ → ℕ → Exec (Sclient net) ℤ
  unfolding overwrite
  read_once n at c =
      let (bytes, r, w) = net.read n c.world in
      (r, record c { in_buff = overwrite at bytes c.in_buff; world = w })

  -- The loop of `read`, with at most `fuel` rounds; the new bytes start at `base`. It is a crash where the
  -- bound is used up, which does not happen while each round moves a byte; at the end of the stream none
  -- does.
  unfoldable pub read_loop : ℕ → ℕ → ℕ → ℕ → Exec (Sclient net) (Unit {0})
  unfolding read_once
  read_loop zero n base received c = (crash, c)
  read_loop (suc fuel) n base received c =
      let again = λ (k : ℤ). read_loop fuel n base ((received + to_size_t k) % 2 ^ 64) in
      if ltb received n
      then (read_once (n - received) (base + received) >>= again) c
      else (ok tt, c)

  -- The buffer grows by bytes that are not determined yet.
  unfoldable pub read : ℕ → Exec (Sclient net) (Unit {0})
  unfolding read_loop
  read n c =
      read_loop (suc n) n (length c.in_buff) 0 (record c { in_buff = c.in_buff ++ replicate n 0 })

  -- The loop of `write`, likewise.
  unfoldable pub write_loop : ℕ → Text → ℕ → Exec (Sclient net) (Unit {0})
  write_loop zero text received c = (crash, c)
  write_loop (suc fuel) text received c =
      let again = λ (k : ℤ). write_loop fuel text ((received + to_size_t k) % 2 ^ 64) in
      if ltb received (length text)
      then (in_world (net.write (drop received text)) >>= again) c
      else (ok tt, c)

  unfoldable pub write : Text → Exec (Sclient net) (Unit {0})
  unfolding write_loop
  write text = write_loop (suc (length text)) text 0

  -- The size of the packet that starts in the buffer; bytes are fetched one by one until it is known.
  unfoldable pub peek_head : ℕ → Exec (Sclient net) ℕ
  unfolding read
  peek_head zero c = (crash, c)
  peek_head (suc fuel) c =
      let again = peek_head fuel in
      elim (net.codec.head c.in_buff) [
        | none ↦ (read 1 >>= λ _. again) c
        | some h ↦ (ok ((h.consumed + to_size_t h.size) % 2 ^ 64), c)
      ]

  module _ {P : Type 0} (type : PaketType P) where
    -- The `assert` on what the library has read.
    unfoldable pub received_paket : ℕ → ReadResult P → Exec (Sclient net) P
    received_paket size r c = elim r.result [
      | none ↦ (err paket_error, c)
      | some s ↦
          if to_size_t s == size
          then (ok r.paket, record c { in_buff = drop size c.in_buff })
          else (crash, c)
    ]

    unfoldable pub read_paket : ℕ → P → Exec (Sclient net) P
    unfolding peek_head received_paket
    read_paket fuel old = do
      size ← peek_head fuel
      (λ c. read ((size + 2 ^ 64 - length c.in_buff) % 2 ^ 64) c)
      λ c. received_paket size (type.read old (take size c.in_buff)) c

    -- The `assert` on what the library has written.
    unfoldable pub written_paket : ℕ → Option Text → Exec (Sclient net) (Unit {0})
    unfolding write
    written_paket size none = crashed
    written_paket size (some bytes) = if length bytes == size then write bytes else crashed

    unfoldable pub write_paket : ℤ → P → Exec (Sclient net) (Unit {0})
    unfolding written_paket
    write_paket id paket =
        let size = type.size paket in
        let whole = size + net.size_varint id + net.size_varint (pos size) in
        written_paket whole (type.write paket whole)

  -- The number bounds the rounds of `peek_head`.
  unfoldable pub status : ℕ → Text → ℕ → Exec (Sclient net) Response
  unfolding write_paket read_paket hello
  status fuel name port = do
    write_paket net.codec.handshake (pos 0) (hello name port (pos 1))
    write_paket net.codec.request (pos 0) (record {})
    read_paket net.codec.response fuel (record { message = [] })

  -- The packet that comes back replaces the one that was sent; the result is the time that passed.
  unfoldable pub ping : ℕ → ℤ → Exec (Sclient net) ℤ
  ping fuel payload = do
    start ← in_world net.now
    write_paket net.codec.pinpong (pos 1) (record { payload = payload })
    pp ← read_paket net.codec.pinpong fuel (record { payload = payload })
    end ← in_world net.now
    pure (milliseconds start end)

  -- With the port of the connection.
  unfoldable pub status_of : ℕ → Text → Exec (Sclient net) Response
  unfolding status
  status_of fuel name = do port ← in_world net.remote_port; status fuel name port

  -- `system_clock::to_time_t`: in seconds.
  unfoldable pub timestamp : Exec (Sclient net) ℕ
  timestamp = do t ← in_world net.now; pure (t / 10 ^ 9)

  -- With the current time as the payload.
  unfoldable pub ping_now : ℕ → Exec (Sclient net) ℤ
  unfolding ping timestamp
  ping_now fuel = do t ← timestamp; ping fuel (wrap_int64 t)

  unfoldable pub login : ℕ → Text → ℕ → Text → Exec (Sclient net) Disconnect
  login fuel name port nick = do
    write_paket net.codec.handshake (pos 0) (hello name port (pos 2))
    write_paket net.codec.login (pos 0) (record { name = nick })
    read_paket net.codec.disconnect fuel (record { message = [] })
