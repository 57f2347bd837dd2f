-- ===== src/PingTool/Main/Server.antt =====
-- A server that answers the ping tool, and the client's side of a run against it.
use mcshub.Base.{
  ◌≡◌, refl, sym, ap, subst, ◌∙◌, ℕ, ◌<◌, ◌/◌, ◌^◌, some, List, [], ◌++◌, length, ℤ, pos,
  wrap_int64, Text, str,
}
use mcshub.Exec.{Result, ok, pure, ◌>>=◌}
use mcshub.Exec.Rules.{bind_ok, bind_eq}
use mcshub.Paket.{Head, Response, to_string}
use mcshub.PingTool.{HostInfo}
use mcshub.PingTool.Main.{status, ping, line, printed}
use mcshub.Sclient
use mcshub.Sclient.{
  Network, Sclient, in_world, hello, new_sclient, milliseconds, status_of, ping_now, timestamp,
}
use mcshub.Sclient.Loops.{Reliable}
use mcshub.Sclient.Frames.{IsFrame}
use mcshub.Sclient.Written.{IsWritten}
use mcshub.Sclient.Answers.{Exchanged, Arrives, status-Exchanged}
use mcshub.Sclient.Pinged.{Ticks, ping-Exchanged, in_world_ok}

module _ {net : Network} (law : Reliable net) where
  -- A server that can be reached from `start`, and that sends two packets, which the library accepts as
  -- an answer to a request for the status and one to a ping, and then `rest`.
  pub record Serves (fuel : ℕ) (host : HostInfo) (start : net.World) : Type 0 where
    pub conns : List net.Endpoint
    pub found : net.World
    pub joined : net.World
    pub asked : net.World
    pub port : ℕ
    pub resolved : net.resolve_name host.host host.port start ≡ (ok conns, found)
    pub opened : net.open_socket conns found ≡ (ok tt, joined)
    pub known : net.remote_port joined ≡ (ok port, asked)
    pub hello_bytes : Text
    pub request_bytes : Text
    pub ping_bytes : ℤ → Text
    pub hello_written :
        IsWritten law net.codec.handshake (pos 0) (hello host.host port (pos 1)) hello_bytes
    pub request_written : IsWritten law net.codec.request (pos 0) (record {}) request_bytes
    pub ping_written :
        (payload : ℤ)
        → IsWritten law net.codec.pinpong
            (pos 1)
            (record { payload = payload })
            (ping_bytes payload)
    pub status_frame : Text
    pub pong_frame : Text
    pub rest : Text
    pub status_head : Head
    pub pong_head : Head
    pub status_framed : IsFrame net.codec status_frame status_head
    pub pong_framed : IsFrame net.codec pong_frame pong_head
    pub status_enough : status_head.consumed < fuel
    pub pong_enough : pong_head.consumed < fuel
    pub coming : law.pending asked ≡ status_frame ++ (pong_frame ++ rest)
    pub status_parsed :
        (net.codec.response.read (record { message = [] }) status_frame).result
        ≡ some (pos (length status_frame))
    pub pong_parsed :
        (payload : ℤ)
        → (net.codec.pinpong.read (record { payload = payload }) pong_frame).result
          ≡ some (pos (length pong_frame))

  module _ (fuel : ℕ) (host : HostInfo) (start : net.World) (s : Serves fuel host start) where
    abbrev pub client_at : net.World → Sclient net
    client_at w = record { conns = s.conns; in_buff = []; world = w }

    abbrev pub answer : Response
    answer = (net.codec.response.read (record { message = [] }) s.status_frame).paket

    pub made : new_sclient host.host host.port start ≡ (ok (client_at s.joined), s.joined)
    unfolding new_sclient ◌>>=◌
    made = rw (s.resolved, ◌>>=◌) (rw (s.opened, ◌>>=◌) refl)

    -- The status, as `entry` asks for it.
    pub asked_status :
        Exchanged law
          (s.hello_bytes ++ s.request_bytes)
          (s.pong_frame ++ s.rest)
          answer
          (client_at s.asked)
          (status_of fuel host.host (client_at s.joined))
    unfolding status_of
    asked_status =
        subst
          (Exchanged law (s.hello_bytes ++ s.request_bytes) (s.pong_frame ++ s.rest) answer
            (client_at s.asked))
          (sym (
            bind_eq (in_world net.remote_port) _ (client_at s.joined) (client_at s.asked) s.port
              (in_world_ok law net.remote_port (client_at s.joined) s.port s.asked s.known)))
          (status-Exchanged law fuel host.host s.port s.hello_bytes s.request_bytes s.status_frame
            (s.pong_frame ++ s.rest) (client_at s.asked) s.hello_written s.request_written
            (record {
              head = s.status_head;
              framed = s.status_framed;
              enough = s.status_enough;
              empty = refl;
              coming = s.coming;
              parsed = s.status_parsed;
            }))

    abbrev pub after_status : Sclient net
    after_status = (status_of fuel host.host (client_at s.joined)).1

    pub printed-status :
        printed fuel host.host status (client_at s.joined)
        ≡ (ok (line answer.message), after_status)
    unfolding printed pure
    printed-status =
        bind_ok (status_of fuel host.host) (λ res. pure (line res.message)) (client_at s.joined)
          answer asked_status.returned

    module _ (k : Ticks law) where
      abbrev pub stamp : ℤ
      stamp = wrap_int64 (k.time after_status.world / 10 ^ 9)

      abbrev pub stamped : Sclient net
      stamped = record after_status { world = k.after after_status.world }

      stamp_lem : timestamp after_status ≡ (ok (k.time after_status.world / 10 ^ 9), stamped)
      unfolding timestamp pure
      stamp_lem =
          bind_eq (in_world net.now) (λ t. pure (t / 10 ^ 9)) after_status stamped
            (k.time after_status.world)
            (in_world_ok law net.now after_status (k.time after_status.world)
              (k.after after_status.world) (k.reads after_status.world))

      pong_Arrives :
          Arrives law net.codec.pinpong fuel
            (record { payload = stamp })
            s.pong_frame
            s.rest
            stamped
      pong_Arrives = record {
        head = s.pong_head;
        framed = s.pong_framed;
        enough = s.pong_enough;
        empty = asked_status.emptied;
        coming = k.still _ ∙ asked_status.left;
        parsed = s.pong_parsed stamp;
      }

      starts : ping_now fuel after_status ≡ Sclient.ping fuel stamp stamped
      unfolding ping_now
      starts =
          bind_eq timestamp (λ t. Sclient.ping fuel (wrap_int64 t)) after_status stamped
            (k.time after_status.world / 10 ^ 9) stamp_lem

      pub pinged :
          (w : net.World) × Exchanged law
            (s.ping_bytes stamp)
            s.rest
            (milliseconds (k.time stamped.world) (k.time w))
            stamped
            (ping_now fuel after_status)
          × ((ping_now fuel after_status).1.world ≡ k.after w)
      unfolding ping_now
      pinged =
          let (w, done, last) =
            ping-Exchanged law k fuel stamp (s.ping_bytes stamp) s.pong_frame s.rest stamped
              (s.ping_written stamp) pong_Arrives in
          (
            w,
            subst
                (Exchanged law (s.ping_bytes stamp) s.rest
                  (milliseconds (k.time stamped.world) (k.time w)) stamped)
                (sym starts) done,
            ap (λ (o : Result ℤ × Sclient net). o.1.world) starts ∙ last,
          )

      pub printed-ping : printed fuel host.host ping (client_at s.joined) ≡ (
        ok (line (to_string (milliseconds (k.time stamped.world) (k.time pinged.0)) ++ str "ms")),
        (ping_now fuel after_status).1,
      )
      unfolding printed pure
      printed-ping =
          bind_ok (status_of fuel host.host) _ (client_at s.joined) answer asked_status.returned
          ∙ bind_ok (ping_now fuel) (λ time. pure (line (to_string time ++ str "ms"))) after_status
              _ pinged.1.returned
