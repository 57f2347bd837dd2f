-- ===== src/Tests/Client.antt =====
-- A status, a ping and a run of the ping tool over a socket that moves one byte at a time.
use mcshub.Base.{
  ◌≡◌, ◌≢◌, refl, ℕ, zero, suc, ◌+◌, ◌≤◌, ◌<◌, arith, Option, none, some, [], ◌∷◌, ◌++◌, ℤ, pos,
  Text, str, length, take,
}
use mcshub.Exec.{Result, ok}
use mcshub.Paket.{Head, PaketType}
use mcshub.PingTool.Main.{Run, main}
use mcshub.PingTool.Main.Runs.{Ends, main-Ends}
use mcshub.Sclient.{Network, Sclient, hello, status}
use mcshub.Sclient.Loops.{Reliable}
use mcshub.Sclient.Frames.{IsFrame}
use mcshub.Sclient.Written.{IsWritten}
use mcshub.Sclient.Answers.{Exchanged, Arrives, status-Exchanged}
use mcshub.Sclient.Pinged.{Ticks}

pub record Wire : Type 0 where
  pub coming : Text
  pub gone : Text
  pub clock : ℕ

abbrev pub one : ℕ → Text → Text
one zero t = []
one (suc n) [] = []
one (suc n) (x ∷ t) = x ∷ []

abbrev pub but_one : ℕ → Text → Text
but_one zero t = t
but_one (suc n) [] = []
but_one (suc n) (x ∷ t) = t

abbrev pub test_paket : {P : Type 0} → PaketType P
test_paket = record {
  size = λ p. 1;
  read = λ old s. record { paket = old; result = some (pos (length s)) };
  write = λ p n. some (2 ∷ 0 ∷ 7 ∷ []);
}

abbrev pub test_head : Text → Option Head
test_head [] = none
test_head (c ∷ s) = some (record { consumed = 1; size = pos c; id = pos 0 })

abbrev pub test_net : Network
test_net = record {
  World = Wire;
  Endpoint = Text × Text;
  resolve_name = λ host service w. (ok ((host, service) ∷ []), w);
  open_socket = λ ends w. (ok tt, w);
  read = λ n w. (
    one n w.coming,
    ok (pos (length (one n w.coming))),
    record w { coming = but_one n w.coming },
  );
  write = λ b w. (ok (pos (length (one 1 b))), record w { gone = w.gone ++ one 1 b });
  remote_port = λ w. (ok 25565, w);
  now = λ w. (ok w.clock, record w { clock = w.clock + 5000000 });
  codec = record {
    head = test_head;
    handshake = test_paket;
    request = test_paket;
    response = test_paket;
    pinpong = test_paket;
    disconnect = test_paket;
    login = test_paket;
  };
  size_varint = λ n. 1;
}

pub read_takes :
    (n : ℕ) (w : Wire)
    → 0 < n
    → w.coming ≢ []
    → (0 < length (one n w.coming))
      × (length (one n w.coming) ≤ n)
      × (◌≡◌ {A = Result ℤ}
          (ok (pos (length (one n w.coming))))
          (ok (pos (length (one n w.coming)))))
      × (w.coming ≡ one n w.coming ++ but_one n w.coming)
      × (w.gone ≡ w.gone)
read_takes n w h k = taken n w.coming h k
  where
    taken :
        (m : ℕ) (t : Text)
        → 0 < m
        → t ≢ []
        → (0 < length (one m t))
          × (length (one m t) ≤ m)
          × (◌≡◌ {A = Result ℤ} (ok (pos (length (one m t)))) (ok (pos (length (one m t)))))
          × (t ≡ one m t ++ but_one m t)
          × (w.gone ≡ w.gone)
    taken zero t h k = absurd (omega arith)
    taken (suc m) [] h k = absurd (k refl)
    taken (suc m) (x ∷ t) h k = (omega arith, omega arith, refl, refl, refl)

pub write_takes :
    (b : Text) (w : Wire)
    → b ≢ []
    → (k : ℕ) × (0 < k)
      × (k ≤ length b)
      × (◌≡◌ {A = Result ℤ} (ok (pos (length (one 1 b)))) (ok (pos k)))
      × (w.gone ++ one 1 b ≡ w.gone ++ take k b)
      × (w.coming ≡ w.coming)
write_takes [] w h = absurd (h refl)
write_takes (x ∷ b) w h = (1, omega arith, omega arith, refl, refl, refl)

abbrev pub test_law : Reliable test_net
test_law = record {
  pending = λ w. w.coming;
  sent = λ w. w.gone;
  read_takes = read_takes;
  write_takes = write_takes;
}

abbrev pub test_frame : Text
test_frame = 2 ∷ 0 ∷ 7 ∷ []

pub test_early : (k : ℕ) → k < 1 → test_head (take k test_frame) ≡ none
test_early zero h = refl
test_early (suc k) h = absurd (omega arith)

abbrev pub test_IsFrame :
    IsFrame test_net.codec test_frame (record { consumed = 1; size = pos 2; id = pos 0 })
test_IsFrame = record {
  body = 2;
  sized = refl;
  whole = refl;
  known = refl;
  early = test_early;
  small = omega arith;
}

pub test_IsWritten : {P : Type 0} (id : ℤ) (p : P) → IsWritten test_law test_paket id p test_frame
test_IsWritten id p = record { counted = refl; encoded = refl; small = omega arith }

-- The answer, and a byte of what comes after it.
abbrev test_client : Sclient test_net
test_client = record {
  conns = [];
  in_buff = [];
  world = record { coming = test_frame ++ 9 ∷ []; gone = []; clock = 1 };
}

test_Arrives :
    {P : Type 0} (old : P) → Arrives test_law test_paket 2 old test_frame (9 ∷ []) test_client
test_Arrives old = record {
  head = record { consumed = 1; size = pos 2; id = pos 0 };
  framed = test_IsFrame;
  enough = omega arith;
  empty = refl;
  coming = refl;
  parsed = refl;
}

abbrev pub test_Ticks : Ticks test_law
test_Ticks = record {
  time = λ w. w.clock;
  after = λ w. record w { clock = w.clock + 5000000 };
  reads = λ w. refl;
  quiet = λ w. refl;
  still = λ w. refl;
}

status-Exchanged_example :
    Exchanged test_law
      (test_frame ++ test_frame)
      (9 ∷ [])
      (record { message = [] })
      test_client
      (status 2 (str "a") 25565 test_client)
status-Exchanged_example =
    status-Exchanged test_law 2 (str "a") 25565 test_frame test_frame test_frame (9 ∷ [])
      test_client (test_IsWritten (pos 0) (hello (str "a") 25565 (pos 1)))
      (test_IsWritten (pos 0) (record {})) (test_Arrives (record { message = [] }))

abbrev pub test_run : Run test_net
test_run = record { world = test_client.world; out = []; errors = [] }

main-Ends_example :
    Ends 2 test_run
      (main (str "1.0") (λ e. str "failed") 2 (str "pingtool") (str "a" ∷ str "ping" ∷ []) test_run)
main-Ends_example =
    main-Ends (str "1.0") (λ e. str "failed") 2 (str "pingtool") (str "a" ∷ str "ping" ∷ [])
      test_run
