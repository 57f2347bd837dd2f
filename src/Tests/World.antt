-- ===== src/Tests/World.antt =====
-- A small world to run the hub in: two sockets that take one byte at a time, an endless supply of
-- working connections, and a packet library with packets of one length byte and their content.
use mcshub.Base.{
  ◌≡◌, ◌≢◌, refl, ℕ, ◌+◌, true, Option, none, some, [], ◌∷◌, ◌++◌, ◌==◌, if◌then◌else◌, ℤ, pos,
  Text, str, length, take, drop,
}
use mcshub.Exec.{ok}
use mcshub.Paket.{Head, PaketType}
use mcshub.Platform.{Side, client, backend, Platform, System}
use mcshub.Portal.Stream.{Sockets}
use mcshub.Vars.{Tools}

pub record Wire : Type 0 where
  pub sent : Text
  pub received : Text
  pub pending : Text

pub record TestWorld : Type 0 where
  pub from : Wire
  pub to : Wire

abbrev wire : Side → TestWorld → Wire
wire client w = w.from
wire backend w = w.to

abbrev set_wire : Side → Wire → TestWorld → TestWorld
set_wire client x w = record w { from = x }
set_wire backend x w = record w { to = x }

abbrev one_byte : Text → ℕ
one_byte [] = 0
one_byte (c ∷ s) = 1

abbrev write_wire : Text → Wire → Wire
write_wire b x = record x { sent = x.sent ++ take (one_byte b) b }

abbrev read_wire : ℕ → Wire → Wire
read_wire n x = record x { received = x.received ++ take n x.pending; pending = drop n x.pending }

abbrev index_of : ℕ → Text → ℕ → Option ℕ
index_of c [] n = none
index_of c (d ∷ s) n = let rest = index_of c s (n + 1) in if d == c then some n else rest

abbrev closing : Option ℕ → ℤ
closing none = pos 0
closing (some n) = pos (n + 1)

abbrev pub test_tools : Tools
test_tools = record {
  find_closing_bracket = λ s. closing (index_of b'}' s 0);
  trim_string = λ s. (0, length s);
  find_char = λ s. index_of b':' s 0;
}

abbrev test_head : Text → Option Head
test_head [] = none
test_head (c ∷ s) = some (record { consumed = 1; size = pos c; id = pos 0 })

abbrev test_paket : {P : Type 0} → PaketType P
test_paket = record {
  size = λ p. 1;
  read = λ old s. record { paket = old; result = some (pos (length s)) };
  write = λ p n. some (0 ∷ []);
}

abbrev pub test_platform : Platform
test_platform = record {
  World = TestWorld;
  Endpoint = Text × ℕ;
  avail = λ side w. (ok (length (wire side w).pending), w);
  read = λ side n w.
      (take n (wire side w).pending, ok tt, set_wire side (read_wire n (wire side w)) w);
  write = λ side b w. (ok (pos (one_byte b)), set_wire side (write_wire b (wire side w)) w);
  open_backend = λ ends w. (ok tt, w);
  close_backend = λ w. (ok tt, w);
  last_error = λ w. (ok 0, w);
  ensure_connected = λ w. (ok 0, w);
  remote_endpoint = λ w. (ok (str "10.0.0.1"), w);
  resolve_name = λ h port w. (ok ((h, port) ∷ []), w);
  poll_add = λ w. (ok tt, w);
  poll_remove = λ w. (ok tt, w);
  poll_later = λ ms w. (ok 7, w);
  poll_refuse = λ t w. (ok true, w);
  file = λ w path. none;
  getenv = λ w name. none;
  uuid = λ w at. str "0";
  codec = record {
    head = test_head;
    handshake = test_paket;
    request = test_paket;
    response = test_paket;
    pinpong = test_paket;
    disconnect = test_paket;
    login = test_paket;
  };
  tools = test_tools;
  resources = record {
    mcsman_status = str "m";
    mcsman_login = str "${x}";
    fallback_status = str "$x";
    fallback_login = str "f";
  };
}

write_other :
    (side other : Side) (b : Text) (w : TestWorld)
    → side ≢ other
    → (wire other (set_wire side (write_wire b (wire side w)) w)).sent ≡ (wire other w).sent
write_other client client b w h = absurd (h refl)
write_other client backend b w h = refl
write_other backend client b w h = refl
write_other backend backend b w h = absurd (h refl)

write_received :
    (side other : Side) (b : Text) (w : TestWorld)
    → (wire other (set_wire side (write_wire b (wire side w)) w)).received ≡ (wire other w).received
write_received client client b w = refl
write_received client backend b w = refl
write_received backend client b w = refl
write_received backend backend b w = refl

write_sent :
    (side : Side) (b : Text) (w : TestWorld)
    → (wire side (set_wire side (write_wire b (wire side w)) w)).sent
      ≡ (wire side w).sent ++ take (one_byte b) b
write_sent client b w = refl
write_sent backend b w = refl

read_sent :
    (side other : Side) (n : ℕ) (w : TestWorld)
    → (wire other (set_wire side (read_wire n (wire side w)) w)).sent ≡ (wire other w).sent
read_sent client client n w = refl
read_sent client backend n w = refl
read_sent backend client n w = refl
read_sent backend backend n w = refl

read_received :
    (side : Side) (n : ℕ) (w : TestWorld)
    → (wire side (set_wire side (read_wire n (wire side w)) w)).received
      ≡ (wire side w).received ++ take n (wire side w).pending
read_received client n w = refl
read_received backend n w = refl

read_other :
    (side other : Side) (n : ℕ) (w : TestWorld)
    → side ≢ other
    → (wire other (set_wire side (read_wire n (wire side w)) w)).received ≡ (wire other w).received
read_other client client n w h = absurd (h refl)
read_other client backend n w h = refl
read_other backend client n w h = refl
read_other backend backend n w h = absurd (h refl)

unfoldable pub test_sockets : Sockets test_platform
unfolding write_sent write_other write_received read_sent read_received read_other
test_sockets = record {
  sent = λ side w. (wire side w).sent;
  received = λ side w. (wire side w).received;
  write_sent = write_sent;
  write_other = write_other;
  write_received = write_received;
  write_result = λ side b w k e. cc;
  avail_sent = λ side other w. refl;
  avail_received = λ side other w. refl;
  read_sent = read_sent;
  read_received = λ side n w e. read_received side n w;
  read_other = read_other;
}

abbrev pub test_system : Text → Text → System test_platform
test_system from to = record {
  hosts_db = [];
  world = record {
    from = record { sent = []; received = []; pending = from };
    to = record { sent = []; received = []; pending = to };
  };
}
