-- ===== src/Tests/Portals.antt =====
-- A configuration, a new portal and one that forwards.
use mcshub.Base.{◌≡◌, refl, true, false, none, some, [], ◌∷◌, str, pos}
use mcshub.Exec.{catch, ok}
use mcshub.Portal.Buffers.{paket_read, send, receive, tunnel}
use mcshub.Platform.{client}
use mcshub.Portal.{Portal, State}
use mcshub.Portal.Coherence.{IsCoherent}
use mcshub.Portal.Control.{control}
use mcshub.Portal.Events.{Actions, on_from_event}
use mcshub.Portal.History.{new_portal, Step, Reach, Reach-IsCoherent}
use mcshub.Portal.Reading.{Reads, paket_read_cases}
use mcshub.Portal.Relay.{IsRelaying}
use mcshub.Portal.Requests.{process_from_request}
use mcshub.Portal.Stream.{queued, queued-send}
use mcshub.Portal.Transparency.{Run, Run-IsRelaying}
use mcshub.Settings.{BasicRecord, Settings}
use mcshub.Tests.World.{test_platform, test_sockets, test_system}

abbrev pub test_record : BasicRecord
test_record = record {
  address = str "backend";
  port = 25565;
  status = str "status.json";
  login = str "login.json";
  drop = false;
  mcsman = false;
  vars = [];
}

abbrev pub test_conf : Settings
test_conf = record {
  address = str "0.0.0.0";
  port = 25565;
  threads = 1;
  max_packet_size = pos 6000;
  timeout = 500;
  log = str "$std";
  verb = pos 4;
  distributed = false;
  domain = str ".example.com";
  default_server = record { base = test_record; fml = none };
  servers =
      (str "play", record { base = record test_record { port = 25566 }; fml = some test_record })
      ∷ [];
  dns_cache = true;
}

abbrev pub fresh : Portal test_platform
fresh = new_portal test_conf (test_system (str "hello") (str "world"))

-- Both sides are stable, and one byte waits on each side.
abbrev pub stable : Portal test_platform
stable = record fresh {
  from_s = State.proxy_stable;
  to_s = some State.proxy_stable;
  from = record { input = []; output = str "a" };
  to = record { input = []; output = str "b" };
}

-- One whole packet and the start of another have come in.
abbrev pub waiting : Portal test_platform
waiting = record fresh { from = record { input = 2 ∷ 65 ∷ 66 ∷ 9 ∷ []; output = [] } }

abbrev readable : Actions
readable = record { rdhup = false; hup = false; err = false; readable = true; writable = true }

pub stable_start : IsRelaying test_sockets (str "b") (str "a") stable
unfolding new_portal test_sockets
stable_start = ((refl, refl), record { up = refl; down = refl })

returned : (on_from_event readable stable).0 ≡ ok tt
unfolding new_portal on_from_event catch receive process_from_request tunnel
returned = refl

connected : (on_from_event readable stable).1.disconnected ≡ false
unfolding new_portal on_from_event catch receive process_from_request tunnel
connected = refl

Run-IsRelaying_example :
    IsRelaying test_sockets (str "b") (str "a") (on_from_event readable stable).1
Run-IsRelaying_example =
    Run-IsRelaying test_sockets (str "b") (str "a")
      (Run.client_event readable Run.here returned connected) stable_start

Reach-IsCoherent_example : IsCoherent (control (on_from_event readable fresh).1)
Reach-IsCoherent_example =
    Reach-IsCoherent test_conf (test_system (str "hello") (str "world"))
      (Reach.next Reach.here (Step.client_event fresh readable))

queued-send_example :
    queued test_sockets client (send client stable).1 ≡ queued test_sockets client stable
queued-send_example = queued-send test_sockets client stable

paket_read_cases_example :
    Reads client waiting test_platform.codec.login
      (record { name = [] })
      (paket_read client test_platform.codec.login (record { name = [] }) (λ x q. q) waiting)
paket_read_cases_example =
    paket_read_cases client waiting test_platform.codec.login (record { name = [] })
