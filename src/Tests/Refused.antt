-- ===== src/Tests/Refused.antt =====
-- Clients that are turned away, a `servers` section, and an address of the ping tool.
use mcshub.Base.{
  arith, ◌≡◌, refl, true, false, none, some, [], ◌∷◌, text_eq, c_str, str, pos, to_size_t,
  wrap_int32,
}
use mcshub.Base.Map.{find}
use mcshub.Exec.{ok, ◌>>=◌}
use mcshub.PingTool.{HostInfo, host_info}
use mcshub.PingTool.Printed.{print_address, host_info-print_address}
use mcshub.Platform.{client, backend}
use mcshub.Portal.{Portal, State}
use mcshub.Portal.Buffers.{paket_read, receive}
use mcshub.Portal.Events.{Actions, on_from_event}
use mcshub.Portal.History.{new_portal}
use mcshub.Portal.Refusals.{on_from_event_refused}
use mcshub.Portal.Stream.{queued}
use mcshub.Routing.{route, record_name, cut_domain, select}
use mcshub.Settings.{BasicRecord}
use mcshub.Settings.Load.{load_server}
use mcshub.Settings.LoadConf.{load_servers}
use mcshub.Settings.Servers.{or_else, configured, find-load_servers}
use mcshub.Tests.Documents.{Document, documents}
use mcshub.Tests.Portals.{test_conf, test_record, waiting}
use mcshub.Tests.Units.{arguments}
use mcshub.Tests.World.{test_platform, test_sockets}

abbrev coming : Actions
coming = record { rdhup = false; hup = false; err = false; readable = true; writable = true }

abbrev dropping : BasicRecord
dropping = record test_record { drop = true }

abbrev unwanted : Portal test_platform
unwanted = record waiting {
  hs = record { version = pos 4; address = str "play.example.com"; port = 25565; state = pos 2 };
  conf = record test_conf { servers = (str "play", record { base = dropping; fml = none }) ∷ [] };
}

-- What reading the handshake leaves.
abbrev heard : Portal test_platform
heard = (receive client unwanted).1

abbrev after : Portal test_platform
after =
    (paket_read client test_platform.codec.handshake heard.hs (λ x s. record s { hs = x }) heard).1

read :
    paket_read client test_platform.codec.handshake heard.hs (λ x s. record s { hs = x }) heard
    ≡ (ok (some unwanted.hs), after)
unfolding paket_read receive ◌>>=◌ new_portal to_size_t wrap_int32
read = refl

routed : route after.conf after.hs.address ≡ some (str "play", dropping)
unfolding paket_read receive route record_name c_str ◌>>=◌ new_portal to_size_t wrap_int32
    cut_domain select text_eq find
routed = refl

started : unwanted.from_s ≡ State.handshake
unfolding new_portal
started = refl

got : receive client unwanted ≡ (ok tt, heard)
unfolding receive ◌>>=◌ new_portal
got = refl

on_from_event_refused_example :
    (on_from_event coming unwanted
      ≡ (ok tt, record after { server_name = str "play"; disconnected = true }))
    × (queued test_sockets client (on_from_event coming unwanted).1
        ≡ queued test_sockets client unwanted)
    × (queued test_sockets backend (on_from_event coming unwanted).1
        ≡ queued test_sockets backend unwanted)
on_from_event_refused_example =
    on_from_event_refused test_sockets coming unwanted heard after unwanted.hs (str "play") dropping
      refl refl refl started got read routed refl

abbrev section : Document
section = Document.entry (str "play") (Document.scalar (str "drop")) Document.empty

loaded : (load_servers documents arguments (documents.items section) test_conf).0 ≡ ok tt
unfolding load_servers ◌>>=◌ load_server text_eq
loaded = refl

find-load_servers_example :
    find
      (str "play")
      (load_servers documents arguments (documents.items section) test_conf).1.servers
    ≡ or_else
        (configured documents arguments (documents.items section) (str "play"))
        (find (str "play") test_conf.servers)
find-load_servers_example =
    find-load_servers documents arguments (documents.items section) test_conf (str "play") loaded

abbrev local : HostInfo
local = record { host = str "::1"; port = str "25" }

host_info-print_address_example : host_info (print_address local) ≡ some local
host_info-print_address_example =
    host_info-print_address local (λ e. cc)
      ((omega arith, omega arith), ((omega arith, omega arith), ((omega arith, omega arith), tt)))
