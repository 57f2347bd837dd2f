-- ===== src/Tests/Hub.antt =====
-- The workers and the console, on small inputs.
use mcshub.Base.{
  ◌≡◌, ◌≢◌, refl, ℕ, ◌+◌, arith, true, false, none, some, List, [], ◌∷◌, ◌==◌, if◌then◌else◌, pos,
  Text, str, text_eq,
}
use mcshub.Base.Map.{find}
use mcshub.Exec.{Error, ok, err, skip}
use mcshub.Manager.{Cli, conf_timeout, RecordForm, Console, set_record, on_line}
use mcshub.Manager.Kept.{BothSafe, on_line-IsSafe}
use mcshub.Manager.Scopes.{old_server, set_record_lem}
use mcshub.Portal.Events.{Actions}
use mcshub.Settings.LoadAll.{Files}
use mcshub.Tests.Documents.{Document, empty, documents}
use mcshub.Tests.Portals.{test_conf, test_record}
use mcshub.Tests.Units.{arguments, test_conf_domain}
use mcshub.Workers.{Parts, Worker, Ready, ready, notified, stop, wait, on_ready}
use mcshub.Workers.Places.{Numbered}
use mcshub.Workers.Refined.{view, spec, Implements, on_ready-Implements}
use mcshub.Workers.Stopping.{Delivers, now, later}

-- A client that counts its events and disconnects at the third.
abbrev pub counters : Parts
counters = record {
  Client = ℕ;
  on_from_event = λ e n. (ok tt, n + 1);
  Wake = Unit {0};
  on_wake = λ x n. (ok tt, n);
  on_disconnect = λ n. (ok tt, n);
  is_disconnected = λ n. n == 3;
  Channel = ℕ;
  fresh = 0;
  write = λ n ch. ch + n;
  read = λ ch. (ch, 0);
}

abbrev pub two_clients : Worker counters
two_clients = record { clients = (1, 2) ∷ (0, 0) ∷ []; next = 2; events = 0; working = true }

abbrev pub readable : Actions
readable = record { rdhup = false; hup = false; err = false; readable = true; writable = false }

pub two_clients-Numbered : Numbered 2 two_clients.clients
two_clients-Numbered = (omega arith, (omega arith, tt))

-- The third event of the client at the place 1.
on_ready-Implements_example :
    Implements
      (spec (ready 1 readable true) (view two_clients))
      (on_ready (ready 1 readable true) two_clients)
on_ready-Implements_example =
    on_ready-Implements (ready 1 readable true) two_clients two_clients-Numbered (refl, (refl, tt))

abbrev pub two_waits : List (List (Ready counters))
two_waits = (ready 1 readable true ∷ []) ∷ (notified true ∷ ready 0 readable true ∷ []) ∷ []

pub two_waits_deliver : Delivers (stop two_clients) two_waits
unfolding wait skip
two_waits_deliver = later _ _ _ tt (now _ [] _ _ tt (λ e h. absurd (cc)))

abbrev pub cli : Cli
cli = record {
  process = λ line.
      if text_eq line (str "t") then some (conf_timeout (str "default") (str "9")) else none;
  stoi = λ s. some (pos 1);
  stoul = λ s. some 9;
  help_lines = [];
  what = λ e. str "wrong";
}

abbrev pub no_files : Files Document
no_files = record { main_file = some empty; directories = [] }

abbrev console : Console
console = record { default_conf = test_conf; conf = test_conf; errors = []; terminations = 0 }

abbrev lines : List (Text × Files Document)
lines = (str "t", no_files) ∷ (str "x", no_files) ∷ []

on_line-IsSafe_example :
    ((e : Error) → (on_line cli arguments documents (λ l. pos 4) 8 lines console).0 ≢ err e)
    × BothSafe (on_line cli arguments documents (λ l. pos 4) 8 lines console).1
on_line-IsSafe_example =
    on_line-IsSafe cli arguments documents (λ l. pos 4) 8 lines console
      ((test_conf_domain, tt), (test_conf_domain, tt))

abbrev form : RecordForm
form = record { name = str "play"; base = test_record }

form_named : text_eq form.name [] ≡ false
unfolding text_eq
form_named = refl

set_record_lem_example :
    ((set_record arguments (str "auto") form test_conf).0 ≡ ok tt)
    × (find (str "play") (set_record arguments (str "auto") form test_conf).1.servers ≡ (
        if text_eq form.name (str "play")
        then some (record { base = form.base; fml = (old_server arguments form test_conf).fml })
        else find (str "play") test_conf.servers))
    × ((set_record arguments (str "fml") form test_conf).0 ≡ ok tt)
    × (find (str "play") (set_record arguments (str "fml") form test_conf).1.servers ≡ (
        if text_eq form.name (str "play")
        then some
            (record { base = (old_server arguments form test_conf).base; fml = some form.base })
        else find (str "play") test_conf.servers))
set_record_lem_example = set_record_lem arguments form test_conf (str "play") form_named
