-- ===== src/Tests/Greeted.antt =====
-- A client that greets and asks for the status of a server without a backend.
use mcshub.Base.{
  ◌≡◌, refl, ◌+◌, zero, suc, ℕ, arith, [], ◌∷◌, ◌++◌, some, none, false, c_str, text_eq, str, Text,
  drop, length, get_or, pos, ◌<◌, ◌^◌, to_size_t, wrap_int32,
}
use mcshub.Base.Map.{find}
use mcshub.Exec.{ok, ◌>>=◌}
use mcshub.Paket.Ids
use mcshub.Platform.{client}
use mcshub.Portal.{Portal, State}
use mcshub.Portal.Answers.{Asks, Answered}
use mcshub.Portal.Buffers.{head, paket_read}
use mcshub.Portal.Greeted.{chosen, process_from_request-Answered}
use mcshub.Portal.History.{new_portal}
use mcshub.Portal.Requests.{has_backend, status_text, process_from_request}
use mcshub.Routing.{route, record_name, cut_domain, select}
use mcshub.Settings.{BasicRecord}
use mcshub.Tests.Portals.{test_conf, test_record, waiting}
use mcshub.Tests.World.{test_platform, test_sockets, test_tools}
use mcshub.Vars.Division.{IsClosed}

abbrev alone : BasicRecord
alone = record test_record { address = [] }

-- A handshake, a request and a byte behind them.
abbrev greeting : Portal test_platform
greeting = record waiting {
  hs = record { version = pos 4; address = str "play.example.com"; port = 25565; state = pos 1 };
  conf = record test_conf { servers = (str "play", record { base = alone; fml = none }) ∷ [] };
  from = record { input = 2 ∷ 65 ∷ 66 ∷ 2 ∷ 67 ∷ 68 ∷ 9 ∷ []; output = [] };
}

abbrev greeted : Portal test_platform
greeted =
    (paket_read client test_platform.codec.handshake greeting.hs (λ x s. record s { hs = x })
      greeting).1

read :
    paket_read client test_platform.codec.handshake greeting.hs
      (λ x s. record s { hs = x })
      greeting
    ≡ (ok (some greeting.hs), greeted)
unfolding paket_read ◌>>=◌ new_portal to_size_t wrap_int32
read = refl

routed : route greeted.conf greeted.hs.address ≡ some (str "play", alone)
unfolding paket_read route record_name c_str ◌>>=◌ new_portal to_size_t wrap_int32 cut_domain select
    text_eq find
routed = refl

started : greeting.from_s ≡ State.handshake
unfolding new_portal
started = refl

no_backend : has_backend alone ≡ false
unfolding has_backend
no_backend = refl

-- As the portal answers.
abbrev answering : Portal test_platform
answering = chosen (str "play") alone State.status_fake greeted

status_asked : greeted.hs.state ≡ pos 1
unfolding paket_read ◌>>=◌ new_portal to_size_t wrap_int32
status_asked = refl

asks : Asks test_platform.codec.request (record {}) Ids.request 3 answering
unfolding head paket_read ◌>>=◌ new_portal to_size_t wrap_int32
asks = record { found = refl; parsed = refl }

answering-IsClosed : IsClosed test_tools (status_text answering)
unfolding status_text paket_read ◌>>=◌ new_portal to_size_t wrap_int32
answering-IsClosed = record { at = at }
  where
    at :
        (i : ℕ)
        → get_or (str "$x") i 0 ≡ b'$'
        → get_or (str "$x") (i + 1) 0 ≡ b'{'
        → (name later : Text) × (drop (i + 1) (str "$x") ≡ b'{' ∷ (name ++ b'}' ∷ later))
          × (test_tools.find_closing_bracket (b'{' ∷ (name ++ b'}' ∷ later))
              ≡ pos (length name + 2))
    at zero d b = absurd (omega arith)
    at (suc zero) d b = absurd (omega arith)
    at (suc (suc i)) d b = absurd (omega arith)

answering_small : length (status_text answering) < 2 ^ 32
unfolding status_text paket_read ◌>>=◌ new_portal to_size_t wrap_int32
answering_small = omega arith

process_from_request-Answered_example :
    Answered test_sockets answering 3
      (λ text. 0 ∷ [])
      (status_text answering)
      (process_from_request greeting).1
process_from_request-Answered_example =
    process_from_request-Answered greeting greeted greeting.hs (str "play") alone started read
      routed refl no_backend test_sockets 3 (λ text. 0 ∷ []) status_asked asks (λ text. refl)
      answering-IsClosed answering_small
