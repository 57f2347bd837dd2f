-- ===== src/Tests/Units.antt =====
-- The parts beside the portal, on small inputs.
use mcshub.Base.{
  inr, none, ◌≡◌, refl, ℕ, zero, suc, true, some, List, [], ◌∷◌, ◌++◌, Text, text_eq, is_alnum,
  IsCString, str, ◌+◌, Bool, true, false, ℤ, pos, length, arith, drop, get_or,
}
use mcshub.Base64.{encode}
use mcshub.Base64.Decoded.{decode, decode-encode}
use mcshub.Exec.{ok, ◌>>=◌}
use mcshub.Base.Map.{find}
use mcshub.HostsDb.{request_dns_cache, plain_name, connect}
use mcshub.HostsDb.Lasting.{connects, connect-connects}
use mcshub.Platform.{System, in_world}
use mcshub.ProgArgs.{Arguments, initial_arguments}
use mcshub.ProgArgs.Printed.{print_arguments, IsPrintable, parse-print_arguments}
use mcshub.ProgArgs.Options.{Outcome, done, invalid_argument, parse}
use mcshub.Routing.{route}
use mcshub.Routing.Names.{dot}
use mcshub.Routing.Laws.{route-domain, route_fml, route-dot_no_domain}
use mcshub.Settings.{Settings, ServerRecord}
use mcshub.Settings.Domain.{is_domain_char, all_domain_chars, accepted, check_domain}
use mcshub.Settings.Domain.Laws.{
  IsDomain, IsDomain-IsCString, check_domain-IsDomain, check_domain_complete,
}
use mcshub.Tests.Portals.{test_record, test_conf}
use mcshub.Tests.World.{test_platform, test_system, test_tools}
use mcshub.Vars.{Namespace, resolve}
use mcshub.Vars.Division.{IsClosed, resolve-meaning}
use mcshub.Vars.Pieces.{Piece, render, AreFit, meaning}

abbrev levels : Text → Outcome ℤ
levels s = invalid_argument

abbrev pub arguments : Arguments
arguments = initial_arguments (pos 4)

plain : Namespace
plain = record { name = str "main"; lookup = λ at name. str "v" }

abbrev greeting : Text
greeting = str "$y-${x}$$"

closed : IsClosed test_tools greeting
closed = record { at = at }
  where
    at :
        (i : ℕ)
        → get_or greeting i 0 ≡ b'$'
        → get_or greeting (i + 1) 0 ≡ b'{'
        → (name later : Text) × (drop (i + 1) greeting ≡ b'{' ∷ (name ++ b'}' ∷ later))
          × (test_tools.find_closing_bracket (b'{' ∷ (name ++ b'}' ∷ later))
              ≡ pos (length name + 2))
    at zero d b = absurd (omega arith)
    at (suc zero) d b = absurd (omega arith)
    at (suc (suc zero)) d b = absurd (omega arith)
    at (suc (suc (suc zero))) d b = (str "x", str "$$", refl, refl)
    at (suc (suc (suc (suc zero)))) d b = absurd (omega arith)
    at (suc (suc (suc (suc (suc zero))))) d b = absurd (omega arith)
    at (suc (suc (suc (suc (suc (suc zero)))))) d b = absurd (omega arith)
    at (suc (suc (suc (suc (suc (suc (suc zero))))))) d b = absurd (omega arith)
    at (suc (suc (suc (suc (suc (suc (suc (suc zero)))))))) d b = absurd (omega arith)
    at (suc (suc (suc (suc (suc (suc (suc (suc (suc i))))))))) d b = absurd (omega arith)

resolve-meaning_example :
    (ps : List Piece) × (render ps ≡ greeting)
    × AreFit test_tools ps
    × (resolve test_tools plain [] greeting ≡ some (meaning test_tools plain [] 0 ps))
resolve-meaning_example = resolve-meaning test_tools plain [] greeting closed (omega arith)

abbrev four : List ℕ
four = 1 ∷ 2 ∷ 3 ∷ 4 ∷ []

abbrev cached : System test_platform
cached = (request_dns_cache test_platform (str "h") 1 (test_system [] [])).1

looked_up :
    (request_dns_cache test_platform (str "h") 1 (test_system [] [])).0 ≡ ok ((str "h", 1) ∷ [])
unfolding request_dns_cache find ◌>>=◌
looked_up = refl

abbrev calls : List (Bool × Text × ℕ)
calls = (true, str "other", 3) ∷ (false, str "h", 9) ∷ []

dotted : plain_name test_platform (str "h.") ≡ str "h"
unfolding plain_name
dotted = refl

connect-connects_example :
    connect test_platform true (str "h.") 2 (connects test_platform calls cached)
    ≡ in_world test_platform
        (test_platform.open_backend ((str "h", 1) ∷ []))
        (connects test_platform calls cached)
connect-connects_example =
    connect-connects test_platform (str "h") 1 (test_system [] []) ((str "h", 1) ∷ []) calls
      looked_up b'h' (str ".") 2 dotted

play : ServerRecord
play = record { base = record test_record { port = 25566 }; fml = some test_record }

play_text : IsCString (str "play")
play_text = (omega arith, (omega arith, (omega arith, (omega arith, tt))))

pub test_conf_domain : IsDomain test_conf.domain
unfolding all_domain_chars is_domain_char is_alnum
test_conf_domain = (refl, omega arith, refl)

domain_text : IsCString test_conf.domain
domain_text = IsDomain-IsCString test_conf.domain test_conf_domain

pub arguments_domain : IsDomain arguments.domain
unfolding initial_arguments
arguments_domain = tt

configured : find (str "play") test_conf.servers ≡ some play
unfolding play find text_eq
configured = refl

route-domain_example :
    route test_conf (str "play" ++ test_conf.domain) ≡ some (str "play", play.base)
route-domain_example =
    route-domain test_conf (str "play") play (λ e. cc) play_text domain_text (omega arith)
      configured

route_fml_example :
    route test_conf ((str "play" ++ test_conf.domain) ++ 0 ∷ str "FML" ++ 0 ∷ [])
    ≡ some (str "play", elim play.fml [ none ↦ play.base | some f ↦ f ])
route_fml_example =
    route_fml test_conf (str "play") (str "FML" ++ 0 ∷ []) play (λ e. cc) play_text domain_text
      (omega arith) configured

abbrev no_domain : Settings
no_domain = record test_conf { domain = [] }

route-dot_no_domain_example :
    route no_domain (str "play" ++ dot) ≡ some (str "play" ++ 0 ∷ [], test_conf.default_server.base)
route-dot_no_domain_example =
    route-dot_no_domain no_domain (str "play") refl play_text (play_text, tt)

example_domain : check_domain (str "a.b.") ≡ accepted (str ".a.b")
unfolding check_domain is_domain_char is_alnum
example_domain = refl

check_domain-IsDomain_example : IsDomain (str ".a.b")
check_domain-IsDomain_example = check_domain-IsDomain (str "a.b.") (str ".a.b") example_domain

legal : all_domain_chars (str "a.b") ≡ true
unfolding all_domain_chars is_domain_char is_alnum
legal = refl

check_domain_complete_example :
    (check_domain (str "a.b") ≡ accepted (str ".a.b"))
    × (check_domain (str "a.b" ++ str ".") ≡ accepted (str ".a.b"))
check_domain_complete_example =
    check_domain_complete b'a' (str ".b") (omega arith) legal (omega arith)

decode-encode_example : decode (encode (77 ∷ 97 ∷ 110 ∷ 255 ∷ [])) ≡ 77 ∷ 97 ∷ 110 ∷ 255 ∷ []
decode-encode_example =
    decode-encode (77 ∷ 97 ∷ 110 ∷ 255 ∷ [])
      (omega arith, (omega arith, (omega arith, (omega arith, tt))))

-- The initial arguments, with a flag and a word.
abbrev printable : Arguments
printable = record arguments { mcsman = true; other = str "play" ∷ [] }

abbrev read_level : Text → Outcome ℤ
read_level s = done (pos 4)

printable-IsPrintable : IsPrintable printable
unfolding initial_arguments
printable-IsPrintable = record {
  port = omega arith;
  default_port = omega arith;
  max_packet_size = omega arith;
  threads = inr refl;
  drop = refl;
  timeout = refl;
  other = (λ e. omega (arith, e), tt);
}

printable_level : read_level (str "info") ≡ done printable.verb
unfolding initial_arguments
printable_level = refl

parse-print_arguments_example :
    parse read_level (print_arguments (λ l. str "info") printable) (initial_arguments (pos 4))
    ≡ done printable
parse-print_arguments_example =
    parse-print_arguments read_level (λ l. str "info") (pos 4) printable printable_level
      printable-IsPrintable
