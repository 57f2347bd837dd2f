-- ===== src/Tests/Answered.antt =====
-- A client that asks for the status, and one that logs in, at a server that is not forwarded.
use mcshub.Base.{
  ◌≡◌, refl, ◌+◌, zero, suc, ℕ, arith, [], ◌∷◌, ◌++◌, true, str, Text, drop, length, get_or, pos,
  ◌<◌, ◌^◌, to_size_t, wrap_int32,
}
use mcshub.Paket.Ids
use mcshub.Portal.{Portal, State}
use mcshub.Portal.Answers.{Asks, Answered, from_fake_status-Answered, from_fake_login-Answered}
use mcshub.Portal.Buffers.{head}
use mcshub.Portal.History.{new_portal}
use mcshub.Portal.Requests.{status_text, login_text, process_from_request}
use mcshub.Tests.Portals.{waiting}
use mcshub.Tests.World.{test_platform, test_sockets, test_tools}
use mcshub.Vars.Division.{IsClosed}

abbrev asking : Portal test_platform
asking = record waiting { from_s = State.status_fake }

abbrev joining : Portal test_platform
joining = record waiting { from_s = State.login_fake; rec = record waiting.rec { mcsman = true } }

asks : Asks test_platform.codec.request (record {}) Ids.request 3 asking
unfolding head new_portal to_size_t wrap_int32
asks = record { found = refl; parsed = refl }

joins : Asks test_platform.codec.login (record { name = [] }) Ids.request 3 joining
unfolding head new_portal to_size_t wrap_int32
joins = record { found = refl; parsed = refl }

status_text-IsClosed : IsClosed test_tools (status_text asking)
unfolding status_text new_portal
status_text-IsClosed = record { at = at }
  where
    at :
        (i : ℕ)
        → get_or (str "$x") i 0 ≡ b'$'
        → get_or (str "$x") (i + 1) 0 ≡ b'{'
        → (name later : Text) × (drop (i + 1) (str "$x") ≡ b'{' ∷ (name ++ b'}' ∷ later))
          × (test_tools.find_closing_bracket (b'{' ∷ (name ++ b'}' ∷ later))
              ≡ pos (length name + 2))
    at zero d b = absurd (omega arith)
    at (suc zero) d b = absurd (omega arith)
    at (suc (suc i)) d b = absurd (omega arith)

login_text-IsClosed : IsClosed test_tools (login_text joining)
unfolding login_text new_portal
login_text-IsClosed = record { at = at }
  where
    at :
        (i : ℕ)
        → get_or (str "${x}") i 0 ≡ b'$'
        → get_or (str "${x}") (i + 1) 0 ≡ b'{'
        → (name later : Text) × (drop (i + 1) (str "${x}") ≡ b'{' ∷ (name ++ b'}' ∷ later))
          × (test_tools.find_closing_bracket (b'{' ∷ (name ++ b'}' ∷ later))
              ≡ pos (length name + 2))
    at zero d b = (str "x", [], refl, refl)
    at (suc zero) d b = absurd (omega arith)
    at (suc (suc zero)) d b = absurd (omega arith)
    at (suc (suc (suc zero))) d b = absurd (omega arith)
    at (suc (suc (suc (suc i)))) d b = absurd (omega arith)

status_small : length (status_text asking) < 2 ^ 32
unfolding status_text new_portal
status_small = omega arith

login_small : length (login_text joining) < 2 ^ 32
unfolding login_text new_portal
login_small = omega arith

from_fake_status-Answered_example :
    Answered test_sockets asking 3
      (λ text. 0 ∷ [])
      (status_text asking)
      (process_from_request asking).1
from_fake_status-Answered_example =
    from_fake_status-Answered test_sockets asking 3 (λ text. 0 ∷ []) refl asks (λ text. refl)
      status_text-IsClosed status_small

from_fake_login-Answered_example :
    Answered test_sockets joining 3
      (λ text. 0 ∷ [])
      (login_text joining)
      (process_from_request joining).1
from_fake_login-Answered_example =
    from_fake_login-Answered test_sockets joining 3 (λ text. 0 ∷ []) Ids.request refl joins
      (λ text. refl) login_text-IsClosed login_small
