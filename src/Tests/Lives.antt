-- ===== src/Tests/Lives.antt =====
-- A portal whose bytes get to the backend, and workers whose clients are portals.
use mcshub.Base.{
  ◌≡◌, refl, arith, ℕ, ◌+◌, ◌≢◌, ◌++◌, true, false, some, List, [], ◌∷◌, length, str, pos, Text,
}
use mcshub.Exec.{ok}
use mcshub.Platform.{Side, client, backend}
use mcshub.Portal.History.{new_portal}
use mcshub.Portal.Delivery.{writables, writables_deliver}
use mcshub.Portal.Progress.{Accepting}
use mcshub.Portal.Relay.{IsRelaying}
use mcshub.Tests.Hub.{readable}
use mcshub.Tests.Portals.{fresh, stable, stable_start, test_conf}
use mcshub.Tests.World.{TestWorld, test_platform, test_sockets, test_system}
use mcshub.Workers.{Parts, Ready, accepted, ready, woken, new_worker, job}
use mcshub.Workers.Clients.{portals, timer}
use mcshub.Workers.Coherent.{HasCoherence, is_new, job-IsCoherent}
use mcshub.Workers.Everyone.{Everyone}

one_byte_taken :
    (side : Side) (b : Text) (w : TestWorld)
    → length b ≢ 0
    → (n : ℕ) × (n ≢ 0) × ((test_platform.write side b w).0 ≡ ok (pos n))
one_byte_taken side [] w h = absurd (h refl)
one_byte_taken side (x ∷ b) w h = (1, λ e. omega (arith, e), refl)

abbrev accepting : Accepting test_platform
accepting = record { takes = one_byte_taken }

stable_connected : stable.disconnected ≡ false
unfolding new_portal
stable_connected = refl

abbrev order : List Side
order = client ∷ backend ∷ client ∷ []

writables_deliver_example :
    ((writables order stable).0 ≡ ok tt)
    × IsRelaying test_sockets (str "b") (str "a") (writables order stable).1
    × (test_sockets.sent backend (writables order stable).1.sys.world
        ≡ str "b" ++ test_sockets.received client (writables order stable).1.sys.world)
    × (test_sockets.sent client (writables order stable).1.sys.world
          ++ (writables order stable).1.to.input
        ≡ str "a" ++ test_sockets.received backend (writables order stable).1.sys.world)
writables_deliver_example =
    writables_deliver test_sockets accepting (str "b") (str "a") order stable stable_start
      stable_connected (omega arith) (omega arith)

abbrev hub_parts : Parts
hub_parts = portals test_platform ℕ 0 (λ n ch. ch + n) (λ ch. (ch, 0))

-- A portal is accepted, gets an event, and its timer goes off.
abbrev life : List (List (Ready hub_parts))
life = (accepted (some (fresh, true)) ∷ []) ∷ (ready 0 readable true ∷ woken 0 timer ∷ []) ∷ []

no_clients :
    Everyone
      (HasCoherence test_platform ℕ 0 (λ n ch. ch + n) (λ ch. (ch, 0)))
      (new_worker {pt = hub_parts}).clients
unfolding new_worker
no_clients = tt

job-IsCoherent_example :
    Everyone
      (HasCoherence test_platform ℕ 0 (λ n ch. ch + n) (λ ch. (ch, 0)))
      (job life new_worker).1.clients
job-IsCoherent_example =
    job-IsCoherent test_platform ℕ 0 (λ n ch. ch + n) (λ ch. (ch, 0)) life new_worker
      ((is_new test_conf (test_system (str "hello") (str "world")) refl, tt), ((tt, (tt, tt)), tt))
      no_clients
