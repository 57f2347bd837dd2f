-- ===== src/Workers.antt =====
-- src/thread_controller.hpp and src/thread_controller.cpp: the workers, each a thread with a listener,
-- its own portals and the channel through which it is stopped.
pub mod Places
pub mod Clients
pub mod Numbering
pub mod Stopping
pub mod Ports
pub mod Refined
pub mod Everyone
pub mod Coherent
use Prim.Native.Nat.{bit_or}
use mcshub.Base.{
  ℕ, zero, suc, ◌+◌, Bool, true, false, Option, none, some, List, [], ◌∷◌, if◌then◌else◌, ◌==◌,
  Text,
}
use mcshub.Exec.{
  Error, Exec, Result, ok, err, crash, system_error, other_exception, pure, throw, gets, modify,
  skip, ◌>>=◌, ◌>>◌,
}
use mcshub.Portal.Events.{Actions}
use mcshub.Settings.{Settings}

-- What a worker does with the clients, and with `event_d`, whose states are `Channel`. A `Wake` is what
-- calls the handlers that a client itself has registered with the worker's `poll`.
pub record Parts : Type 1 where
  pub Client : Type 0
  pub on_from_event : Actions → Exec Client (Unit {0})
  pub Wake : Type 0
  pub on_wake : Wake → Exec Client (Unit {0})
  pub on_disconnect : Exec Client (Unit {0})
  pub is_disconnected : Client → Bool
  pub Channel : Type 0
  pub fresh : Channel
  pub write : ℕ → Channel → Channel
  pub read : Channel → ℕ × Channel

-- `worker_events::event_t`, by its number.
abbrev pub noop : ℕ
noop = 0

abbrev pub stop_event : ℕ
stop_event = 1

-- The class `worker`. A client goes by the number of its place in the list, which `std::list` keeps
-- when other places are erased.
pub record Worker (pt : Parts) : Type 0 where
  pub clients : List (ℕ × pt.Client)
  pub next : ℕ
  pub events : pt.Channel
  pub working : Bool

-- A descriptor that `poll.wait` finds ready, and how the calls that its handler makes of the system go:
-- `accepted` has the new client if `accept` and the constructor return, and whether it is registered;
-- `ready` tells whether the client's address is known when the client has disconnected.
pub data Ready (pt : Parts) : Type 0 where
  accepted : Option (pt.Client × Bool) → Ready pt
  ready : ℕ → Actions → Bool → Ready pt
  woken : ℕ → pt.Wake → Ready pt
  notified : Bool → Ready pt

module _ {C : Type 0} where
  unfoldable pub client_at : ℕ → List (ℕ × C) → Option C
  client_at i [] = none
  client_at i ((j, c) ∷ more) = if j == i then some c else client_at i more

  unfoldable pub put : ℕ → C → List (ℕ × C) → List (ℕ × C)
  put i c [] = []
  put i c ((j, d) ∷ more) =
      let rest = put i c more in if j == i then (j, c) ∷ more else (j, d) ∷ rest

  unfoldable pub erase_at : ℕ → List (ℕ × C) → List (ℕ × C)
  erase_at i [] = []
  erase_at i ((j, d) ∷ more) = let rest = erase_at i more in if j == i then more else (j, d) ∷ rest

  unfoldable pub with_rest :
      ℕ
      → Result (Unit {0}) × C
      → Result (Unit {0}) × List (ℕ × C)
      → List (ℕ × C)
      → Result (Unit {0}) × List (ℕ × C)
  with_rest i (ok _, c) (r, rest) more = (r, (i, c) ∷ rest)
  with_rest i (err e, c) out more = (err e, (i, c) ∷ more)
  with_rest i (crash, c) out more = (crash, (i, c) ∷ more)

module _ (pt : Parts) where
  -- The loop that disconnects the clients.
  unfoldable pub disconnect_all : List (ℕ × pt.Client) → Result (Unit {0}) × List (ℕ × pt.Client)
  unfolding with_rest
  disconnect_all [] = (ok tt, [])
  disconnect_all ((i, c) ∷ more) = with_rest i (pt.on_disconnect c) (disconnect_all more) more

module _ {pt : Parts} where
  unfoldable pub new_worker : Worker pt
  new_worker = record { clients = []; next = 0; events = pt.fresh; working = true }

  -- The client is in the list before it is registered.
  unfoldable pub on_accept : Option (pt.Client × Bool) → Exec (Worker pt) (Unit {0})
  on_accept none = throw system_error
  on_accept (some (client, registered)) = do
    modify (λ w. record w { clients = (w.next, client) ∷ w.clients; next = w.next + 1 })
    if registered then skip else throw system_error

  -- A client that has disconnected is logged by its address, and erased.
  unfoldable pub settle : ℕ → pt.Client → Bool → Bool → Exec (Worker pt) (Unit {0})
  unfolding put erase_at
  settle i client false known w = (ok tt, record w { clients = put i client w.clients })
  settle i client true true w = (ok tt, record w { clients = erase_at i w.clients })
  settle i client true false w = (err system_error, record w { clients = put i client w.clients })

  -- The end of the handler of a client's events; the client is `client` by now.
  unfoldable pub after_event :
      ℕ → Bool → Result (Unit {0}) × pt.Client → Exec (Worker pt) (Unit {0})
  unfolding settle
  after_event i known (crash, client) w = (crash, record w { clients = put i client w.clients })
  after_event i known (err e, client) w = (err e, record w { clients = put i client w.clients })
  after_event i known (ok _, client) w = settle i client (pt.is_disconnected client) known w

  -- The handler that `on_accept` registers.
  unfoldable pub on_client : ℕ → Actions → Bool → Exec (Worker pt) (Unit {0})
  unfolding client_at after_event
  on_client i e known w = elim (client_at i w.clients) [
    | none ↦ (ok tt, w)
    | some client ↦ after_event i known (pt.on_from_event e client) w
  ]

  unfoldable pub after_wake : ℕ → Result (Unit {0}) × pt.Client → Exec (Worker pt) (Unit {0})
  unfolding put
  after_wake i (r, client) w = (r, record w { clients = put i client w.clients })

  -- A handler that a client has registered, of the backend's events or of a timer. When it is called is
  -- given: registering and taking back are not followed. It uses the client, also where that has been
  -- erased: then this is undefined behaviour.
  unfoldable pub on_woken : ℕ → pt.Wake → Exec (Worker pt) (Unit {0})
  unfolding client_at after_wake
  on_woken i wake w = elim (client_at i w.clients) [
    | none ↦ (crash, w)
    | some client ↦ after_wake i (pt.on_wake wake client) w
  ]

  unfoldable pub stop_now : Exec (Worker pt) (Unit {0})
  unfolding disconnect_all
  stop_now w =
      let out = disconnect_all pt w.clients in
      (out.0, record w { working = false; clients = out.1 })

  unfoldable pub on_note : ℕ → Exec (Worker pt) (Unit {0})
  unfolding stop_now
  on_note n =
      if n == noop then skip else if n == stop_event then stop_now else throw other_exception

  unfoldable pub on_event : Bool → Exec (Worker pt) (Unit {0})
  unfolding on_note
  on_event false w = (ok tt, w)
  on_event true w = let (n, ch) = pt.read w.events in on_note n (record w { events = ch })

  unfoldable pub on_ready : Ready pt → Exec (Worker pt) (Unit {0})
  unfolding on_accept on_client on_woken on_event
  on_ready (accepted a) = on_accept a
  on_ready (ready i e known) = on_client i e known
  on_ready (woken i wake) = on_woken i wake
  on_ready (notified readable) = on_event readable

  -- `poll.wait`: the handlers of the descriptors that are ready, until one throws; the rest of the batch
  -- is then lost to this wait. Whether a later wait finds it again is given with what that wait finds.
  unfoldable pub wait : List (Ready pt) → Exec (Worker pt) (Unit {0})
  unfolding on_ready
  wait [] = skip
  wait (r ∷ more) = do on_ready r; wait more

  -- `catch (...) {}`
  abbrev pub resume :
      (Worker pt → Result Bool × Worker pt)
      → Result (Unit {0}) × Worker pt
      → Result Bool × Worker pt
  resume rest (ok _, w) = rest w
  resume rest (err e, w) = rest w
  resume rest (crash, w) = (crash, w)

  -- The loop of `job`, over what the waits will find. The result is whether it has ended: otherwise it
  -- waits still.
  unfoldable pub job : List (List (Ready pt)) → Worker pt → Result Bool × Worker pt
  unfolding wait
  job [] w = if w.working then (ok false, w) else (ok true, w)
  job (batch ∷ more) w =
      let again = resume (job more) (wait batch w) in if w.working then again else (ok true, w)

  unfoldable pub stop : Worker pt → Worker pt
  stop w = record w { events = pt.write stop_event w.events }

  -- `thread_controller::terminate`: every worker is told to stop, and what its waits find from then on
  -- is given. Then all their threads are waited for.
  unfoldable pub terminate :
      List (Worker pt × List (List (Ready pt))) → List (Result Bool × Worker pt)
  unfolding job stop
  terminate [] = []
  terminate ((w, found) ∷ more) = job found (stop w) ∷ terminate more

-- The part of `tcp_listener_d` that gives the port: it listens on an address and a port, and the result
-- is the port of its own end.
pub record PortBinder : Type 1 where
  pub World : Type 0
  pub listen : Text → ℕ → Exec World ℕ

module _ (net : PortBinder) (pt : Parts) where
  -- The constructor of `worker`, with the static `real_port`.
  unfoldable pub start : Settings → ℕ → Exec net.World (ℕ × Worker pt)
  unfolding new_worker
  start c real_port = do
    port ← net.listen c.address (bit_or c.port real_port)
    pure (port, new_worker)

  -- The constructor of `thread_controller`: so many workers, with the port of each.
  unfoldable pub start_all : ℕ → Settings → ℕ → Exec net.World (List (ℕ × Worker pt))
  unfolding start
  start_all zero c real_port = pure []
  start_all (suc n) c real_port = do
    first ← start c real_port
    rest ← start_all n c first.0
    pure (first ∷ rest)
