-- ===== src/Platform.antt =====
-- What the hub asks of the system and of the libraries that are not part of the repository: sockets
-- and the event loop (ekutils), files, the environment and random identifiers.
use mcshub.Base.{ℕ, Bool, Option, List, ℤ, Text}
use mcshub.Base.Map.{Map}
use mcshub.Exec.{Exec, Result}
use mcshub.Paket.{Codec}
use mcshub.Vars.{Tools}

-- The two gates of a portal: `from` is the client's, `to` the backend server's.
pub data Side : Type 0 where
  client backend : Side

-- The texts under res/config that the build embeds.
pub record Resources : Type 0 where
  pub mcsman_status : Text
  pub mcsman_login : Text
  pub fallback_status : Text
  pub fallback_login : Text

pub record Platform : Type 1 where
  pub World : Type 0
  pub Endpoint : Type 0
  -- `tcp_socket_d`. `read side n` also says what the `n` bytes of the buffer hold after the call.
  pub avail : Side → Exec World ℕ
  pub read : Side → ℕ → World → Text × Result (Unit {0}) × World
  pub write : Side → Text → Exec World ℤ
  pub open_backend : List Endpoint → Exec World (Unit {0})
  pub close_backend : Exec World (Unit {0})
  pub last_error : Exec World ℕ
  pub ensure_connected : Exec World ℕ
  pub remote_endpoint : Exec World Text
  -- `connection_info::resolve`
  pub resolve_name : Text → ℕ → Exec World (List Endpoint)
  -- `epoll_d`
  pub poll_add : Exec World (Unit {0})
  pub poll_remove : Exec World (Unit {0})
  pub poll_later : ℕ → Exec World ℕ
  pub poll_refuse : ℕ → Exec World Bool
  -- Files, the environment and random identifiers; a file that cannot be opened is `none`.
  pub file : World → Text → Option Text
  pub getenv : World → Text → Option Text
  pub uuid : World → ℕ → Text
  pub codec : Codec
  pub tools : Tools
  pub resources : Resources

-- What the portals of a process share with the system: `hosts_db`, and the world.
pub record System (pf : Platform) : Type 0 where
  pub hosts_db : Map (List pf.Endpoint)
  pub world : pf.World

module _ (pf : Platform) {A : Type 0} where
  abbrev pub in_world : Exec pf.World A → Exec (System pf) A
  in_world m s = ((m s.world).0, record s { world = (m s.world).1 })
