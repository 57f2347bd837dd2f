-- ===== src/Portal.antt =====
-- src/client.hpp: the state of a `portal`, and its two gates.
pub mod Buffers
pub mod Requests
pub mod Events
pub mod Control
pub mod Coherence
pub mod Reach
pub mod Termination
pub mod History
pub mod Reading
pub mod Contained
pub mod Refusals
pub mod Answers
pub mod Greeted
pub mod Stream
pub mod Carried
pub mod Relay
pub mod Transparency
pub mod Progress
pub mod Delivery
use mcshub.Base.{ℕ, Bool, false, Option, none, [], Text}
use mcshub.Base.Map.{Map}
use mcshub.Exec.{Exec}
use mcshub.Paket.{Handshake}
use mcshub.Platform.{Platform, System, Side, client, backend}
use mcshub.Settings.{BasicRecord, Settings}

-- The class `gate`: the bytes that have come in and are not read, and those that wait to be sent.
pub record Gate : Type 0 where
  pub input : Text
  pub output : Text

pub data State : Type 0 where
  handshake connect wait status_fake login_fake login proxy proxy_stable ping : State

-- `to_s` is `none` until the first write: the source leaves it uninitialised. `shared_conf` is the
-- current global configuration, which `gate::head` reads; `conf` is the portal's own snapshot.
pub record Portal (pf : Platform) : Type 0 where
  pub from : Gate
  pub to : Gate
  pub from_s : State
  pub to_s : Option State
  pub disconnected : Bool
  pub hs : Handshake
  pub server_name : Text
  pub nickname : Text
  pub timeout : ℕ
  pub conf : Settings
  pub shared_conf : Settings
  pub rec : BasicRecord
  pub sys : System pf

module _ {pf : Platform} where
  abbrev pub gate : Side → Portal pf → Gate
  gate client p = p.from
  gate backend p = p.to

  abbrev pub set_gate : Side → Gate → Portal pf → Portal pf
  set_gate client g p = record p { from = g }
  set_gate backend g p = record p { to = g }

  abbrev pub set_input : Side → Text → Portal pf → Portal pf
  set_input side b p = set_gate side (record { input = b; output = (gate side p).output }) p

  abbrev pub set_output : Side → Text → Portal pf → Portal pf
  set_output side b p = set_gate side (record { input = (gate side p).input; output = b }) p

module _ {pf : Platform} {A : Type 0} where
  abbrev pub in_system : Exec (System pf) A → Exec (Portal pf) A
  in_system m p = ((m p.sys).0, record p { sys = (m p.sys).1 })

  abbrev pub in_world : Exec pf.World A → Exec (Portal pf) A
  in_world m p = ((m p.sys.world).0, record p { sys = record p.sys { world = (m p.sys.world).1 } })
