-- ===== src/Settings.antt =====
-- src/settings.hpp and src/settings.cpp: the configuration record.
pub mod Domain
pub mod Yaml
pub mod Load
pub mod LoadConf
pub mod LoadAll
pub mod Servers
pub mod Safe
pub mod Reload
pub mod Listener
pub mod Watches
use mathlib.Core.Option.{Option}
use mcshub.Base.{ℕ, ℤ, Bool, Text}
use mcshub.Base.Map.{Map}

pub record BasicRecord : Type 0 where
  pub address : Text
  pub port : ℕ
  pub status : Text
  pub login : Text
  pub drop : Bool
  pub mcsman : Bool
  pub vars : Map Text

pub record ServerRecord : Type 0 where
  pub base : BasicRecord
  pub open base use *
  pub fml : Option BasicRecord

pub record Settings : Type 0 where
  pub address : Text
  pub port : ℕ
  pub threads : ℕ
  pub max_packet_size : ℤ
  pub timeout : ℕ
  pub log : Text
  pub verb : ℤ
  pub distributed : Bool
  pub domain : Text
  pub default_server : ServerRecord
  pub servers : Map ServerRecord
  pub dns_cache : Bool
