-- ===== src/Paket.antt =====
-- src/mc_pakets.hpp and src/mc_pakets.cpp: the packets, and what the hub uses of the packet library
-- (a submodule that is not part of the repository).
pub mod Ids
use mcshub.Base.{
  ℕ, zero, suc, ◌+◌, ◌/◌, ◌%◌, Option, [], ◌∷◌, ◌++◌, ◌==◌, if◌then◌else◌, ℤ, pos, negsuc, Text,
  str, text_eq,
}

pub record Handshake : Type 0 where
  pub version : ℤ
  pub address : Text
  pub port : ℕ
  pub state : ℤ

pub record Request : Type 0 where

pub record Response : Type 0 where
  pub message : Text

pub record Pinpong : Type 0 where
  pub payload : ℤ

pub record Disconnect : Type 0 where
  pub message : Text

pub record Login : Type 0 where
  pub name : Text

-- `std::to_string` of an integer of at most 64 bits: twenty digits are enough.
digits : ℕ → ℕ → Text → Text
digits zero n out = out
digits (suc fuel) n out =
    let out' = (b'0' + n % 10) ∷ out in
    let rest = digits fuel (n / 10) out' in if n / 10 == 0 then out' else rest

unfoldable pub to_string : ℤ → Text
unfolding digits
to_string (pos n) = digits 20 n []
to_string (negsuc n) = b'-' ∷ digits 20 (suc n) []

-- `pakets::handshake::operator[]`
unfoldable pub handshake_var : Handshake → Text → Text
unfolding to_string
handshake_var hs name =
    if text_eq name (str "version")
    then to_string hs.version
    else if text_eq name (str "address")
    then hs.address
    else if text_eq name (str "port")
    then to_string (pos hs.port)
    else if text_eq name (str "state")
    then to_string hs.state
    else str "{ NULL }"

-- What `pakets::head` finds: how many bytes it read, the size and the id that it wrote.
pub record Head : Type 0 where
  pub consumed : ℕ
  pub size : ℤ
  pub id : ℤ

-- `packet.read(data, size)`: the packet afterwards, and the result, or `none` if it throws.
pub record ReadResult (P : Type 0) : Type 0 where
  pub paket : P
  pub result : Option ℤ

-- One packet type of the library. `write p n` is what is written into `n` bytes, `none` for -1.
pub record PaketType (P : Type 0) : Type 0 where
  pub size : P → ℕ
  pub read : P → Text → ReadResult P
  pub write : P → ℕ → Option Text

pub record Codec : Type 0 where
  pub head : Text → Option Head
  pub handshake : PaketType Handshake
  pub request : PaketType Request
  pub response : PaketType Response
  pub pinpong : PaketType Pinpong
  pub disconnect : PaketType Disconnect
  pub login : PaketType Login
