-- ===== src/HostsDb.antt =====
-- src/hosts_db.cpp: the cache of name lookups, and the connection to a backend server.
pub mod Laws
pub mod Lasting
use mcshub.Base.{
  ℕ, ◌-◌, Bool, Option, none, some, List, [], ◌∷◌, ◌==◌, if◌then◌else◌, Text, length, get_or, take,
}
use mcshub.Base.Map.{find, assign}
use mcshub.Exec.{Exec, ok, err, crash, crashed, gets, modify, pure, ◌>>=◌, ◌>>◌}
use mcshub.Platform.{Platform, System, in_world}

module _ (pf : Platform) where
  unfoldable pub remember : Text → List pf.Endpoint → Exec (System pf) (List pf.Endpoint)
  remember hostname addresses = do
    modify (λ t. record t { hosts_db = assign hostname addresses t.hosts_db })
    pure addresses

  -- The lookup runs before the entry is made, so one that throws leaves no entry.
  unfoldable pub request_dns_cache : Text → ℕ → Exec (System pf) (List pf.Endpoint)
  unfolding remember
  request_dns_cache hostname port s = elim (find hostname s.hosts_db) [
    | none ↦
        (do addresses ← in_world pf (pf.resolve_name hostname port); remember hostname addresses) s
    | some addresses ↦ (ok addresses, s)
  ]

  -- Without its final dot.
  unfoldable pub plain_name : Text → Text
  plain_name hostname =
      let l = length hostname - 1 in
      if get_or hostname l 0 == b'.' then take l hostname else hostname

  -- For an empty host name the code reads outside the text.
  unfoldable pub connect : Bool → Text → ℕ → Exec (System pf) (Unit {0})
  unfolding request_dns_cache plain_name
  connect cache [] port = crashed
  connect cache (c ∷ s) port = do
    let name = plain_name (c ∷ s)
    addresses ←
        if cache then request_dns_cache name port else in_world pf (pf.resolve_name name port)
    in_world pf (pf.open_backend addresses)
