-- ===== src/PingTool.antt =====
-- `host_info` of src/pingtool.cpp: the address that the ping tool is given.
pub mod Printed
pub mod Main
use mcshub.Base.{ℕ, Bool, Option, none, some, [], ◌∷◌, ◌==◌, if◌then◌else◌, Text, str}

pub record HostInfo : Type 0 where
  pub host : Text
  pub port : Text

-- What stands before the first `]`, and what stands behind it; `none` where there is none.
unfoldable pub until_bracket : Text → Option (Text × Text)
until_bracket [] = none
until_bracket (c ∷ s) =
    let rest = until_bracket s in
    if c == b']' then some ([], s) else elim rest [ none ↦ none | some (h, t) ↦ some (c ∷ h, t) ]

-- What stands before the first `:`, and the text from it on.
unfoldable pub until_colon : Text → Text × Text
until_colon [] = ([], [])
until_colon (c ∷ s) = let (h, t) = until_colon s in if c == b':' then ([], c ∷ s) else (c ∷ h, t)

-- The first byte behind the host is passed over, whatever it is.
unfoldable pub port_of : Text → Text
port_of [] = str "25565"
port_of (c ∷ s) = s

-- The constructor, on a C string; `none` is a `host_error`.
unfoldable pub host_info : Text → Option HostInfo
unfolding until_bracket until_colon port_of
host_info [] = some (record { host = []; port = [] })
host_info (c ∷ s) =
    if c == b'['
    then elim (until_bracket s) [
      | none ↦ none
      | some (h, t) ↦ some (record { host = h; port = port_of t })
    ]
    else let (h, t) = until_colon (c ∷ s) in some (record { host = h; port = port_of t })
