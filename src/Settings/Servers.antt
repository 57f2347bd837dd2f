-- ===== src/Settings/Servers.antt =====
-- Which server records a `servers` section leaves in the configuration.
use mcshub.Base.{
  ◌≡◌, refl, ap, ◌∙◌, Bool, true, false, Option, none, some, List, [], ◌∷◌, if◌then◌else◌, Text,
  text_eq,
}
use mcshub.Base.Map.{find, assign, find-assign}
use mcshub.Exec.{Exec, Result, ok, err, crash, left, modify, skip, ◌>>=◌}
use mcshub.ProgArgs.{Arguments}
use mcshub.Settings.{ServerRecord, Settings}
use mcshub.Settings.Load.{load_server, default_server_record}
use mcshub.Settings.LoadConf.{load_servers}
use mcshub.Settings.Yaml.{Yaml, converted}

-- What stands first, or else second.
abbrev pub or_else : {A : Type 0} → Option A → Option A → Option A
or_else (some a) o = some a
or_else none o = o

-- The record that one entry gives a name.
abbrev pub entry : Result ServerRecord → Option Text → Text → Option ServerRecord
entry (ok r) (some k) name = if text_eq k name then some r else none
entry _ _ name = none

later_wins :
    (x : Option ServerRecord) (b : Bool) (r : ServerRecord) (o : Option ServerRecord)
    → or_else x (if b then some r else o) ≡ or_else (or_else x (if b then some r else none)) o
later_wins none true r o = refl
later_wins none false r o = refl
later_wins (some x) b r o = refl

one_entry :
    (name : Text) (x : Option ServerRecord) (rest : Exec Settings (Unit {0}))
    → ((c : Settings)
        → (rest c).0 ≡ ok tt
        → find name (rest c).1.servers ≡ or_else x (find name c.servers))
    → (l : Result ServerRecord) (k : Option Text) (c : Settings)
    → (((λ d. (l, d)) >>= λ server.
          (converted k >>= λ key.
          (modify (λ d. record d { servers = assign key server d.servers }) >>= λ _. rest)))
        c).0
      ≡ ok tt
    → find name
        (((λ d. (l, d)) >>= λ server.
            (converted k >>= λ key.
            (modify (λ d. record d { servers = assign key server d.servers }) >>= λ _. rest)))
          c).1.servers
      ≡ or_else (or_else x (entry l k name)) (find name c.servers)
unfolding ◌>>=◌ converted
one_entry name x rest ih (ok r) (some k) c e =
    ih (record c { servers = assign k r c.servers }) e
    ∙ ap (or_else x) (find-assign k name r c.servers)
    ∙ later_wins x (text_eq k name) r (find name c.servers)
one_entry name x rest ih (ok r) none c e = cc
one_entry name x rest ih (err y) k c e = cc
one_entry name x rest ih crash k c e = cc

module _ (y : Yaml) (arguments : Arguments) where
  -- The last entry of a name, filled in over the default record.
  abbrev pub configured : List (y.Node × y.Node) → Text → Option ServerRecord
  configured [] name = none
  configured ((key, node) ∷ more) name = or_else (configured more name) (
      entry (left (load_server y arguments node (default_server_record arguments))) (y.as_text key)
        name)

  -- Where a `servers` section loads, each name that it gives has the record of its last entry,
  -- filled in over the default record and not over the record that it had, and each other name
  -- keeps what it had.
  pub find-load_servers :
      (items : List (y.Node × y.Node)) (c : Settings) (name : Text)
      → (load_servers y arguments items c).0 ≡ ok tt
      → find name (load_servers y arguments items c).1.servers
        ≡ or_else (configured items name) (find name c.servers)
  unfolding load_servers skip
  find-load_servers [] c name e = refl
  find-load_servers ((key, node) ∷ more) c name e =
      one_entry name (configured more name) (load_servers y arguments more)
        (λ d. find-load_servers more d name)
        (left (load_server y arguments node (default_server_record arguments))) (y.as_text key) c e
