-- ===== src/ProgArgs/Forms.antt =====
-- The two ways to give an option its value.
use mcshub.Base.{◌≡◌, refl, List, ◌∷◌, ◌++◌, Text, str, ℤ}
use mcshub.ProgArgs.{Arguments}
use mcshub.ProgArgs.Options.{Outcome, parse_one}

-- The options that take a value.
pub data Valued : Type 0 where
  confname status login default_dir domain address port default_port max_packet_size timeout :
      Valued
  threads verb : Valued

abbrev pub option_name : Valued → Text
option_name Valued.confname = str "confname"
option_name Valued.status = str "status"
option_name Valued.login = str "login"
option_name Valued.default_dir = str "default-dir"
option_name Valued.domain = str "domain"
option_name Valued.address = str "address"
option_name Valued.port = str "port"
option_name Valued.default_port = str "default-port"
option_name Valued.max_packet_size = str "max-packet-size"
option_name Valued.timeout = str "timeout"
option_name Valued.threads = str "threads"
option_name Valued.verb = str "verb"

module _ (str2loglvl : Text → Outcome ℤ) where
  -- For each option that takes a value, `--name=value` is read like `--name value`, whatever the
  -- value is, an '=' in it included: the same outcome, and the same arguments left to read.
  pub parse_one_forms :
      (o : Valued) (v : Text) (rest : List Text) (a : Arguments)
      → parse_one str2loglvl (str "--" ++ option_name o ++ b'=' ∷ v) rest a
        ≡ parse_one str2loglvl (str "--" ++ option_name o) (v ∷ rest) a
  unfolding parse_one
  parse_one_forms Valued.confname v rest a = refl
  parse_one_forms Valued.status v rest a = refl
  parse_one_forms Valued.login v rest a = refl
  parse_one_forms Valued.default_dir v rest a = refl
  parse_one_forms Valued.domain v rest a = refl
  parse_one_forms Valued.address v rest a = refl
  parse_one_forms Valued.port v rest a = refl
  parse_one_forms Valued.default_port v rest a = refl
  parse_one_forms Valued.max_packet_size v rest a = refl
  parse_one_forms Valued.timeout v rest a = refl
  parse_one_forms Valued.threads v rest a = refl
  parse_one_forms Valued.verb v rest a = refl
