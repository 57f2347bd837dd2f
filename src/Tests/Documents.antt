-- ===== src/Tests/Documents.antt =====
-- A reload from small documents.
use mcshub.Base.{
  ◌≡◌, refl, Bool, true, false, Option, none, some, List, [], ◌∷◌, Text, text_eq, is_alnum,
  if◌then◌else◌, str, pos,
}
use mcshub.Exec.{◌>>=◌}
use mcshub.ProgArgs.{initial_arguments}
use mcshub.Settings.Domain.{is_domain_char, check_domain}
use mcshub.Settings.LoadAll.{Files, default_conf, reload_configuration}
use mcshub.Settings.Reload.{reload_configuration-IsSafe, default_conf-IsSafe}
use mcshub.Settings.Safe.{IsSafe}
use mcshub.Settings.Yaml.{Yaml, converted}
use mcshub.Tests.Portals.{test_conf}
use mcshub.Settings.LoadConf.{load_settings}
use mcshub.Settings.Load.{load_server}
use mcshub.Tests.Units.{arguments, arguments_domain, test_conf_domain}

-- Documents that are one text, or a list of entries.
pub data Document : Type 0 where
  scalar : Text → Document
  entry : Text → Document → Document → Document
  empty : Document

abbrev pub lookup : Document → Text → Option Document
lookup (scalar s) key = none
lookup (entry k v more) key = let rest = lookup more key in if text_eq k key then some v else rest
lookup empty key = none

abbrev pub is_text : Document → Bool
is_text (scalar s) = true
is_text _ = false

abbrev pub text_of : Document → Option Text
text_of (scalar s) = some s
text_of _ = none

abbrev pub entries : Document → List (Document × Document)
entries (entry k v more) = (scalar k, v) ∷ entries more
entries _ = []

abbrev pub documents : Yaml
documents = record {
  Node = Document;
  is_scalar = is_text;
  is_map = λ d. true;
  at = λ d key. some (lookup d key);
  items = entries;
  as_text = text_of;
  as_bool = λ d. none;
  as_uint16 = λ d. none;
  as_unsigned = λ d. none;
  as_ulong = λ d. none;
  as_int = λ d. none;
}

abbrev files : Files Document
files = record {
  main_file = some (
      entry (str "domain") (scalar (str "a.b"))
        (entry (str "servers") (entry (str "play") (scalar (str "drop")) empty) empty));
  directories = (str "lobby", none) ∷ [];
}

reload_configuration-IsSafe_example :
    IsSafe
      (reload_configuration documents arguments
        (λ l. pos 4)
        8
        (default_conf arguments 8)
        files
        test_conf).1
reload_configuration-IsSafe_example =
    reload_configuration-IsSafe documents arguments (λ l. pos 4) 8 (default_conf arguments 8) files
      test_conf (default_conf-IsSafe arguments 8 arguments_domain) (test_conf_domain, tt)

reload_example :
    (reload_configuration documents arguments
      (λ l. pos 4)
      8
      (default_conf arguments 8)
      files
      test_conf).1.domain
    ≡ str ".a.b"
unfolding reload_configuration default_conf initial_arguments ◌>>=◌ converted load_settings text_eq
    check_domain is_domain_char is_alnum load_server
reload_example = refl
