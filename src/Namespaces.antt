-- ===== src/Namespaces.antt =====
-- src/response_props.cpp: the variable types of a status or login text.
use mcshub.Base.{
  ℕ, Option, none, some, List, [], ◌∷◌, ◌++◌, ◌==◌, if◌then◌else◌, Text, str, text_eq,
}
use mcshub.Base.Map.{Map, find}
use mcshub.Base64.{encode}
use mcshub.Paket.{Handshake, handshake_var}
use mcshub.Vars.{Namespace}

abbrev pub nothing : Text
nothing = str "{ NULL }"

abbrev or_nothing : Option Text → Text
or_nothing none = nothing
or_nothing (some s) = s

-- A file name that starts with a slash is taken from the working directory, any other from the
-- server's.
unfoldable pub var_path : Text → Text → Text
var_path srv_name [] = []
var_path srv_name (c ∷ s) = if c == b'/' then s else srv_name ++ b'/' ∷ c ∷ s

module _ (file : Text → Option Text) (srv_name : Text) where
  unfoldable pub file_var : Text → Text
  unfolding var_path
  file_var [] = nothing
  file_var (c ∷ s) = or_nothing (file (var_path srv_name (c ∷ s)))

  unfoldable pub img_var : Text → Text
  unfolding var_path
  img_var [] = nothing
  img_var (c ∷ s) = elim (file (var_path srv_name (c ∷ s))) [
    | none ↦ nothing
    | some content ↦ str "data:image/png;base64," ++ encode content
  ]

unfoldable pub env_var : (Text → Option Text) → Text → Text
env_var getenv name = or_nothing (getenv name)

unfoldable pub server_var : Map Text → Text → Text
server_var vars name = or_nothing (find name vars)

unfoldable pub main_var : (ℕ → Text) → ℕ → Text → Text
main_var uuid at name = if text_eq name (str "uuid") then uuid at else nothing

abbrev pub main_namespace : (ℕ → Text) → Namespace
main_namespace uuid = record { name = str "main"; lookup = main_var uuid }

abbrev pub named : Text → (Text → Text) → Namespace
named ns lookup = record { name = ns; lookup = λ at name. lookup name }

-- The variable types of a portal behind the first, in their order.
unfoldable pub other_namespaces :
    Map Text → Text → (Text → Option Text) → Handshake → (Text → Option Text) → List Namespace
other_namespaces vars srv_name file hs getenv =
    named (str "var") (server_var vars)
    ∷ named (str "file") (file_var file srv_name)
    ∷ named (str "img") (img_var file srv_name)
    ∷ named (str "hs") (handshake_var hs)
    ∷ named (str "env") (env_var getenv)
    ∷ []
