-- ===== src/Settings/Yaml.antt =====
-- What src/settings.cpp asks of yaml-cpp, and the conversions that may throw.
use mcshub.Base.{ℕ, Bool, Option, none, some, List, ℤ, Text}
use mcshub.Exec.{Exec, yaml_exception, pure, throw, skip, ◌>>=◌}

-- `YAML::Node`. The conversions `as` give nothing where the library throws, and `node[key]` gives
-- `none` where it throws and `some none` where there is no such key.
pub record Yaml : Type 1 where
  pub Node : Type 0
  pub is_scalar : Node → Bool
  pub is_map : Node → Bool
  pub at : Node → Text → Option (Option Node)
  pub items : Node → List (Node × Node)
  pub as_text : Node → Option Text
  pub as_bool : Node → Option Bool
  pub as_uint16 : Node → Option ℕ
  pub as_unsigned : Node → Option ℕ
  pub as_ulong : Node → Option ℕ
  pub as_int : Node → Option ℤ

module _ {S A : Type 0} where
  unfoldable pub converted : Option A → Exec S A
  converted none = throw yaml_exception
  converted (some a) = pure a

module _ {S : Type 0} (y : Yaml) where
  -- `if (auto n = node[key]) { f(n); }`
  unfoldable pub with_field : y.Node → Text → (y.Node → Exec S (Unit {0})) → Exec S (Unit {0})
  unfolding converted
  with_field node key f = do
    field ← converted (y.at node key)
    elim field [ none ↦ skip | some n ↦ f n ]
