-- ===== src/Settings/Safe.antt =====
-- What holds of every configuration that `load_settings` has filled.
use mcshub.Base.{◌≡◌, ◌≢◌, refl, Option, none, some, List, [], ◌∷◌, ℤ, pos, negsuc, ℕ, Text}
use mcshub.Exec.{Exec, err, config_exception, throw, modify, ◌>>=◌}
use mcshub.Exec.Rules.{
  Keeps, Keeps-pure, Keeps-throw, Keeps-skip, Keeps-modify, Keeps-bind, Keeps-if, Keeps-catch,
}
use mcshub.Exec.Guards.{Guards, Keeps-Guards, Guards-bind}
use mcshub.ProgArgs.{Arguments}
use mcshub.Settings.{ServerRecord, Settings}
use mcshub.Settings.Domain.{Checked, accepted, refused, check_domain}
use mcshub.Settings.Domain.Laws.{IsDomain, check_domain-IsDomain}
use mcshub.Settings.Load.{LogLevel, str2lvl, load_server, in_default}
use mcshub.Settings.LoadConf.{
  store_checked, set_domain, set_max_packet_size, load_servers, load_settings,
}
use mcshub.Settings.Yaml.{Yaml, converted, with_field}

abbrev pub NonNegative : ℤ → Type 0
NonNegative (pos n) = Unit
NonNegative (negsuc n) = ⊥

abbrev pub IsSafe : Settings → Type 0
IsSafe c = IsDomain c.domain × NonNegative c.max_packet_size

pub converted-IsSafe : {A : Type 0} (o : Option A) → Keeps IsSafe (converted o)
unfolding converted
converted-IsSafe none = Keeps-throw _
converted-IsSafe (some a) = Keeps-pure a

store_checked-IsSafe :
    (k : Checked) (c : Settings)
    → NonNegative c.max_packet_size
    → ((d : Text) → k ≡ accepted d → IsDomain d)
    → (store_checked k c).0 ≢ err config_exception
    → IsSafe (store_checked k c).1
unfolding store_checked modify throw
store_checked-IsSafe (accepted d) c h known e = (known d refl, h)
store_checked-IsSafe (refused x) c h known e = absurd (e refl)

set_domain-IsSafe : (v : Text) → Guards IsSafe (set_domain v)
unfolding set_domain ◌>>=◌
set_domain-IsSafe v = record {
  at = λ c h.
      store_checked-IsSafe (check_domain v) (record c { domain = v }) h.1 (check_domain-IsDomain v);
}

set_max-IsSafe : (v : ℤ) → Guards IsSafe (set_max_packet_size v)
unfolding set_max_packet_size ◌>>=◌
set_max-IsSafe (pos n) = record { at = λ c h e. (h.0, tt) }
set_max-IsSafe (negsuc n) = record { at = λ c h e. absurd (e refl) }

module _ (y : Yaml) where
  with_field-IsSafe :
      (node : y.Node) (key : Text) (f : y.Node → Exec Settings (Unit {0}))
      → ((n : y.Node) → Guards IsSafe (f n))
      → Guards IsSafe (with_field y node key f)
  unfolding with_field
  with_field-IsSafe node key f h =
      Guards-bind _ _ (Keeps-Guards _ (converted-IsSafe (y.at node key)))
        (elim [ none ↦ Keeps-Guards _ Keeps-skip | some n ↦ h n ])

-- A field that is no part of what is claimed.
field-IsSafe :
    {A : Type 0} (o : Option A) (f : A → Settings → Settings)
    → ((a : A) (c : Settings) → IsSafe c → IsSafe (f a c))
    → Keeps IsSafe (converted o >>= λ v. modify (f v))
field-IsSafe o f h = Keeps-bind _ _ (converted-IsSafe o) λ v. Keeps-modify _ (h v)

str2lvl-IsSafe : (verb : Text) → Keeps IsSafe (str2lvl verb)
unfolding str2lvl
str2lvl-IsSafe verb = search (Keeps-if, Keeps-pure, Keeps-throw) depth 12

module _ (y : Yaml) (arguments : Arguments) where
  load_servers-IsSafe :
      (items : List (y.Node × y.Node)) → Keeps IsSafe (load_servers y arguments items)
  unfolding load_servers
  load_servers-IsSafe [] = Keeps-skip
  load_servers-IsSafe ((key, node) ∷ more) =
      Keeps-bind _ _ (record { at = λ c h. h })
        λ server.
          Keeps-bind _ _ (converted-IsSafe (y.as_text key))
            λ name. Keeps-bind _ _ (Keeps-modify _ (λ c h. h)) λ _. load_servers-IsSafe more

  in_default-IsSafe : (m : Exec ServerRecord (Unit {0})) → Keeps IsSafe (in_default m)
  in_default-IsSafe m = record { at = λ c h. h }

  -- A field whose action keeps safety.
  field :
      (node : y.Node) (key : Text) (f : y.Node → Exec Settings (Unit {0}))
      → ((n : y.Node) → Keeps IsSafe (f n))
      → Guards IsSafe (with_field y node key f)
  field node key f h = with_field-IsSafe y node key f λ n. Keeps-Guards _ (h n)

  module _ (level : LogLevel → ℤ) (get_nprocs : ℕ) where
    pub load_settings-IsSafe :
        (node : y.Node) → Guards IsSafe (load_settings y arguments level get_nprocs node)
    unfolding load_settings
    load_settings-IsSafe node =
        Guards-bind _ _ (field node _ _ λ n. field-IsSafe (y.as_text n) _ λ v c h. h) λ _.
          Guards-bind _ _ (field node _ _ λ n. field-IsSafe (y.as_uint16 n) _ λ v c h. h) λ _.
            Guards-bind _ _
              (field node _ _ λ n.
                Keeps-catch _ _ (field-IsSafe (y.as_unsigned n) _ λ v c h. h) λ e.
                  Keeps-bind _ _ (converted-IsSafe (y.as_text n))
                    λ text. Keeps-if _ _ _ (Keeps-modify _ (λ c h. h)) Keeps-skip)
              λ _.
                Guards-bind _ _
                  (with_field-IsSafe y node _ _ λ n.
                    Guards-bind _ _ (Keeps-Guards _ (converted-IsSafe (y.as_int n)))
                      λ v. set_max-IsSafe v)
                  λ _.
                    Guards-bind _ _ (field node _ _ λ n. field-IsSafe (y.as_ulong n) _ λ v c h. h)
                      λ _.
                        Guards-bind _ _
                          (field node _ _ λ n. field-IsSafe (y.as_text n) _ λ v c h. h)
                          λ _.
                            Guards-bind _ _
                              (field node _ _ λ n.
                                Keeps-bind _ _
                                  (Keeps-catch _ _ (converted-IsSafe (y.as_int n)) λ e.
                                    Keeps-bind _ _ (converted-IsSafe (y.as_text n)) λ text.
                                      Keeps-bind _ _ (str2lvl-IsSafe text)
                                        λ l. Keeps-pure (level l))
                                  λ verb. Keeps-modify _ (λ c h. h))
                              λ _.
                                Guards-bind _ _
                                  (field node _ _ λ n. field-IsSafe (y.as_bool n) _ λ v c h. h)
                                  λ _.
                                    Guards-bind _ _
                                      (with_field-IsSafe y node _ _ λ n.
                                        Guards-bind _ _
                                          (Keeps-Guards _ (converted-IsSafe (y.as_text n)))
                                          λ v. set_domain-IsSafe v)
                                      λ _.
                                        Guards-bind _ _
                                          (field node _ _ λ n.
                                            Keeps-if _ _ _ (Keeps-throw _)
                                              (in_default-IsSafe (load_server y arguments n)))
                                          λ _.
                                            Guards-bind _ _
                                              (field node _ _ λ n.
                                                Keeps-if _ _ _ (Keeps-throw _)
                                                  (load_servers-IsSafe (y.items n)))
                                              λ _.
                                                field node _ _
                                                  λ n. field-IsSafe (y.as_bool n) _ λ v c h. h
