-- ===== src/Routing/Laws.antt =====
-- Which record an address selects.
use mcshub.Base.{
  ◌≡◌, ◌≢◌, refl, Bool, true, false, none, some, [], ◌∷◌, ◌++◌, arith, Text, text_eq, text_eq_iff,
  length-append, last_char, IsCString, c_str_same, c_str-append, IsCString-append, Bool-cases,
  Option-cases, inl, inr, subst, sym, ◌∙◌,
}
use mcshub.Base.Map.{Map, find}
use mcshub.Settings.{ServerRecord, Settings}
use mcshub.Routing.{record_name, choose, select, route, is_fml}
use mcshub.Routing.Names.{dot, record_name-domain, record_name-dot_no_domain, record_name-append}

is_fml_plain : (s : Text) → IsCString s → is_fml s ≡ false
unfolding is_fml
is_fml_plain s h = rw (c_str_same s h) (ground arith)

is_fml_marked : (s t : Text) → IsCString s → is_fml (s ++ 0 ∷ t) ≡ true
unfolding is_fml
is_fml_marked s t h = let e = length-append s (0 ∷ t) in rw (c_str-append s t h) (ground arith)

route_name :
    (conf : Settings) (address name : Text)
    → record_name conf.domain address ≡ some name
    → route conf address ≡ some (name, select conf name (is_fml address))
unfolding route
route_name conf address name h = rw (h, route)

select_found :
    (conf : Settings) (name : Text) (fml : Bool) (r : ServerRecord)
    → find name conf.servers ≡ some r
    → select conf name fml ≡ choose r fml
unfolding select
select_found conf name fml r h = rw (h, select)

select_missing :
    (conf : Settings) (name : Text) (fml : Bool)
    → find name conf.servers ≡ none
    → select conf name fml ≡ choose conf.default_server fml
unfolding select
select_missing conf name fml h = rw (h, select)

choose_plain : (r : ServerRecord) → choose r false ≡ r.base
unfolding choose
choose_plain r = ground arith

choose_fml : (r : ServerRecord) → choose r true ≡ elim r.fml [ none ↦ r.base | some f ↦ f ]
unfolding choose
choose_fml r = elim (Option-cases r.fml) [
  | inl e ↦ rw (e, choose) refl
  | inr (f, e) ↦ rw (e, choose) refl
]

-- A plain client that asks for a configured name under the configured domain gets that server's
-- own record, if the name is not empty, neither holds a null byte, and the address does not end in a
-- dot.
pub route-domain :
    (conf : Settings) (host : Text) (r : ServerRecord)
    → host ≢ []
    → IsCString host
    → IsCString conf.domain
    → last_char (host ++ conf.domain) ≢ b'.'
    → find host conf.servers ≡ some r
    → route conf (host ++ conf.domain) ≡ some (host, r.base)
route-domain conf host r h k l d e =
    let n = record_name-domain host conf.domain h k l d in
    cc (
      route_name conf _ host n,
      is_fml_plain _ (IsCString-append host conf.domain k l),
      select_found conf host false r e,
      choose_plain r,
    )

-- A Forge client that sends such an address and a null byte gets the record's Forge variant where
-- there is one and its own record where there is none, whatever it puts behind the null byte, if the name is not empty, neither it nor the
-- domain holds a null byte, and the address does not end in a dot.
pub route_fml :
    (conf : Settings) (host mark : Text) (r : ServerRecord)
    → host ≢ []
    → IsCString host
    → IsCString conf.domain
    → last_char (host ++ conf.domain) ≢ b'.'
    → find host conf.servers ≡ some r
    → route conf ((host ++ conf.domain) ++ 0 ∷ mark)
      ≡ some (host, elim r.fml [ none ↦ r.base | some f ↦ f ])
route_fml conf host mark r h k l d e =
    let valid = IsCString-append host conf.domain k l in
    let n =
      record_name-append conf.domain (host ++ conf.domain) mark valid
      ∙ record_name-domain host conf.domain h k l d in
    cc (
      route_name conf _ host n,
      is_fml_marked _ mark valid,
      select_found conf host true r e,
      choose_fml r,
    )

-- Every key is a C string.
abbrev pub HasCStringKeys : Map ServerRecord → Type 0
HasCStringKeys [] = Unit {0}
HasCStringKeys ((k, r) ∷ m) = IsCString k × HasCStringKeys m

null-IsCString : (s : Text) → ¬ IsCString (s ++ 0 ∷ [])
null-IsCString [] h = h.0 refl
null-IsCString (c ∷ s) h = null-IsCString s h.1

find_null : (name : Text) (m : Map ServerRecord) → HasCStringKeys m → find (name ++ 0 ∷ []) m ≡ none
unfolding find
find_null name [] h = refl
find_null name ((k, r) ∷ m) h = elim (Bool-cases (text_eq k (name ++ 0 ∷ []))) [
  | inl same ↦ absurd (null-IsCString name (subst IsCString ((text_eq_iff _ _).0 same) h.0))
  | inr other ↦ rw other (find_null name m h.1)
]

-- With no domain, an address that ends in a dot selects the default server, whatever is configured
-- under its name, if neither it nor a configured name holds a null byte.
pub route-dot_no_domain :
    (conf : Settings) (name : Text)
    → conf.domain ≡ []
    → IsCString name
    → HasCStringKeys conf.servers
    → route conf (name ++ dot) ≡ some (name ++ 0 ∷ [], conf.default_server.base)
route-dot_no_domain conf name e h k =
    let n =
      subst (λ domain. record_name domain (name ++ dot) ≡ some (name ++ 0 ∷ [])) (sym e)
        (record_name-dot_no_domain name h) in
    let plain = is_fml_plain (name ++ dot) (IsCString-append name dot h (omega arith)) in
    cc (
      route_name conf _ _ n,
      plain,
      select_missing conf _ false (find_null name conf.servers k),
      choose_plain conf.default_server,
    )
