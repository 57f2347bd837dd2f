-- ===== src/Routing/Names.antt =====
-- How an address becomes the key of a server record.
use mcshub.Base.{
  ℕ, suc, ◌+◌, ◌-◌, ◌<◌, ◌≡◌, ◌≢◌, refl, ap, true, false, Bool-cases, inl, inr, some, [], ◌∷◌, ◌++◌,
  append-nil, append_assoc, arith, ltb, ◌==◌, if◌then◌else◌, lt→ltb, Text, text_eq, text_eq_refl,
  text_eq-length, length, length-append, take-append, drop-append, drop-append_add,
  length-c_str_drop, take_long, drop, c_str, pop_back, last_char, last_char-append, IsCString,
  c_str_same, c_str-append, IsCString-append, pop_back-append,
}
use mcshub.Routing.{resize, cut_domain, record_name}

resize-append : (s t : Text) → resize (length s) (s ++ t) ≡ s
unfolding resize
resize-append s t =
    let e : length s - length (s ++ t) ≡ 0 = omega (arith, length-append s t) in
    rw (e, take-append) (append-nil s)

length-pos : (s : Text) → s ≢ [] → 0 < length s
length-pos [] h = absurd (h refl)
length-pos (c ∷ s) h = omega arith

-- The domain is cut off a name that ends in it.
cut_domain_match :
    (host domain : Text)
    → host ≢ []
    → IsCString domain
    → cut_domain (length (host ++ domain)) domain (host ++ domain) ≡ host
unfolding cut_domain
cut_domain_match host domain h k =
    let l = length-append host domain in
    let p = length-pos host h in
    let e : length (host ++ domain) - length domain ≡ length host = omega arith in
    let long : ltb (length domain) (length (host ++ domain)) ≡ true = lt→ltb _ _ (omega arith) in
    rw
      (
        long,
        e,
        append_assoc,
        drop-append,
        c_str-append domain (0 ∷ []) k,
        c_str_same domain k,
        text_eq_refl domain,
      )
      (resize-append host domain)

-- A name whose length is counted with the final dot that was dropped is never cut: what is compared
-- with the domain is one byte too short.
cut_domain_dropped :
    (name domain : Text)
    → domain ≢ []
    → IsCString domain
    → cut_domain (suc (length name)) domain name ≡ name
unfolding cut_domain
cut_domain_dropped name domain h k = elim (Bool-cases (ltb (length domain) (suc (length name)))) [
  | inr short ↦ rw short
  | inl long ↦
      let d = suc (length name) - length domain in
      let pos = length-pos domain h in
      let short = length-c_str_drop d name (0 ∷ []) (ground arith) in
      let whole = ap length (c_str_same domain k) in
      let ne : length (c_str (drop d (name ++ 0 ∷ 0 ∷ []))) ≢ length (c_str domain) =
        ground arith in
      rw (long, text_eq-length _ _ ne)
]

-- With no domain such a name is padded with a null byte.
cut_domain_no_domain : (name : Text) → cut_domain (suc (length name)) [] name ≡ name ++ 0 ∷ []
unfolding cut_domain c_str text_eq resize
cut_domain_no_domain name =
    let e : suc (length name) - 0 ≡ length name + 1 = omega arith in
    let f : length name + 1 - length name ≡ 1 = omega arith in
    let long : ltb 0 (suc (length name)) ≡ true = lt→ltb _ _ (omega arith) in
    rw (long, e, drop-append_add 1 name, take_long (length name + 1) name (omega arith), f)

abbrev pub dot : Text
dot = b'.' ∷ []

dot_end : (name : Text) → (last_char (name ++ dot) == b'.') ≡ true
dot_end name = rw (last_char-append name dot (λ e. cc))

append-ne-nil : (s t : Text) → s ≢ [] → s ++ t ≢ []
append-ne-nil [] t h e = h refl
append-ne-nil (c ∷ s) t h e = cc

ne-nil-append : (s : Text) (c : ℕ) → s ++ c ∷ [] ≢ []
ne-nil-append [] c e = cc
ne-nil-append (d ∷ s) c e = cc

record_name_cons :
    (domain s : Text)
    → s ≢ []
    → IsCString s
    → record_name domain s
      ≡ some (cut_domain (length s) domain (if last_char s == b'.' then pop_back s else s))
unfolding record_name
record_name_cons domain [] h k = absurd (h refl)
record_name_cons domain (c ∷ s) h k = rw (record_name, c_str_same (c ∷ s) k)

-- An address that is a server's name with the configured domain behind it selects that name.
pub record_name-domain :
    (host domain : Text)
    → host ≢ []
    → IsCString host
    → IsCString domain
    → last_char (host ++ domain) ≢ b'.'
    → record_name domain (host ++ domain) ≡ some host
record_name-domain host domain h k l d =
    let no_dot : (last_char (host ++ domain) == b'.') ≡ false = ground arith in
    rw (
      record_name_cons domain (host ++ domain) (append-ne-nil host domain h)
          (IsCString-append host domain k l),
      no_dot,
      cut_domain_match host domain h l,
    )

module _ (name domain : Text) (named : IsCString name) (suffix : IsCString domain) where
  record_name-dot :
      record_name domain (name ++ dot) ≡ some (cut_domain (suc (length name)) domain name)
  record_name-dot =
      let e : length (name ++ dot) ≡ suc (length name) = omega (arith, length-append name dot) in
      let valid = IsCString-append name dot named (omega arith) in
      rw (
        record_name_cons domain (name ++ dot) (ne-nil-append name b'.') valid,
        dot_end name,
        e,
        pop_back-append name b'.',
      )

  -- An address that ends in a dot keeps the configured domain.
  pub record_name-dot_domain : domain ≢ [] → record_name domain (name ++ dot) ≡ some name
  record_name-dot_domain h = rw (record_name-dot, cut_domain_dropped name domain h suffix)

-- Where no domain is configured, an address that ends in a dot gets a null byte in its place.
pub record_name-dot_no_domain :
    (name : Text) → IsCString name → record_name [] (name ++ dot) ≡ some (name ++ 0 ∷ [])
record_name-dot_no_domain name h = rw (record_name-dot name [] h tt, cut_domain_no_domain name)

-- What stands behind a null byte does not change the name.
pub record_name-append :
    (domain s t : Text) → IsCString s → record_name domain (s ++ 0 ∷ t) ≡ record_name domain s
unfolding record_name
record_name-append domain s t h = rw (record_name, c_str-append s t h, c_str_same s h)
