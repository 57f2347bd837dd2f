-- ===== src/Settings/Domain/Laws.antt =====
-- What `check_domain` accepts, and the domain that it makes of it.
use mcshub.Base.{
  ℕ, ◌≡◌, ◌≢◌, refl, true, [], ◌∷◌, ◌++◌, arith, Text, pop_back, last_char, IsCString,
  last_char-append, pop_back-append, is_alnum,
}
use mcshub.Settings.Domain.{accepted, is_domain_char, all_domain_chars, check_domain}

-- A completed domain: empty, or a dot and a name of legal characters that starts with no dot.
abbrev pub IsDomain : Text → Type 0
IsDomain [] = Unit {0}
IsDomain (d ∷ []) = ⊥
IsDomain (d ∷ c ∷ s) = (d ≡ b'.') × (c ≢ b'.') × (all_domain_chars (c ∷ s) ≡ true)

all_domain_chars-pop_back :
    (s : Text) → all_domain_chars s ≡ true → all_domain_chars (pop_back s) ≡ true
unfolding all_domain_chars pop_back
all_domain_chars-pop_back [] h = refl
all_domain_chars-pop_back (c ∷ []) h = refl
all_domain_chars-pop_back (c ∷ d ∷ s) h = ground (arith, all_domain_chars-pop_back (d ∷ s))

-- Whatever is accepted becomes a well-formed domain.
pub check_domain-IsDomain : (name r : Text) → check_domain name ≡ accepted r → IsDomain r
unfolding check_domain pop_back
check_domain-IsDomain [] [] h = tt
check_domain-IsDomain [] (d ∷ r) h = cc
check_domain-IsDomain (c ∷ s) [] h = tt
check_domain-IsDomain (c ∷ []) (d ∷ []) h = ground arith
check_domain-IsDomain (c ∷ e ∷ s) (d ∷ []) h = ground arith
check_domain-IsDomain (c ∷ []) (d ∷ e ∷ r) h = ground arith
check_domain-IsDomain (c ∷ e ∷ s) (d ∷ f ∷ r) h =
    ground (arith, all_domain_chars-pop_back (c ∷ e ∷ s))

IsDomain_IsCString_chars : (s : Text) → all_domain_chars s ≡ true → IsCString s
unfolding all_domain_chars is_domain_char is_alnum
IsDomain_IsCString_chars [] h = tt
IsDomain_IsCString_chars (c ∷ s) h = ground (arith, IsDomain_IsCString_chars s)

-- A domain holds no null byte.
pub IsDomain-IsCString : (d : Text) → IsDomain d → IsCString d
IsDomain-IsCString [] h = tt
IsDomain-IsCString (d ∷ []) h = absurd h
IsDomain-IsCString (d ∷ c ∷ s) h = let rest = IsDomain_IsCString_chars (c ∷ s) h.2 in ground arith

all_domain_chars-append_dot :
    (s : Text) → all_domain_chars s ≡ true → all_domain_chars (s ++ b'.' ∷ []) ≡ true
unfolding all_domain_chars is_domain_char
all_domain_chars-append_dot [] h = refl
all_domain_chars-append_dot (c ∷ s) h = ground (arith, all_domain_chars-append_dot s)

-- A name of legal characters with no dot at either end is accepted, and one final dot makes no
-- difference.
pub check_domain_complete :
    (c : ℕ) (s : Text)
    → c ≢ b'.'
    → all_domain_chars (c ∷ s) ≡ true
    → last_char (c ∷ s) ≢ b'.'
    → (check_domain (c ∷ s) ≡ accepted (b'.' ∷ c ∷ s))
      × (check_domain ((c ∷ s) ++ b'.' ∷ []) ≡ accepted (b'.' ∷ c ∷ s))
unfolding check_domain
check_domain_complete c [] h k l =
    ground (arith, all_domain_chars-append_dot (c ∷ []), pop_back-append (c ∷ []) b'.')
check_domain_complete c (d ∷ s) h k l = (
  ground arith,
  ground (
    arith,
    last_char-append (c ∷ d ∷ s) (b'.' ∷ []) (λ e. cc),
    all_domain_chars-append_dot (c ∷ d ∷ s) k,
    pop_back-append (c ∷ d ∷ s) b'.',
  ),
)
