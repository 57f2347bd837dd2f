-- ===== src/Settings/Domain.antt =====
-- `check_domain` of src/settings.cpp, which checks and completes the `domain` option.
pub mod Laws
use mcshub.Base.{
  ℕ, ◌-◌, Bool, true, not, ◌&&◌, [], ◌∷◌, ◌==◌, if◌then◌else◌, Text, str, text_eq, is_alnum, length,
  get_or, pop_back,
}

pub data DomainError : Type 0 where
  starts_with_dot illegal_characters : DomainError

pub data Checked : Type 0 where
  accepted : Text → Checked
  refused : DomainError → Checked

unfoldable pub is_domain_char : ℕ → Bool
is_domain_char c = not (not (c == b'.') && not (is_alnum c) && not (c == b'_') && not (c == b'-'))

-- The loop over the characters.
unfoldable pub all_domain_chars : Text → Bool
all_domain_chars [] = true
all_domain_chars (c ∷ s) = is_domain_char c && all_domain_chars s

unfoldable pub check_domain : Text → Checked
unfolding all_domain_chars text_eq pop_back
check_domain [] = accepted []
check_domain (c ∷ s) =
    if text_eq (c ∷ s) (str ".")
    then accepted []
    else if c == b'.'
    then refused starts_with_dot
    else if not (all_domain_chars (c ∷ s))
    then refused illegal_characters
    else if get_or (c ∷ s) (length (c ∷ s) - 1) 0 == b'.'
    then accepted (b'.' ∷ pop_back (c ∷ s))
    else accepted (b'.' ∷ c ∷ s)
