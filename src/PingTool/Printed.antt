-- ===== src/PingTool/Printed.antt =====
-- An address that is written down is read back.
use mcshub.Base.{
  ◌≡◌, ◌≢◌, refl, ℕ, Bool, false, some, [], ◌∷◌, ◌++◌, ◌==◌, if◌then◌else◌, Text, arith, Bool-cases,
  inl, inr, ◌||◌,
}
use mcshub.PingTool.{HostInfo, until_bracket, until_colon, port_of, host_info}

abbrev has_colon : Text → Bool
has_colon [] = false
has_colon (c ∷ s) = c == b':' || has_colon s

-- The usual way to write an address: a host with a colon stands in brackets.
abbrev pub print_address : HostInfo → Text
print_address i =
    if has_colon i.host then b'[' ∷ i.host ++ b']' ∷ b':' ∷ i.port else i.host ++ b':' ∷ i.port

-- A host name holds no bracket.
abbrev pub HasNoBracket : Text → Type 0
HasNoBracket [] = Unit {0}
HasNoBracket (c ∷ s) = ((c ≢ b'[') × (c ≢ b']')) × HasNoBracket s

not_equal : (a b : ℕ) → a ≢ b → (a == b) ≡ false
not_equal a b h = ground arith

bracket_found : (h t : Text) → HasNoBracket h → until_bracket (h ++ b']' ∷ t) ≡ some (h, t)
unfolding until_bracket
bracket_found [] t k = refl
bracket_found (c ∷ h) t k = rw (bracket_found h t k.1) (ground arith)

colon_found : (h t : Text) → has_colon h ≡ false → until_colon (h ++ b':' ∷ t) ≡ (h, b':' ∷ t)
unfolding until_colon
colon_found [] t k = refl
colon_found (c ∷ h) t k = ground (arith, colon_found h t)

read_back :
    (h p : Text)
    → h ≢ []
    → HasNoBracket h
    → host_info (print_address (record { host = h; port = p }))
      ≡ some (record { host = h; port = p })
unfolding host_info port_of
read_back [] p h k = absurd (h refl)
read_back (c ∷ s) p h k = elim (Bool-cases (has_colon (c ∷ s))) [
  | inl colon ↦ rw (colon, bracket_found (c ∷ s) (b':' ∷ p) k, host_info) refl
  | inr plain ↦
      let unbracketed : (c == b'[') ≡ false = not_equal c b'[' k.0.0 in
      rw (plain, unbracketed, colon_found (c ∷ s) p plain, host_info) refl
]

-- An address with a host name that is not empty and holds no bracket is read back from the way it
-- is written, in brackets where the host holds a colon.
pub host_info-print_address :
    (i : HostInfo) → i.host ≢ [] → HasNoBracket i.host → host_info (print_address i) ≡ some i
host_info-print_address i = read_back i.host i.port
