-- ===== src/Base/Bytes.antt =====
-- Texts are lists of bytes: `std::string` may hold any byte, the null byte included.
use Prim.Native.Char.{code}
use Prim.Native.String.{String}
use Prim.Native.Nat.{ℕ, zero, suc, ◌+◌, ◌-◌, ◌≤◌}
use native.Mathlib.Nat.{suc-add}
use mathlib.Core.Path.{◌≡◌, refl, ap}
use mathlib.Core.Logic.{◌↔◌, ◌≢◌, inl, inr}
use mathlib.Core.Bool.{Bool, true, false, ◌&&◌, ◌||◌}
use mathlib.Core.List.{List, [], ◌∷◌, ◌++◌}
use native.Mathlib.Omega.{arith}
use mcshub.Base.Lists.{length, get_or, drop, length-append}
use mcshub.Base.Tests.{Bool-cases, leb, ◌==◌, if◌then◌else◌}

abbrev pub Text : Type 0
Text = List ℕ

-- The bytes of an ASCII literal.
abbrev pub str : String → Text
str String.[] = []
str (String.◌∷◌ c s) = code c ∷ str s

unfoldable pub text_eq : Text → Text → Bool
text_eq [] [] = true
text_eq (x ∷ xs) (y ∷ ys) = x == y && text_eq xs ys
text_eq _ _ = false

pub text_eq_refl : (a : Text) → text_eq a a ≡ true
unfolding text_eq
text_eq_refl [] = refl
text_eq_refl (x ∷ xs) = ground (arith, text_eq_refl xs)

text_eq→eq : (a b : Text) → text_eq a b ≡ true → a ≡ b
unfolding text_eq
text_eq→eq [] [] h = refl
text_eq→eq [] (y ∷ ys) h = cc
text_eq→eq (x ∷ xs) [] h = cc
text_eq→eq (x ∷ xs) (y ∷ ys) h = ground (arith, text_eq→eq xs ys)

pub text_eq_iff : (a b : Text) → (text_eq a b ≡ true) ↔ (a ≡ b)
text_eq_iff a b = (text_eq→eq a b, λ e. rw e (text_eq_refl b))

-- `std::isalnum` in the "C" locale.
unfoldable pub is_alnum : ℕ → Bool
is_alnum c = leb b'0' c && leb c b'9' || (leb b'A' c && leb c b'Z' || leb b'a' c && leb c b'z')

-- The C string at the start of a buffer: what stands before the first null byte.
unfoldable pub c_str : Text → Text
c_str [] = []
c_str (c ∷ s) = if c == 0 then [] else c ∷ c_str s

unfoldable pub pop_back : Text → Text
pop_back [] = []
pop_back (c ∷ []) = []
pop_back (c ∷ d ∷ s) = c ∷ pop_back (d ∷ s)

-- No byte is null.
abbrev pub IsCString : Text → Type 0
IsCString [] = Unit {0}
IsCString (c ∷ s) = (c ≢ 0) × IsCString s

pub c_str_same : (s : Text) → IsCString s → c_str s ≡ s
unfolding c_str
c_str_same [] h = refl
c_str_same (c ∷ s) h = ground (arith, c_str_same s)

-- Reading stops at a null byte, whatever stands behind it.
pub c_str-append : (s t : Text) → IsCString s → c_str (s ++ 0 ∷ t) ≡ s
unfolding c_str
c_str-append [] t h = refl
c_str-append (c ∷ s) t h = ground (arith, c_str-append s t)

pub c_str-IsCString : (s : Text) → IsCString (c_str s)
unfolding c_str
c_str-IsCString [] = tt
c_str-IsCString (c ∷ s) = ground (arith, c_str-IsCString s)

pub IsCString-append : (s t : Text) → IsCString s → IsCString t → IsCString (s ++ t)
IsCString-append [] t h k = k
IsCString-append (c ∷ s) t h k = (h.0, IsCString-append s t h.1 k)

pub pop_back-append : (s : Text) (c : ℕ) → pop_back (s ++ c ∷ []) ≡ s
unfolding pop_back
pop_back-append [] c = refl
pop_back-append (x ∷ []) c = refl
pop_back-append (x ∷ y ∷ s) c = ap (λ (r : Text). x ∷ r) (pop_back-append (y ∷ s) c)

-- A C string that starts `d` bytes into a buffer ends at the buffer's terminator.
pub length-c_str_drop :
    (d : ℕ) (s t : Text) → d ≤ length s → length (c_str (drop d (s ++ 0 ∷ t))) ≤ length s - d
unfolding c_str
length-c_str_drop zero [] t h = omega arith
length-c_str_drop zero (c ∷ s) t h = ground (arith, length-c_str_drop 0 s t)
length-c_str_drop (suc d) [] t h = absurd (omega arith)
length-c_str_drop (suc d) (c ∷ s) t h =
    let ih = length-c_str_drop d s t (omega arith) in omega (arith, ih)

-- Texts of different lengths differ.
pub text_eq-length : (a b : Text) → length a ≢ length b → text_eq a b ≡ false
text_eq-length a b h = elim (Bool-cases (text_eq a b)) [
  | inl e ↦ absurd (h (ap length ((text_eq_iff a b).0 e)))
  | inr e ↦ e
]

abbrev pub last_char : Text → ℕ
last_char s = get_or s (length s - 1) 0

get_or-append : (s t : Text) → get_or (s ++ t) (length s + (length t - 1)) 0 ≡ last_char t
get_or-append [] t = ap (λ n. get_or t n 0) (omega arith)
get_or-append (c ∷ s) t = rw suc-add (get_or-append s t)

pub last_char-append : (s t : Text) → t ≢ [] → last_char (s ++ t) ≡ last_char t
last_char-append s [] h = absurd (h refl)
last_char-append s (c ∷ t) h =
    let e : length (s ++ c ∷ t) - 1 ≡ length s + (length (c ∷ t) - 1) =
      omega (arith, length-append s (c ∷ t)) in
    rw e (get_or-append s (c ∷ t))
