-- ===== src/Base64.antt =====
-- `code2char` and the encoding loop of `img_vars::operator[]`, src/response_props.cpp.
pub mod Size
pub mod Decoded
use Prim.Native.Nat.{bit_and, bit_or}
use mcshub.Base.{ℕ, ◌+◌, ◌-◌, ◌*◌, ◌/◌, List, [], ◌∷◌, leb, ◌==◌, if◌then◌else◌, Text}

unfoldable pub code2char : ℕ → ℕ
code2char c =
    if leb c 25
    then c + b'A'
    else if leb c 51
    then c - 26 + b'a'
    else if leb c 61
    then c - 52 + b'0'
    else if c == 62
    then b'+'
    else b'/'

-- The four characters' codes, for the bytes of a triplet.
unfoldable pub first : ℕ → ℕ
first a = bit_and (a / 4) 0b111111

unfoldable pub second : ℕ → ℕ → ℕ
second a b = bit_or (bit_and a 0b11 * 16) (bit_and (b / 16) 0b1111)

unfoldable pub third : ℕ → ℕ → ℕ
third b c = bit_or (bit_and b 0b1111 * 4) (bit_and (c / 64) 0b11)

unfoldable pub fourth : ℕ → ℕ
fourth c = bit_and c 0b111111

-- Whole triplets, then two, one or no bytes that are left.
unfoldable pub encode : List ℕ → Text
unfolding code2char first second third fourth
encode [] = []
encode (a ∷ []) = code2char (first a) ∷ code2char (bit_and a 0b11 * 16) ∷ b'=' ∷ b'=' ∷ []
encode (a ∷ b ∷ []) =
    code2char (first a) ∷ code2char (second a b) ∷ code2char (bit_and b 0b1111 * 4) ∷ b'=' ∷ []
encode (a ∷ b ∷ c ∷ rest) =
    code2char (first a)
    ∷ code2char (second a b)
    ∷ code2char (third b c)
    ∷ code2char (fourth c)
    ∷ encode rest
