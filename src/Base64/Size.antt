-- ===== src/Base64/Size.antt =====
-- The size of an encoded image.
use mcshub.Base.{
  ◌≡◌, refl, ℕ, ◌+◌, ◌*◌, ◌/◌, ◌%◌, ◌≤◌, List, [], ◌∷◌, length, if◌then◌else◌, ◌==◌, arith,
}
use mcshub.Base64.{encode}

-- The `b64size` that `img_vars::operator[]` reserves for a file of `size` bytes.
unfoldable pub b64size : ℕ → ℕ
b64size size = let n = size * 4 in n / 3 + (if n % 3 == 0 then 0 else 4)

-- Four characters for each three bytes, a last incomplete triplet included.
pub length-encode : (s : List ℕ) → length (encode s) ≡ (length s + 2) / 3 * 4
unfolding encode
length-encode [] = refl
length-encode (a ∷ []) = refl
length-encode (a ∷ b ∷ []) = refl
length-encode (a ∷ b ∷ c ∷ rest) = let ih = length-encode rest in omega (arith, ih)

-- An encoded file fits into the characters that are reserved for it.
pub length-encode-b64size : (s : List ℕ) → length (encode s) ≤ b64size (length s)
unfolding b64size
length-encode-b64size s = let e = length-encode s in ground (arith, e)
