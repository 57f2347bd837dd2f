-- ===== src/Base64/Decoded.antt =====
-- What a reader of base 64 makes of an encoded file.
use Prim.Native.Nat.{bit_and, bit_or}
use mcshub.Base.{
  ◌≡◌, refl, ap, ◌∙◌, arith, ℕ, zero, suc, ◌+◌, ◌-◌, ◌*◌, ◌/◌, ◌%◌, ◌<◌, Bool, true, false, ◌&&◌,
  List, [], ◌∷◌, leb, ◌==◌, if◌then◌else◌, Text,
}
use mcshub.Base64.{code2char, first, second, third, fourth, encode}

-- The value of a character of the alphabet of RFC 4648.
unfoldable pub char2code : ℕ → ℕ
char2code c =
    if c == b'+'
    then 62
    else if c == b'/'
    then 63
    else if leb c b'9'
    then c - b'0' + 52
    else if leb c b'Z'
    then c - b'A'
    else c - b'a' + 26

-- The three bytes of four characters, and fewer where there is padding.
unfoldable pub decode : Text → List ℕ
unfolding char2code
decode (p ∷ q ∷ r ∷ s ∷ rest) =
    let a = char2code p * 4 + char2code q / 16 in
    let b = char2code q % 16 * 16 + char2code r / 4 in
    let c = char2code r % 4 * 64 + char2code s in
    let more = decode rest in
    if r == b'=' then a ∷ [] else if s == b'=' then a ∷ b ∷ [] else a ∷ b ∷ c ∷ more
decode _ = []

-- A test on every number below a bound.
all_below : ℕ → (ℕ → Bool) → Bool
all_below zero p = true
all_below (suc n) p = p n && all_below n p

all_below_lem : (n : ℕ) (p : ℕ → Bool) (x : ℕ) → all_below n p ≡ true → x < n → p x ≡ true
unfolding all_below
all_below_lem zero p x h lt = absurd (omega arith)
all_below_lem (suc n) p x h lt = ground (arith, all_below_lem n p x)

eq_of_test : (a b : ℕ) → (a == b) ≡ true → a ≡ b
eq_of_test a b h = ground arith

code_table : all_below 64 (λ n. char2code (code2char n) == n) ≡ true
unfolding all_below code2char char2code
code_table = refl

char2code-code2char : (n : ℕ) → n < 64 → char2code (code2char n) ≡ n
char2code-code2char n h = eq_of_test _ n (all_below_lem 64 _ n code_table h)

padding_table : all_below 64 (λ n. (if code2char n == b'=' then 1 else 0) == 0) ≡ true
unfolding all_below code2char
padding_table = refl

code2char_padding : (n : ℕ) → n < 64 → (code2char n == b'=') ≡ false
code2char_padding n h = ground (
  arith,
  eq_of_test (if code2char n == b'=' then 1 else 0) 0 (all_below_lem 64 _ n padding_table h),
)

six_table : all_below 256 (λ a. bit_and a 63 == a % 64) ≡ true
unfolding all_below
six_table = refl

four_table : all_below 256 (λ a. bit_and a 15 == a % 16) ≡ true
unfolding all_below
four_table = refl

two_table : all_below 256 (λ a. bit_and a 3 == a % 4) ≡ true
unfolding all_below
two_table = refl

six_bits : (a : ℕ) → a < 256 → bit_and a 63 ≡ a % 64
six_bits a h = eq_of_test _ _ (all_below_lem 256 _ a six_table h)

four_bits : (a : ℕ) → a < 256 → bit_and a 15 ≡ a % 16
four_bits a h = eq_of_test _ _ (all_below_lem 256 _ a four_table h)

two_bits : (a : ℕ) → a < 256 → bit_and a 3 ≡ a % 4
two_bits a h = eq_of_test _ _ (all_below_lem 256 _ a two_table h)

second_table : all_below 4 (λ x. all_below 16 (λ y. bit_or (x * 16) y == x * 16 + y)) ≡ true
unfolding all_below
second_table = refl

third_table : all_below 16 (λ x. all_below 4 (λ y. bit_or (x * 4) y == x * 4 + y)) ≡ true
unfolding all_below
third_table = refl

first_lem : (a : ℕ) → a < 256 → first a ≡ a / 4
unfolding first
first_lem a h = omega (arith, six_bits (a / 4) (omega arith))

second_lem : (a b : ℕ) → a < 256 → b < 256 → second a b ≡ a % 4 * 16 + b / 16
unfolding second
second_lem a b h k =
    rw (two_bits a h, four_bits (b / 16) (omega arith))
      (eq_of_test _ _ (
          all_below_lem 16 _ (b / 16 % 16) (all_below_lem 4 _ (a % 4) second_table (omega arith))
            (omega arith))
        ∙ omega arith)

third_lem : (b c : ℕ) → b < 256 → c < 256 → third b c ≡ b % 16 * 4 + c / 64
unfolding third
third_lem b c h k =
    rw (four_bits b h, two_bits (c / 64) (omega arith))
      (eq_of_test _ _ (
          all_below_lem 4 _ (c / 64 % 4) (all_below_lem 16 _ (b % 16) third_table (omega arith))
            (omega arith))
        ∙ omega arith)

fourth_lem : (c : ℕ) → c < 256 → fourth c ≡ c % 64
unfolding fourth
fourth_lem c h = six_bits c h

module _ (m n : ℕ) (hm : m < 64) (hn : n < 64) where
  decode_one : decode (code2char m ∷ code2char n ∷ b'=' ∷ b'=' ∷ []) ≡ (m * 4 + n / 16) ∷ []
  unfolding decode
  decode_one = rw (char2code-code2char m hm, char2code-code2char n hn) refl

  module _ (k : ℕ) (hk : k < 64) where
    decode_two :
        decode (code2char m ∷ code2char n ∷ code2char k ∷ b'=' ∷ [])
        ≡ (m * 4 + n / 16) ∷ (n % 16 * 16 + k / 4) ∷ []
    unfolding decode
    decode_two =
        rw
          (
            code2char_padding k hk,
            char2code-code2char m hm,
            char2code-code2char n hn,
            char2code-code2char k hk,
          )
          refl

    decode_three :
        (l : ℕ) (rest : Text)
        → l < 64
        → decode (code2char m ∷ code2char n ∷ code2char k ∷ code2char l ∷ rest)
          ≡ (m * 4 + n / 16) ∷ (n % 16 * 16 + k / 4) ∷ (k % 4 * 64 + l) ∷ decode rest
    unfolding decode
    decode_three l rest hl =
        rw
          (
            code2char_padding k hk,
            code2char_padding l hl,
            char2code-code2char m hm,
            char2code-code2char n hn,
            char2code-code2char k hk,
            char2code-code2char l hl,
          )
          refl

decode_nil : decode [] ≡ []
unfolding decode
decode_nil = refl

first_back : (a b : ℕ) → b < 256 → a / 4 * 4 + (a % 4 * 16 + b / 16) / 16 ≡ a
first_back a b h = omega arith

second_back :
    (a b c : ℕ)
    → b < 256
    → c < 256
    → (a % 4 * 16 + b / 16) % 16 * 16 + (b % 16 * 4 + c / 64) / 4 ≡ b
second_back a b c h k = omega arith

second_last : (a b : ℕ) → b < 256 → (a % 4 * 16 + b / 16) % 16 * 16 + b % 16 * 4 / 4 ≡ b
second_last a b h = omega arith

third_back : (b c : ℕ) → c < 256 → (b % 16 * 4 + c / 64) % 4 * 64 + c % 64 ≡ c
third_back b c h = omega arith

abbrev pub AreBytes : List ℕ → Type 0
AreBytes [] = Unit {0}
AreBytes (b ∷ bs) = (b < 256) × AreBytes bs

-- A reader of base 64 gets back every file of bytes from its encoding, a last incomplete triplet
-- included.
pub decode-encode : (bytes : List ℕ) → AreBytes bytes → decode (encode bytes) ≡ bytes
unfolding encode
decode-encode [] h = decode_nil
decode-encode (a ∷ []) h =
    rw (first_lem a h.0, two_bits a h.0)
      (decode_one (a / 4) (a % 4 * 16) (omega (arith, h.0)) (omega arith)
        ∙ ap (λ x. x ∷ []) (omega arith))
decode-encode (a ∷ b ∷ []) h =
    rw (first_lem a h.0, second_lem a b h.0 h.1.0, four_bits b h.1.0)
      (decode_two (a / 4) (a % 4 * 16 + b / 16) (omega (arith, h.0)) (omega (arith, h.1.0))
          (b % 16 * 4) (omega arith)
        ∙ λ i. first_back a b h.1.0 i ∷ second_last a b h.1.0 i ∷ [])
decode-encode (a ∷ b ∷ c ∷ rest) h =
    rw
      (first_lem a h.0, second_lem a b h.0 h.1.0, third_lem b c h.1.0 h.1.1.0, fourth_lem c h.1.1.0)
      (decode_three (a / 4) (a % 4 * 16 + b / 16) (omega (arith, h.0)) (omega (arith, h.1.0))
          (b % 16 * 4 + c / 64) (omega (arith, h.1.1.0)) (c % 64) (encode rest) (omega arith)
        ∙ λ i.
            first_back a b h.1.0 i
            ∷ second_back a b c h.1.0 h.1.1.0 i
            ∷ third_back b c h.1.1.0 i
            ∷ decode-encode rest h.1.1.1 i)
