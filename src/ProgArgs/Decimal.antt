-- ===== src/ProgArgs/Decimal.antt =====
-- Numbers that are written down are read back by `atoi`.
use mcshub.Base.{
  ◌≡◌, ◌≢◌, refl, sym, ap, ◌∙◌, arith, ℕ, zero, suc, ◌+◌, ◌-◌, ◌*◌, ◌/◌, ◌%◌, ◌≤◌, ◌<◌, true, false,
  Bool-cases, inl, inr, [], ◌∷◌, ◌++◌, ltb, leb, ◌==◌, ◌&&◌, ◌||◌, if◌then◌else◌, pos, Text,
}
use mcshub.ProgArgs.Options.{done, digits, atoi}

-- The digits of a number below `bound f`.
abbrev bound : ℕ → ℕ
bound zero = 1
bound (suc f) = bound f * 10

decimal_in : ℕ → ℕ → Text
decimal_in zero n = []
decimal_in (suc f) n =
    let front = decimal_in f (n / 10) in
    if ltb n 10 then (b'0' + n) ∷ [] else front ++ (b'0' + n % 10) ∷ []

-- Ten digits hold every number that an option can have.
unfoldable pub decimal : ℕ → Text
unfolding decimal_in
decimal n = decimal_in 10 n

abbrev IsDigit : ℕ → Type 0
IsDigit c = (b'0' ≤ c) × (c ≤ b'9')

abbrev AllDigits : Text → Type 0
AllDigits [] = Unit {0}
AllDigits (c ∷ s) = IsDigit c × AllDigits s

AllDigits-append : (s t : Text) → AllDigits s → AllDigits t → AllDigits (s ++ t)
AllDigits-append [] t h k = k
AllDigits-append (c ∷ s) t h k = (h.0, AllDigits-append s t h.1 k)

decimal_in-AllDigits : (f n : ℕ) → AllDigits (decimal_in f n)
unfolding decimal_in
decimal_in-AllDigits zero n = tt
decimal_in-AllDigits (suc f) n = elim (Bool-cases (ltb n 10)) [
  | inl small ↦ rw small ((omega arith, ground arith), tt)
  | inr large ↦ rw large (
      AllDigits-append (decimal_in f (n / 10)) _ (decimal_in-AllDigits f (n / 10))
        ((omega arith, omega arith), tt))
]

digit_read : (n c : ℕ) (s : Text) → IsDigit c → digits n (c ∷ s) ≡ digits (n * 10 + (c - b'0')) s
unfolding digits
digit_read n c s h = ground arith

digits-append : (n : ℕ) (s t : Text) → AllDigits s → digits n (s ++ t) ≡ digits (digits n s) t
digits-append n [] t h = unfold digits in refl
digits-append n (c ∷ s) t h =
    digit_read n c (s ++ t) h.0
    ∙ digits-append (n * 10 + (c - b'0')) s t h.1
    ∙ ap (λ (k : ℕ). digits k t) (sym (digit_read n c s h.0))

digits_one : (n c : ℕ) → IsDigit c → digits n (c ∷ []) ≡ n * 10 + (c - b'0')
digits_one n c h = digit_read n c [] h ∙ unfold digits in refl

digits-decimal_in : (f n : ℕ) → n < bound f → digits 0 (decimal_in f n) ≡ n
unfolding decimal_in
digits-decimal_in zero n h = unfold digits in omega arith
digits-decimal_in (suc f) n h = elim (Bool-cases (ltb n 10)) [
  | inl small ↦ rw small (digits_one 0 (b'0' + n) (omega arith, ground arith) ∙ omega arith)
  | inr large ↦ rw large (
      digits-append 0 (decimal_in f (n / 10)) ((b'0' + n % 10) ∷ [])
        (decimal_in-AllDigits f (n / 10))
      ∙ ap (λ (k : ℕ). digits k ((b'0' + n % 10) ∷ [])) (digits-decimal_in f (n / 10) (omega arith))
      ∙ digits_one (n / 10) (b'0' + n % 10) (omega arith, omega arith)
      ∙ omega arith)
]

-- `atoi` on digits.
atoi-digits :
    (c : ℕ) (s : Text)
    → AllDigits (c ∷ s)
    → digits 0 (c ∷ s) ≤ 2147483647
    → atoi (c ∷ s) ≡ done (pos (digits 0 (c ∷ s)))
unfolding atoi
atoi-digits c s h small =
    let space : (c == 32 || (leb 9 c && leb c 13)) ≡ false = ground arith in
    let minus : (c == 45) ≡ false = ground arith in
    let plus : (c == 43) ≡ false = ground arith in
    let fits : leb (digits 0 (c ∷ s)) 2147483647 ≡ true = ground arith in
    rw (space, minus, plus, fits) refl

append-ne-nil : (s : Text) (c : ℕ) → s ++ c ∷ [] ≢ []
append-ne-nil [] c e = cc
append-ne-nil (x ∷ s) c e = cc

decimal_in-ne-nil : (f n : ℕ) → decimal_in (suc f) n ≢ []
unfolding decimal_in
decimal_in-ne-nil f n = elim (Bool-cases (ltb n 10)) [
  | inl small ↦ rw small (λ e. cc)
  | inr large ↦ rw large (append-ne-nil (decimal_in f (n / 10)) (b'0' + n % 10))
]

atoi_text :
    (t : Text) → t ≢ [] → AllDigits t → digits 0 t ≤ 2147483647 → atoi t ≡ done (pos (digits 0 t))
atoi_text [] some_digit h small = absurd (some_digit refl)
atoi_text (c ∷ s) some_digit h small = atoi-digits c s h small

pub atoi-decimal : (n : ℕ) → n ≤ 2147483647 → atoi (decimal n) ≡ done (pos n)
unfolding decimal
atoi-decimal n h =
    let e = digits-decimal_in 10 n (omega (arith, h)) in
    atoi_text (decimal_in 10 n) (decimal_in-ne-nil 9 n) (decimal_in-AllDigits 10 n)
      (omega (arith, e, h))
    ∙ ap (λ (k : ℕ). done (pos k)) e
