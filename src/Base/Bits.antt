-- ===== src/Base/Bits.antt =====
-- `|` of C++ on unsigned numbers, where the hub uses it to choose a port.
use Prim.Native.Nat.{ℕ, zero, suc, ◌/◌, ◌≤◌, max, bit_or, digits, bit_or-bitwise}
use mathlib.Core.Path.{◌≡◌, refl}
use native.Mathlib.Omega.{arith}

pub bit_or-zero : (a : ℕ) → bit_or 0 a ≡ a
bit_or-zero a = bit_or-bitwise 0 a

abbrev or_digits : ℕ → ℕ → ℕ → ℕ
or_digits n a b = digits (λ b. b) max n a b

or_digits_self : (n a : ℕ) → a ≤ n → or_digits n a a ≡ a
or_digits_self zero zero h = refl
or_digits_self zero (suc a) h = absurd (omega arith)
or_digits_self (suc n) zero h = refl
or_digits_self (suc n) (suc a) h = omega (arith, or_digits_self n (suc a / 2) (omega arith))

pub bit_or_self : (a : ℕ) → bit_or a a ≡ a
bit_or_self zero = bit_or-zero 0
bit_or_self (suc a) =
    omega (arith, bit_or-bitwise (suc a) (suc a), or_digits_self (suc a) (suc a) (omega arith))

or_digits-zero : (n a : ℕ) → a ≤ n → or_digits n a 0 ≡ a
or_digits-zero zero zero h = refl
or_digits-zero zero (suc a) h = absurd (omega arith)
or_digits-zero (suc n) zero h = refl
or_digits-zero (suc n) (suc a) h = omega (arith, or_digits-zero n (suc a / 2) (omega arith))

pub bit_or-zero_right : (a : ℕ) → bit_or a 0 ≡ a
bit_or-zero_right a = omega (arith, bit_or-bitwise a 0, or_digits-zero a a (omega arith))
