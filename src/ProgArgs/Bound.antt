-- ===== src/ProgArgs/Bound.antt =====
-- The bound on the loop over the arguments.
use mcshub.Base.{
  ◌≡◌, refl, ℕ, zero, suc, ◌≤◌, some, none, Option, List, [], ◌∷◌, length, Text, ℤ, arith, drop,
}
use mcshub.ProgArgs.{Arguments}
use mcshub.ProgArgs.Gives.{Gives, Gives-invalid_argument, Gives-if, Gives-and_then, Gives-after}
use mcshub.ProgArgs.Options.{
  Outcome, done, invalid_argument, undefined, and_then, after_equals, value_or_next, get_arg_value,
  atoi, assert_arg_range, text_option, number_option, level_option, long_option, letters, parse_one,
  parse_from, parse,
}

-- No argument is left to read that was not there before.
abbrev Shorter : {A : Type 0} → List Text → A × List Text → Type 0
Shorter rest r = length r.1 ≤ length rest

module _ {A B : Type 0} where
  and_then_same :
      (P : A → Type 0) (o : Outcome A) (f g : A → Outcome B)
      → Gives P o
      → ((a : A) → P a → f a ≡ g a)
      → and_then o f ≡ and_then o g
  and_then_same P (done a) f g h k = k a h.at
  and_then_same P invalid_argument f g h k = refl
  and_then_same P undefined f g h k = refl

value_or_next-Shorter :
    (o : Option Text) (rest : List Text) → Gives (Shorter rest) (value_or_next o rest)
unfolding value_or_next
value_or_next-Shorter (some v) rest = record { at = omega arith }
value_or_next-Shorter none [] = Gives-invalid_argument
value_or_next-Shorter none (v ∷ rest) = record { at = omega arith }

module _ (curr : Text) (rest : List Text) where
  get_arg_value-Shorter : Gives (Shorter rest) (get_arg_value curr rest)
  unfolding get_arg_value
  get_arg_value-Shorter = value_or_next-Shorter (after_equals curr) rest

  text_option-Shorter : (set : Text → Arguments) → Gives (Shorter rest) (text_option curr rest set)
  unfolding text_option
  text_option-Shorter set =
      Gives-and_then (get_arg_value curr rest) _ get_arg_value-Shorter λ r h. record { at = h }

  number_option-Shorter :
      (max : ℕ) (set : ℕ → Arguments) → Gives (Shorter rest) (number_option curr rest max set)
  unfolding number_option
  number_option-Shorter max set =
      Gives-and_then (get_arg_value curr rest) _ get_arg_value-Shorter λ r h.
        Gives-after (atoi r.0) _ λ x. Gives-after (assert_arg_range max x) _ λ n. record { at = h }

  done-Shorter : (a : Arguments) → Gives (Shorter rest) (done (a, rest))
  done-Shorter a = record { at = omega arith }

module _ (str2loglvl : Text → Outcome ℤ) (curr : Text) (rest : List Text) where
  level_option-Shorter :
      (set : ℤ → Arguments) → Gives (Shorter rest) (level_option str2loglvl curr rest set)
  unfolding level_option
  level_option-Shorter set =
      Gives-and_then (get_arg_value curr rest) _ (get_arg_value-Shorter curr rest)
        λ r h. Gives-after (str2loglvl r.0) _ λ v. record { at = h }

  long_option-Shorter :
      (arg : Text) (a : Arguments) → Gives (Shorter rest) (long_option str2loglvl curr arg rest a)
  unfolding long_option
  long_option-Shorter arg a =
      search
        (
          done-Shorter, Gives-invalid_argument, Gives-if, text_option-Shorter,
          number_option-Shorter, level_option-Shorter,
        )
        depth 30

  parse_one-Shorter : (a : Arguments) → Gives (Shorter rest) (parse_one str2loglvl curr rest a)
  unfolding parse_one
  parse_one-Shorter a = Gives-if _ _ _ (long_option-Shorter (drop 2 curr) a) (
      Gives-if _ _ _ (Gives-after (letters (drop 1 curr) a) _ λ b. done-Shorter curr rest b)
        (done-Shorter curr rest _))

module _ (str2loglvl : Text → Outcome ℤ) where
  same_bound :
      (m n : ℕ) (args : List Text) (a : Arguments)
      → length args ≤ m
      → length args ≤ n
      → parse_from str2loglvl m args a ≡ parse_from str2loglvl n args a
  unfolding parse_from
  same_bound m n [] a h k = refl
  same_bound zero n (curr ∷ rest) a h k = absurd (omega arith)
  same_bound (suc m) zero (curr ∷ rest) a h k = absurd (omega arith)
  same_bound (suc m) (suc n) (curr ∷ rest) a h k =
      and_then_same (Shorter rest) (parse_one str2loglvl curr rest a) _ _
        (parse_one-Shorter str2loglvl curr rest a)
        λ r l. same_bound m n r.1 r.0 (omega arith) (omega arith)

  -- The bound on the loop is never met: every larger one gives the same outcome.
  pub parse_from_enough :
      (n : ℕ) (args : List Text) (a : Arguments)
      → length args ≤ n
      → parse_from str2loglvl n args a ≡ parse str2loglvl args a
  unfolding parse
  parse_from_enough n args a h = same_bound n (length args) args a h (omega arith)
