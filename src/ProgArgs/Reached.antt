-- ===== src/ProgArgs/Reached.antt =====
-- What no command line can set.
use mcshub.Base.{◌≡◌, refl, ◌∙◌, ℕ, zero, suc, List, [], ◌∷◌, length, Text, ℤ, subst, drop}
use mcshub.ProgArgs.{Arguments}
use mcshub.ProgArgs.Gives.{
  Holds, Gives, Gives-done, Gives-invalid_argument, Gives-if, Gives-if_again, Gives-and_then,
  Gives-after,
}
use mcshub.ProgArgs.Options.{
  Outcome, done, get_arg_value, atoi, assert_arg_range, text_option, number_option, level_option,
  long_option, letter, letters, parse_one, parse_from, parse,
}

module _ (a : Arguments) where
  abbrev Same : Arguments → Type 0
  Same b = (b.drop ≡ a.drop) × (b.timeout ≡ a.timeout)

  abbrev SameThen : Arguments × List Text → Type 0
  SameThen r = Same r.0

module _ (str2loglvl : Text → Outcome ℤ) (a : Arguments) where
  module _ (curr : Text) (rest : List Text) where
    done-Same :
        (b : Arguments)
        → b.drop ≡ a.drop
        → b.timeout ≡ a.timeout
        → Gives (SameThen a) (done (b, rest))
    done-Same b h k = record { at = (h, k) }

    text_option-Same :
        (set : Text → Arguments)
        → ((v : Text) → (set v).drop ≡ a.drop)
        → ((v : Text) → (set v).timeout ≡ a.timeout)
        → Gives (SameThen a) (text_option curr rest set)
    unfolding text_option
    text_option-Same set h k =
        Gives-after (get_arg_value curr rest) _ λ r. record { at = (h r.0, k r.0) }

    number_option-Same :
        (max : ℕ) (set : ℕ → Arguments)
        → ((n : ℕ) → (set n).drop ≡ a.drop)
        → ((n : ℕ) → (set n).timeout ≡ a.timeout)
        → Gives (SameThen a) (number_option curr rest max set)
    unfolding number_option
    number_option-Same max set h k = Gives-after (get_arg_value curr rest) _ λ r.
        Gives-after (atoi r.0) _
          λ x. Gives-after (assert_arg_range max x) _ λ n. record { at = (h n, k n) }

    level_option-Same :
        (set : ℤ → Arguments)
        → ((v : ℤ) → (set v).drop ≡ a.drop)
        → ((v : ℤ) → (set v).timeout ≡ a.timeout)
        → Gives (SameThen a) (level_option str2loglvl curr rest set)
    unfolding level_option
    level_option-Same set h k =
        Gives-after (get_arg_value curr rest) _
          λ r. Gives-after (str2loglvl r.0) _ λ v. record { at = (h v, k v) }

    ruleset same_rules = (
      done-Same, Gives-invalid_argument, Gives-if_again, Gives-if, text_option-Same,
      number_option-Same, level_option-Same,
    )

    long_option-Same : (arg : Text) → Gives (SameThen a) (long_option str2loglvl curr arg rest a)
    unfolding long_option
    long_option-Same arg = search same_rules depth 30

module _ (a : Arguments) where
  letter_done : (b : Arguments) → b.drop ≡ a.drop → b.timeout ≡ a.timeout → Gives (Same a) (done b)
  letter_done b h k = record { at = (h, k) }

  letter-Same : (c : ℕ) → Gives (Same a) (letter c a)
  unfolding letter
  letter-Same c = search (letter_done, Gives-invalid_argument, Gives-if) depth 12

module _ (a : Arguments) where
  letters-Same : (s : Text) (b : Arguments) → Same a b → Gives (Same a) (letters s b)
  unfolding letters
  letters-Same [] b h = record { at = h }
  letters-Same (c ∷ s) b h =
      Gives-and_then (letter c b) _ (letter-Same b c) λ x k. letters-Same s x (k.0 ∙ h.0, k.1 ∙ h.1)

module _ (str2loglvl : Text → Outcome ℤ) where
  parse_one-Same :
      (a : Arguments) (curr : Text) (rest : List Text)
      → Gives (SameThen a) (parse_one str2loglvl curr rest a)
  unfolding parse_one
  parse_one-Same a curr rest =
      Gives-if _ _ _ (long_option-Same str2loglvl a curr rest (drop 2 curr)) (
        Gives-if _ _ _
          (Gives-and_then (letters (drop 1 curr) a) _ (letters-Same a (drop 1 curr) a (refl, refl))
            λ b h. record { at = h })
          (Gives-done _ (refl, refl)))

module _ (str2loglvl : Text → Outcome ℤ) (a : Arguments) where
  parse_from-Same :
      (n : ℕ) (args : List Text) (b : Arguments)
      → Same a b
      → Gives (Same a) (parse_from str2loglvl n args b)
  unfolding parse_from
  parse_from-Same n [] b h = record { at = h }
  parse_from-Same zero (curr ∷ rest) b h = record { at = tt }
  parse_from-Same (suc n) (curr ∷ rest) b h =
      Gives-and_then (parse_one str2loglvl curr rest b) _ (parse_one-Same str2loglvl b curr rest)
        λ r k. parse_from-Same n r.1 r.0 (k.0 ∙ h.0, k.1 ∙ h.1)

  -- No command line sets `drop` or `timeout`: where reading it gives a result, both are as they were
  -- before. The branch for `drop` tests a name that an earlier branch takes, and `--timeout` writes
  -- `max_packet_size`.
  pub parse_drop_timeout :
      (args : List Text) (b : Arguments)
      → parse str2loglvl args a ≡ done b
      → (b.drop ≡ a.drop) × (b.timeout ≡ a.timeout)
  unfolding parse
  parse_drop_timeout args b e =
      subst (Holds (Same a)) e (parse_from-Same (length args) args a (refl, refl)).at
