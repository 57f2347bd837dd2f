-- ===== src/ProgArgs/Options.antt =====
-- The functions of src/prog_args.cpp. An argument is a C string.
use mcshub.Base.{
  ℕ, zero, suc, ◌+◌, ◌-◌, ◌*◌, Bool, true, ◌&&◌, ◌||◌, Option, none, some, List, [], ◌∷◌, ◌++◌, ltb,
  leb, ◌==◌, if◌then◌else◌, ℤ, pos, negsuc, Text, str, text_eq, length, get_or, take, drop,
}
use mcshub.ProgArgs.{Arguments}

-- What reading gives: a result, an `std::invalid_argument`, or undefined behaviour.
pub data Outcome {ℓ} (A : Type ℓ) : Type ℓ where
  done : A → Outcome A
  invalid_argument : Outcome A
  undefined : Outcome A

abbrev pub and_then : {A B : Type 0} → Outcome A → (A → Outcome B) → Outcome B
and_then (done a) f = f a
and_then invalid_argument f = invalid_argument
and_then undefined f = undefined

-- What stands behind the first '='.
unfoldable pub after_equals : Text → Option Text
after_equals [] = none
after_equals (c ∷ s) = let rest = after_equals s in if c == b'=' then some s else rest

-- The value of an option and the arguments that follow it: it is the next argument where the option
-- itself has none.
unfoldable pub value_or_next : Option Text → List Text → Outcome (Text × List Text)
value_or_next (some v) rest = done (v, rest)
value_or_next none [] = invalid_argument
value_or_next none (v ∷ rest) = done (v, rest)

unfoldable pub get_arg_value : Text → List Text → Outcome (Text × List Text)
unfolding after_equals value_or_next
get_arg_value curr rest = value_or_next (after_equals curr) rest

unfoldable pub is_arg_name : Text → Text → Bool
unfolding text_eq
is_arg_name arg name =
    let n = length name in text_eq arg name || (text_eq (take n arg) name && get_or arg n 0 == b'=')

abbrev is_space : ℕ → Bool
is_space c = c == b' ' || (leb 9 c && leb c 13)

abbrev is_digit : ℕ → Bool
is_digit c = leb b'0' c && leb c b'9'

unfoldable pub digits : ℕ → Text → ℕ
digits n [] = n
digits n (c ∷ s) = let more = digits (n * 10 + (c - b'0')) s in if is_digit c then more else n

-- `std::atoi`: undefined where the value is no `int`.
unfoldable pub atoi : Text → Outcome ℤ
unfolding digits
atoi [] = done (pos 0)
atoi (c ∷ s) =
    let skipped = atoi s in
    let positive = digits 0 (if c == b'+' then s else c ∷ s) in
    let negative = digits 0 s in
    if is_space c
    then skipped
    else if c == b'-'
    then (if negative == 0
        then done (pos 0)
        else if leb negative 2147483648
        then done (negsuc (negative - 1))
        else undefined)
    else if leb positive 2147483647
    then done (pos positive)
    else undefined

-- `assert_arg_range` for a type whose maximum is `max`.
unfoldable pub assert_arg_range : ℕ → ℤ → Outcome ℕ
assert_arg_range max (negsuc k) = invalid_argument
assert_arg_range max (pos x) = if ltb max x then invalid_argument else done x

abbrev pub Parsed : Type 0
Parsed = Outcome (Arguments × List Text)

-- An option with a value, and one that is a number of at most `max`.
unfoldable pub text_option : Text → List Text → (Text → Arguments) → Parsed
unfolding get_arg_value
text_option curr rest set = and_then (get_arg_value curr rest) λ r. done (set r.0, r.1)

unfoldable pub number_option : Text → List Text → ℕ → (ℕ → Arguments) → Parsed
unfolding get_arg_value atoi assert_arg_range
number_option curr rest max set =
    and_then (get_arg_value curr rest)
      λ r. and_then (atoi r.0) λ x. and_then (assert_arg_range max x) λ n. done (set n, r.1)

unfoldable pub letter : ℕ → Arguments → Outcome Arguments
letter c a =
    if c == b'i'
    then done (record a { install = true })
    else if c == b'm'
    then done (record a { mcsman = true })
    else if c == b'd'
    then done (record a { distributed = true })
    else if c == b'v'
    then done (record a { version = true })
    else if c == b'h'
    then done (record a { help = true })
    else if c == b'c'
    then done (record a { cli = true })
    else invalid_argument

-- The loop over the letters behind one dash.
unfoldable pub letters : Text → Arguments → Outcome Arguments
unfolding letter
letters [] a = done a
letters (c ∷ s) a = and_then (letter c a) λ b. letters s b

module _ (str2loglvl : Text → Outcome ℤ) where
  unfoldable pub level_option : Text → List Text → (ℤ → Arguments) → Parsed
  unfolding get_arg_value
  level_option curr rest set =
      and_then (get_arg_value curr rest) λ r. and_then (str2loglvl r.0) λ v. done (set v, r.1)

  -- `arg` is `curr` without its two dashes.
  unfoldable pub long_option : Text → Text → List Text → Arguments → Parsed
  unfolding is_arg_name text_option number_option level_option
  long_option curr arg rest a =
      if is_arg_name arg (str "confname")
      then text_option curr rest (λ v. record a { confname = v })
      else if is_arg_name arg (str "status")
      then text_option curr rest (λ v. record a { status = v })
      else if is_arg_name arg (str "login")
      then text_option curr rest (λ v. record a { login = v })
      else if is_arg_name arg (str "default-dir")
      then text_option curr rest (λ v. record a { default_srv_dir = v })
      else if is_arg_name arg (str "domain")
      then text_option curr rest (λ v. record a { domain = v })
      else if is_arg_name arg (str "mcsman")
      then done (record a { mcsman = true }, rest)
      else if is_arg_name arg (str "install")
      then done (record a { install = true }, rest)
      else if is_arg_name arg (str "distributed")
      then done (record a { distributed = true }, rest)
      else if is_arg_name arg (str "distributed")
      then done (record a { drop = true }, rest)
      else if is_arg_name arg (str "address")
      then text_option curr rest (λ v. record a { address = v })
      else if is_arg_name arg (str "port")
      then number_option curr rest 65535 (λ n. record a { port = n })
      else if is_arg_name arg (str "default-port")
      then number_option curr rest 65535 (λ n. record a { default_port = n })
      else if is_arg_name arg (str "max-packet-size")
      then number_option curr rest 2147483647 (λ n. record a { max_packet_size = n })
      else if is_arg_name arg (str "timeout")
      then number_option curr rest 2147483647 (λ n. record a { max_packet_size = n })
      else if is_arg_name arg (str "version")
      then done (record a { version = true }, rest)
      else if is_arg_name arg (str "help")
      then done (record a { help = true }, rest)
      else if is_arg_name arg (str "cli")
      then done (record a { cli = true }, rest)
      else if is_arg_name arg (str "no-dns-cache")
      then done (record a { no_dns_cache = true }, rest)
      else if is_arg_name arg (str "threads")
      then number_option curr rest 4294967295 (λ n. record a { threads = n })
      else if is_arg_name arg (str "verb")
      then level_option curr rest (λ v. record a { verb = v })
      else invalid_argument

  -- The body of the loop.
  unfoldable pub parse_one : Text → List Text → Arguments → Parsed
  unfolding long_option letters
  parse_one curr rest a =
      if text_eq (take 2 curr) (str "--")
      then long_option curr (drop 2 curr) rest a
      else if get_or curr 0 0 == b'-'
      then and_then (letters (drop 1 curr) a) (λ b. done (b, rest))
      else done (record a { other = a.other ++ curr ∷ [] }, rest)

  -- The loop over the arguments, at most `n` times.
  unfoldable pub parse_from : ℕ → List Text → Arguments → Outcome Arguments
  unfolding parse_one
  parse_from n [] a = done a
  parse_from zero (curr ∷ rest) a = undefined
  parse_from (suc n) (curr ∷ rest) a = and_then (parse_one curr rest a) λ r. parse_from n r.1 r.0

  unfoldable pub parse : List Text → Arguments → Outcome Arguments
  unfolding parse_from
  parse args a = parse_from (length args) args a
