-- ===== src/ProgArgs/Reading.antt =====
-- How each option of a command line is read.
use mcshub.Base.{
  ◌≡◌, ◌≢◌, refl, ◌⊎◌, inl, inr, sym, ap, subst, ◌∙◌, arith, ℕ, ◌≤◌, Bool, true, false, List, [],
  ◌∷◌, ◌++◌, append_assoc, append-nil, if◌then◌else◌, ℤ, pos, Text, str, length, get_or, ◌==◌,
}
use mcshub.ProgArgs.{Arguments}
use mcshub.ProgArgs.Bound.{parse_from_enough}
use mcshub.ProgArgs.Decimal.{decimal, atoi-decimal}
use mcshub.ProgArgs.Options.{
  Outcome, done, and_then, assert_arg_range, parse_one, parse_from, parse,
}

abbrev pub flag : Bool → Text → List Text
flag b word = if b then word ∷ [] else []

-- The number of threads, unless it is the one that stands for none given.
abbrev pub threads_words : ℕ → List Text
threads_words n = if n == 4294967295 then [] else str "--threads" ∷ decimal n ∷ []

-- No word that starts with a dash.
abbrev pub AllPlain : List Text → Type 0
AllPlain [] = Unit {0}
AllPlain (word ∷ more) = (get_or word 0 0 ≢ b'-') × AllPlain more

module _ (str2loglvl : Text → Outcome ℤ) where
  -- Reading `args` turns `a` into `b`, and then what follows them is read.
  pub record Reads (args : List Text) (a b : Arguments) : Type 0 where
    pub at : (rest : List Text) → parse str2loglvl (args ++ rest) a ≡ parse str2loglvl rest b

  pub Reads-append :
      {a b c : Arguments} (xs ys : List Text) → Reads xs a b → Reads ys b c → Reads (xs ++ ys) a c
  Reads-append {a} xs ys h k = record {
    at = λ rest.
        ap (λ (l : List Text). parse str2loglvl l a) (append_assoc xs ys rest)
        ∙ h.at (ys ++ rest)
        ∙ k.at rest;
  }

  one_step :
      (curr : Text) (args rest : List Text) (a b : Arguments)
      → parse_one str2loglvl curr args a ≡ done (b, rest)
      → length rest ≤ length args
      → parse str2loglvl (curr ∷ args) a ≡ parse str2loglvl rest b
  unfolding parse parse_from
  one_step curr args rest a b e le =
      ap (λ o. and_then o (λ r. parse_from str2loglvl (length args) r.1 r.0)) e
      ∙ parse_from_enough str2loglvl (length args) rest b le

  two_steps :
      (name v : Text) (a b : Arguments)
      → ((rest : List Text) → parse_one str2loglvl name (v ∷ rest) a ≡ done (b, rest))
      → Reads (name ∷ v ∷ []) a b
  two_steps name v a b h = record {
    at = λ rest. one_step name (v ∷ rest) rest a b (h rest) (omega arith);
  }

  module _ (v : Text) (a : Arguments) where
    pub confname-Reads : Reads (str "--confname" ∷ v ∷ []) a (record a { confname = v })
    unfolding parse_one
    confname-Reads = two_steps _ v a _ (λ rest. refl)

    pub status-Reads : Reads (str "--status" ∷ v ∷ []) a (record a { status = v })
    unfolding parse_one
    status-Reads = two_steps _ v a _ (λ rest. refl)

    pub login-Reads : Reads (str "--login" ∷ v ∷ []) a (record a { login = v })
    unfolding parse_one
    login-Reads = two_steps _ v a _ (λ rest. refl)

    pub default_srv_dir-Reads :
        Reads (str "--default-dir" ∷ v ∷ []) a (record a { default_srv_dir = v })
    unfolding parse_one
    default_srv_dir-Reads = two_steps _ v a _ (λ rest. refl)

    pub domain-Reads : Reads (str "--domain" ∷ v ∷ []) a (record a { domain = v })
    unfolding parse_one
    domain-Reads = two_steps _ v a _ (λ rest. refl)

    pub address-Reads : Reads (str "--address" ∷ v ∷ []) a (record a { address = v })
    unfolding parse_one
    address-Reads = two_steps _ v a _ (λ rest. refl)

  one_word :
      (word : Text) (a b : Arguments)
      → ((rest : List Text) → parse_one str2loglvl word rest a ≡ done (b, rest))
      → Reads (word ∷ []) a b
  one_word word a b h = record { at = λ rest. one_step word rest rest a b (h rest) (omega arith) }

  no_word : (a b : Arguments) → a ≡ b → Reads [] a b
  no_word a b e = record { at = λ rest. ap (parse str2loglvl rest) e }

  -- A number of at most `max` is in range.
  in_range : (max n : ℕ) → n ≤ max → assert_arg_range max (pos n) ≡ done n
  unfolding assert_arg_range
  in_range max n le = ground arith

  module _ (n : ℕ) (a : Arguments) where
    pub port-Reads : n ≤ 65535 → Reads (str "--port" ∷ decimal n ∷ []) a (record a { port = n })
    unfolding parse_one
    port-Reads le = two_steps _ (decimal n) a _ (λ rest.
        rw (atoi-decimal n (omega (arith, le))) (rw (in_range 65535 n (omega (arith, le))) refl))

    pub default_port-Reads :
        n ≤ 65535 → Reads (str "--default-port" ∷ decimal n ∷ []) a (record a { default_port = n })
    unfolding parse_one
    default_port-Reads le = two_steps _ (decimal n) a _ (λ rest.
        rw (atoi-decimal n (omega (arith, le))) (rw (in_range 65535 n (omega (arith, le))) refl))

    pub max_packet_size-Reads :
        n ≤ 2147483647
        → Reads (str "--max-packet-size" ∷ decimal n ∷ []) a (record a { max_packet_size = n })
    unfolding parse_one
    max_packet_size-Reads le = two_steps _ (decimal n) a _ (λ rest.
        rw (atoi-decimal n (omega (arith, le)))
          (rw (in_range 2147483647 n (omega (arith, le))) refl))

    pub threads-Reads :
        n ≤ 2147483647 → Reads (str "--threads" ∷ decimal n ∷ []) a (record a { threads = n })
    unfolding parse_one
    threads-Reads le = two_steps _ (decimal n) a _ (λ rest.
        rw (atoi-decimal n (omega (arith, le)))
          (rw (in_range 4294967295 n (omega (arith, le))) refl))

  pub verb-Reads :
      (v : Text) (level : ℤ) (a : Arguments)
      → str2loglvl v ≡ done level
      → Reads (str "--verb" ∷ v ∷ []) a (record a { verb = level })
  unfolding parse_one
  verb-Reads v level a e = two_steps _ v a _ (λ rest. rw e refl)

  module _ (n : ℕ) (a : Arguments) where
    pub threads_words-Reads :
        a.threads ≡ 4294967295
        → (n ≤ 2147483647) ⊎ (n ≡ 4294967295)
        → Reads (threads_words n) a (record a { threads = n })
    threads_words-Reads initial (inl le) =
        let other : (n == 4294967295) ≡ false = ground (arith, le) in
        rw other (threads-Reads n a le)
    threads_words-Reads initial (inr e) =
        let same : (n == 4294967295) ≡ true = ground (arith, e) in
        rw same (no_word a _ (λ i. record a { threads = (initial ∙ sym e) i }))

  module _ (a : Arguments) where
    pub mcsman-Reads :
        (b : Bool) → a.mcsman ≡ false → Reads (flag b (str "--mcsman")) a (record a { mcsman = b })
    unfolding parse_one
    mcsman-Reads true off = one_word _ a _ (λ rest. refl)
    mcsman-Reads false off = no_word a _ (λ i. record a { mcsman = off i })

    pub install-Reads :
        (b : Bool)
        → a.install ≡ false
        → Reads (flag b (str "--install")) a (record a { install = b })
    unfolding parse_one
    install-Reads true off = one_word _ a _ (λ rest. refl)
    install-Reads false off = no_word a _ (λ i. record a { install = off i })

    pub distributed-Reads :
        (b : Bool)
        → a.distributed ≡ false
        → Reads (flag b (str "--distributed")) a (record a { distributed = b })
    unfolding parse_one
    distributed-Reads true off = one_word _ a _ (λ rest. refl)
    distributed-Reads false off = no_word a _ (λ i. record a { distributed = off i })

    pub version-Reads :
        (b : Bool)
        → a.version ≡ false
        → Reads (flag b (str "--version")) a (record a { version = b })
    unfolding parse_one
    version-Reads true off = one_word _ a _ (λ rest. refl)
    version-Reads false off = no_word a _ (λ i. record a { version = off i })

    pub help-Reads :
        (b : Bool) → a.help ≡ false → Reads (flag b (str "--help")) a (record a { help = b })
    unfolding parse_one
    help-Reads true off = one_word _ a _ (λ rest. refl)
    help-Reads false off = no_word a _ (λ i. record a { help = off i })

    pub cli-Reads :
        (b : Bool) → a.cli ≡ false → Reads (flag b (str "--cli")) a (record a { cli = b })
    unfolding parse_one
    cli-Reads true off = one_word _ a _ (λ rest. refl)
    cli-Reads false off = no_word a _ (λ i. record a { cli = off i })

    pub no_dns_cache-Reads :
        (b : Bool)
        → a.no_dns_cache ≡ false
        → Reads (flag b (str "--no-dns-cache")) a (record a { no_dns_cache = b })
    unfolding parse_one
    no_dns_cache-Reads true off = one_word _ a _ (λ rest. refl)
    no_dns_cache-Reads false off = no_word a _ (λ i. record a { no_dns_cache = off i })

  plain_word :
      (word : Text) (rest : List Text) (a : Arguments)
      → get_or word 0 0 ≢ b'-'
      → parse_one str2loglvl word rest a ≡ done (record a { other = a.other ++ word ∷ [] }, rest)
  unfolding parse_one
  plain_word [] rest a h = refl
  plain_word (c ∷ s) rest a h = let e : (c == b'-') ≡ false = ground arith in rw e refl

  pub words-Reads :
      (words : List Text) (a : Arguments)
      → AllPlain words
      → Reads words a (record a { other = a.other ++ words })
  words-Reads [] a h = no_word a _ (λ i. record a { other = sym (append-nil a.other) i })
  words-Reads (word ∷ more) a h =
      subst (λ l. Reads (word ∷ more) a (record a { other = l }))
        (append_assoc a.other (word ∷ []) more)
        (Reads-append (word ∷ []) more (one_word word a _ (λ rest. plain_word word rest a h.0))
          (words-Reads more (record a { other = a.other ++ word ∷ [] }) h.1))
