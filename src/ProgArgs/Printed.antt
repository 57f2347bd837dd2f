-- ===== src/ProgArgs/Printed.antt =====
-- A command line for given arguments, and that it is read back.
use mcshub.Base.{
  ◌≡◌, ◌∙◌, refl, sym, ap, ◌≤◌, ◌⊎◌, false, List, [], ◌∷◌, ◌++◌, append-nil, ℤ, Text, str,
}
use mcshub.ProgArgs.{Arguments, initial_arguments}
use mcshub.ProgArgs.Decimal.{decimal}
use mcshub.ProgArgs.Options.{Outcome, done, parse_from, parse}
use mcshub.ProgArgs.Reading

-- The options with a value, the number of threads only where one is given, then those without one, then all other words.
abbrev pub print_arguments : (ℤ → Text) → Arguments → List Text
print_arguments level_text a =
    (str "--confname" ∷ a.confname ∷ [])
    ++ ((str "--status" ∷ a.status ∷ [])
        ++ ((str "--login" ∷ a.login ∷ [])
            ++ ((str "--default-dir" ∷ a.default_srv_dir ∷ [])
                ++ ((str "--domain" ∷ a.domain ∷ [])
                    ++ ((str "--address" ∷ a.address ∷ [])
                        ++ ((str "--port" ∷ decimal a.port ∷ [])
                            ++ ((str "--default-port" ∷ decimal a.default_port ∷ [])
                                ++ ((str "--max-packet-size" ∷ decimal a.max_packet_size ∷ [])
                                    ++ (Reading.threads_words a.threads
                                        ++ ((str "--verb" ∷ level_text a.verb ∷ [])
                                            ++ (Reading.flag a.mcsman (str "--mcsman")
                                                ++ (Reading.flag a.install (str "--install")
                                                    ++ (Reading.flag a.distributed
                                                          (str "--distributed")
                                                        ++ (Reading.flag a.version (str "--version")
                                                            ++ (Reading.flag a.help (str "--help")
                                                            ++ (Reading.flag a.cli (str "--cli")
                                                            ++ (Reading.flag a.no_dns_cache
                                                            (str "--no-dns-cache")
                                                            ++ a.other)))))))))))))))))

-- The ports are of 16 bits and the other numbers of 31, but for the number of threads where none is
-- given; no other word starts with a dash, and `drop`
-- and `timeout`, which no command line sets, are as they are at the beginning.
pub record IsPrintable (a : Arguments) : Type 0 where
  pub port : a.port ≤ 65535
  pub default_port : a.default_port ≤ 65535
  pub max_packet_size : a.max_packet_size ≤ 2147483647
  pub threads : (a.threads ≤ 2147483647) ⊎ (a.threads ≡ 4294967295)
  pub drop : a.drop ≡ false
  pub timeout : a.timeout ≡ 500
  pub other : Reading.AllPlain a.other

module _ (str2loglvl : Text → Outcome ℤ) where
  all_read :
      (level_text : ℤ → Text) (info : ℤ) (a : Arguments)
      → str2loglvl (level_text a.verb) ≡ done a.verb
      → IsPrintable a
      → Reading.Reads str2loglvl
          (print_arguments level_text a)
          (initial_arguments info)
          (record a { drop = false; timeout = 500 })
  unfolding initial_arguments
  all_read level_text info a level p =
      Reading.Reads-append str2loglvl _ _ (Reading.confname-Reads str2loglvl a.confname _) (
        Reading.Reads-append str2loglvl _ _ (Reading.status-Reads str2loglvl a.status _) (
          Reading.Reads-append str2loglvl _ _ (Reading.login-Reads str2loglvl a.login _) (
            Reading.Reads-append str2loglvl _ _
              (Reading.default_srv_dir-Reads str2loglvl a.default_srv_dir _)
              (Reading.Reads-append str2loglvl _ _ (Reading.domain-Reads str2loglvl a.domain _) (
                Reading.Reads-append str2loglvl _ _ (Reading.address-Reads str2loglvl a.address _) (
                  Reading.Reads-append str2loglvl _ _
                    (Reading.port-Reads str2loglvl a.port _ p.port)
                    (Reading.Reads-append str2loglvl _ _
                      (Reading.default_port-Reads str2loglvl a.default_port _ p.default_port)
                      (Reading.Reads-append str2loglvl _ _
                        (Reading.max_packet_size-Reads str2loglvl a.max_packet_size _
                          p.max_packet_size)
                        (Reading.Reads-append str2loglvl _ _
                          (Reading.threads_words-Reads str2loglvl a.threads _ (refl) p.threads)
                          (Reading.Reads-append str2loglvl _ _
                            (Reading.verb-Reads str2loglvl (level_text a.verb) a.verb _ level)
                            (Reading.Reads-append str2loglvl _ _
                              (Reading.mcsman-Reads str2loglvl _ a.mcsman (refl))
                              (Reading.Reads-append str2loglvl _ _
                                (Reading.install-Reads str2loglvl _ a.install (refl))
                                (Reading.Reads-append str2loglvl _ _
                                  (Reading.distributed-Reads str2loglvl _ a.distributed (refl))
                                  (Reading.Reads-append str2loglvl _ _
                                    (Reading.version-Reads str2loglvl _ a.version (refl))
                                    (Reading.Reads-append str2loglvl _ _
                                      (Reading.help-Reads str2loglvl _ a.help (refl))
                                      (Reading.Reads-append str2loglvl _ _
                                        (Reading.cli-Reads str2loglvl _ a.cli (refl))
                                        (Reading.Reads-append str2loglvl _ _
                                          (Reading.no_dns_cache-Reads str2loglvl _ a.no_dns_cache
                                            (refl))
                                          (Reading.words-Reads str2loglvl a.other _
                                            p.other))))))))))))))))))

  -- Arguments whose ports are of 16 bits, whose other numbers are of 31 (or whose number of threads is
  -- the one that stands for none given), whose other words start with no dash, whose `drop` and
  -- `timeout` are the initial ones, and whose level the library reads by its name, are read back from
  -- the command line that they are written as.
  pub parse-print_arguments :
      (level_text : ℤ → Text) (info : ℤ) (a : Arguments)
      → str2loglvl (level_text a.verb) ≡ done a.verb
      → IsPrintable a
      → parse str2loglvl (print_arguments level_text a) (initial_arguments info) ≡ done a
  unfolding parse parse_from
  parse-print_arguments level_text info a level p =
      ap (λ (l : List Text). parse str2loglvl l (initial_arguments info))
        (sym (append-nil (print_arguments level_text a)))
      ∙ (all_read level_text info a level p).at []
      ∙ (λ i. done (record a { drop = sym p.drop i; timeout = sym p.timeout i }))
