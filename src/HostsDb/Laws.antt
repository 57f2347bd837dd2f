-- ===== src/HostsDb/Laws.antt =====
-- What the cache of name lookups answers.
use mcshub.Base.{◌≡◌, ◌∙◌, ℕ, some, List, Text, text_eq_refl, Option-cases, inl, inr}
use mcshub.Base.Map.{Map, find, assign, find-assign}
use mcshub.Exec.{Result, ok, err, crash, continue, ◌>>=◌}
use mcshub.HostsDb.{remember, request_dns_cache}
use mcshub.Platform.{Platform, System}

module _ (pf : Platform) where
  pub found_again :
      (h : Text) (q : ℕ) (a : List pf.Endpoint) (s : System pf)
      → find h s.hosts_db ≡ some a
      → request_dns_cache pf h q s ≡ (ok a, s)
  unfolding request_dns_cache
  found_again h q a s e = rw (e, request_dns_cache)

  found_stored :
      (h : Text) (a : List pf.Endpoint) (m : Map (List pf.Endpoint))
      → find h (assign h a m) ≡ some a
  found_stored h a m = rw (find-assign, text_eq_refl)

  looked_up :
      (h : Text) (r : Result (List pf.Endpoint)) (s : System pf) (a : List pf.Endpoint)
      → (continue r (remember pf h) s).0 ≡ ok a
      → find h (continue r (remember pf h) s).1.hosts_db ≡ some a
  unfolding remember ◌>>=◌
  looked_up h (ok b) s a e = found_stored h b s.hosts_db ∙ stored b a e
    where
      stored : (b a : List pf.Endpoint) → ok b ≡ ok a → some b ≡ some a
      stored b a e = cc e
  looked_up h (err x) s a e = cc
  looked_up h crash s a e = cc

  pub answered :
      (h : Text) (p : ℕ) (s : System pf) (a : List pf.Endpoint)
      → (request_dns_cache pf h p s).0 ≡ ok a
      → find h (request_dns_cache pf h p s).1.hosts_db ≡ some a
  unfolding request_dns_cache ◌>>=◌
  answered h p s a = elim (Option-cases (find h s.hosts_db)) [
    | inl missing ↦ rw (missing, request_dns_cache) (looked_up h _ _ a)
    | inr (b, cached) ↦ rw (cached, request_dns_cache) (known b a cached)
  ]
    where
      known :
          (b a : List pf.Endpoint)
          → find h s.hosts_db ≡ some b
          → ok b ≡ ok a
          → find h s.hosts_db ≡ some a
      known b a c e = cc (c, e)

  -- Once a request for a host name is answered, a request for the same name gets the same answer
  -- and changes nothing, whatever port either of them asks for.
  pub request_dns_cache-twice :
      (h : Text) (p q : ℕ) (s : System pf) (a : List pf.Endpoint)
      → (request_dns_cache pf h p s).0 ≡ ok a
      → request_dns_cache pf h q (request_dns_cache pf h p s).1
        ≡ (ok a, (request_dns_cache pf h p s).1)
  request_dns_cache-twice h p q s a e = found_again h q a _ (answered h p s a e)
