-- ===== src/HostsDb/Lasting.antt =====
-- An answer of the cache of name lookups lasts, whatever else is connected to.
use mcshub.Base.{
  ◌≡◌, refl, ℕ, Bool, true, false, some, List, [], ◌∷◌, Text, text_eq, text_eq_iff, Bool-cases,
  Option-cases, inl, inr,
}
use mcshub.Base.Map.{find, find-assign}
use mcshub.Exec.{Result, ok, err, crash, continue, ◌>>=◌}
use mcshub.Exec.Rules.{Keeps, Keeps-bind, Keeps-if, Keeps-crashed}
use mcshub.HostsDb.{remember, request_dns_cache, plain_name, connect}
use mcshub.HostsDb.Laws.{answered, found_again}
use mcshub.Platform.{Platform, System, in_world}

module _ (pf : Platform) where
  -- Connections one after another, each with its `cache`, host name and port, failed ones included.
  abbrev pub connects : List (Bool × Text × ℕ) → System pf → System pf
  connects [] s = s
  connects ((cache, hostname, port) ∷ calls) s = connects calls (connect pf cache hostname port s).1

  module _ (h : Text) (a : List pf.Endpoint) where
    abbrev Caches : System pf → Type 0
    Caches s = find h s.hosts_db ≡ some a

    stored :
        (n : Text) (r : Result (List pf.Endpoint)) (s : System pf)
        → text_eq n h ≡ false
        → Caches s
        → Caches (continue r (remember pf n) s).1
    unfolding remember ◌>>=◌
    stored n (ok b) s other e = rw (find-assign, other) e
    stored n (err x) s other e = e
    stored n crash s other e = e

    -- A request adds a name only where the cache has none.
    request_dns_cache-Caches : (n : Text) (p : ℕ) → Keeps Caches (request_dns_cache pf n p)
    unfolding request_dns_cache ◌>>=◌
    request_dns_cache-Caches n p = record {
      at = λ s e. elim (Option-cases (find n s.hosts_db)) [
        | inr (b, found) ↦ rw (found, request_dns_cache) e
        | inl missing ↦
            let other : text_eq n h ≡ false = elim (Bool-cases (text_eq n h)) [
              | inr o ↦ o
              | inl same ↦ let is = (text_eq_iff n h).0 same in absurd (cc (is, missing, e))
            ] in
            rw (missing, request_dns_cache) (stored n _ _ other e)
      ];
    }

    connect-Caches : (cache : Bool) (n : Text) (p : ℕ) → Keeps Caches (connect pf cache n p)
    unfolding connect
    connect-Caches cache [] p = Keeps-crashed
    connect-Caches cache (c ∷ s) p =
        Keeps-bind _ _
          (Keeps-if cache _ _ (request_dns_cache-Caches _ p) (record { at = λ t e. e }))
          (λ addresses. record { at = λ t e. e })

    connects-Caches :
        (calls : List (Bool × Text × ℕ)) (s : System pf) → Caches s → Caches (connects calls s)
    connects-Caches [] s e = e
    connects-Caches ((cache, n, p) ∷ calls) s e =
        connects-Caches calls _ ((connect-Caches cache n p).at s e)

    cached_connect :
        (c : ℕ) (name : Text) (q : ℕ) (s : System pf)
        → plain_name pf (c ∷ name) ≡ h
        → Caches s
        → connect pf true (c ∷ name) q s ≡ in_world pf (pf.open_backend a) s
    unfolding connect ◌>>=◌
    cached_connect c name q s e found = rw (e, found_again pf h q a s found) refl

  -- Once a request for a host name is answered, every cached connection to it, by a name that is the
  -- same without its final dot, opens a socket to the addresses of that answer and asks for no name,
  -- whatever the ports and whatever connections came in between.
  pub connect-connects :
      (h : Text) (p : ℕ) (s : System pf) (a : List pf.Endpoint) (calls : List (Bool × Text × ℕ))
      → (request_dns_cache pf h p s).0 ≡ ok a
      → (c : ℕ) (name : Text) (q : ℕ) → plain_name pf (c ∷ name) ≡ h
      → connect pf true (c ∷ name) q (connects calls (request_dns_cache pf h p s).1)
        ≡ in_world pf (pf.open_backend a) (connects calls (request_dns_cache pf h p s).1)
  connect-connects h p s a calls got c name q e =
      cached_connect h a c name q _ e (connects-Caches h a calls _ (answered pf h p s a got))
