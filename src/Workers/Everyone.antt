-- ===== src/Workers/Everyone.antt =====
-- What every client of a worker keeps, whatever the worker does.
use mcshub.Base.{
  some_inj, ◌≡◌, refl, sym, ap, subst, ◌∙◌, ℕ, Bool, true, false, Option, none, some, List, [], ◌∷◌,
  if◌then◌else◌, ◌==◌, Bool-cases, inl, inr,
}
use mcshub.Exec.{Result, ok, err, crash}
use mcshub.Exec.Rules.{Keeps, Keeps-throw, Keeps-modify, Keeps-skip, Keeps-if, Keeps-bind}
use mcshub.Portal.Events.{Actions}
use mcshub.Workers.{
  Parts, Worker, Ready, accepted, ready, woken, notified, client_at, put, erase_at, with_rest, noop,
  stop_event, disconnect_all, on_accept, settle, after_event, on_client, after_wake, on_woken,
  stop_now, on_note, on_event, on_ready, wait, resume, job,
}

module _ {C : Type 0} (P : C → Type 0) where
  abbrev pub Everyone : List (ℕ × C) → Type 0
  Everyone [] = Unit {0}
  Everyone ((i, c) ∷ more) = P c × Everyone more

  put-Everyone : (i : ℕ) (c : C) (l : List (ℕ × C)) → P c → Everyone l → Everyone (put i c l)
  unfolding put
  put-Everyone i c [] p h = tt
  put-Everyone i c ((j, d) ∷ more) p h = elim (Bool-cases (j == i)) [
    | inl e ↦ rw e (p, h.1)
    | inr e ↦ rw e (h.0, put-Everyone i c more p h.1)
  ]

  erase-Everyone : (i : ℕ) (l : List (ℕ × C)) → Everyone l → Everyone (erase_at i l)
  unfolding erase_at
  erase-Everyone i [] h = tt
  erase-Everyone i ((j, d) ∷ more) h = elim (Bool-cases (j == i)) [
    | inl e ↦ rw e h.1
    | inr e ↦ rw e (h.0, erase-Everyone i more h.1)
  ]

  client_at-Everyone :
      (i : ℕ) (c : C) (l : List (ℕ × C)) → client_at i l ≡ some c → Everyone l → P c
  unfolding client_at
  client_at-Everyone i c [] e h = absurd (cc)
  client_at-Everyone i c ((j, d) ∷ more) e h = elim (Bool-cases (j == i)) [
    | inl same ↦ subst P (some_inj (sym (at_test same) ∙ e)) h.0
    | inr other ↦ client_at-Everyone i c more (sym (at_test other) ∙ e) h.1
  ]
    where
      at_test :
          {b : Bool}
          → (j == i) ≡ b
          → (if j == i then some d else client_at i more) ≡ (if b then some d else client_at i more)
      at_test q = ap (λ (b : Bool). if b then some d else client_at i more) q

  with_rest-Everyone :
      (i : ℕ) (m : Result (Unit {0}) × C) (out : Result (Unit {0}) × List (ℕ × C))
      (more : List (ℕ × C))
      → P m.1
      → Everyone more
      → Everyone out.1
      → Everyone (with_rest i m out more).1
  unfolding with_rest
  with_rest-Everyone i (ok _, c) (r, rest) more p h k = (p, k)
  with_rest-Everyone i (err e, c) out more p h k = (p, h)
  with_rest-Everyone i (crash, c) out more p h k = (p, h)

-- Every handler of a client keeps `P`.
pub record IsKept (pt : Parts) (P : pt.Client → Type 0) : Type 0 where
  pub event : (e : Actions) → Keeps P (pt.on_from_event e)
  pub wake : (x : pt.Wake) → Keeps P (pt.on_wake x)
  pub stop : Keeps P pt.on_disconnect

module _ {pt : Parts} (P : pt.Client → Type 0) where
  abbrev pub Arriving : Ready pt → Type 0
  Arriving (accepted (some (c, registered))) = P c
  Arriving _ = Unit {0}

  -- The clients that the waits accept have `P`.
  abbrev pub AllArriving : List (Ready pt) → Type 0
  AllArriving [] = Unit {0}
  AllArriving (r ∷ more) = Arriving r × AllArriving more

  abbrev pub EachArriving : List (List (Ready pt)) → Type 0
  EachArriving [] = Unit {0}
  EachArriving (batch ∷ more) = AllArriving batch × EachArriving more

  abbrev AllHave : Worker pt → Type 0
  AllHave w = Everyone P w.clients

  module _ (kept : IsKept pt P) where
    disconnect_all-Everyone :
        (l : List (ℕ × pt.Client)) → Everyone P l → Everyone P (disconnect_all pt l).1
    unfolding disconnect_all
    disconnect_all-Everyone [] h = tt
    disconnect_all-Everyone ((i, c) ∷ more) h =
        with_rest-Everyone P i (pt.on_disconnect c) (disconnect_all pt more) more
          (kept.stop.at c h.0) h.1 (disconnect_all-Everyone more h.1)

    on_accept-Everyone :
        (a : Option (pt.Client × Bool)) → Arriving (accepted a) → Keeps AllHave (on_accept a)
    unfolding on_accept
    on_accept-Everyone none p = Keeps-throw _
    on_accept-Everyone (some (c, registered)) p =
        Keeps-bind _ _ (Keeps-modify _ (λ w h. (p, h)))
          λ _. Keeps-if _ _ _ Keeps-skip (Keeps-throw _)

    settle-Everyone :
        (i : ℕ) (c : pt.Client) (b known : Bool) → P c → Keeps AllHave (settle i c b known)
    unfolding settle
    settle-Everyone i c false known p = record { at = λ w h. put-Everyone P i c w.clients p h }
    settle-Everyone i c true true p = record { at = λ w h. erase-Everyone P i w.clients h }
    settle-Everyone i c true false p = record { at = λ w h. put-Everyone P i c w.clients p h }

    after-Everyone :
        (i : ℕ) (known : Bool) (out : Result (Unit {0}) × pt.Client)
        → P out.1
        → Keeps AllHave (after_event i known out)
    unfolding after_event
    after-Everyone i known (crash, c) p = record { at = λ w h. put-Everyone P i c w.clients p h }
    after-Everyone i known (err e, c) p = record { at = λ w h. put-Everyone P i c w.clients p h }
    after-Everyone i known (ok _, c) p = settle-Everyone i c (pt.is_disconnected c) known p

    on_client-Everyone : (i : ℕ) (e : Actions) (known : Bool) → Keeps AllHave (on_client i e known)
    unfolding on_client
    on_client-Everyone i e known = record { at = λ w h. found (client_at i w.clients) w refl h }
      where
        found :
            (o : Option pt.Client) (w : Worker pt)
            → client_at i w.clients ≡ o
            → AllHave w
            → AllHave
                (elim o as (λ x. Result (Unit {0}) × Worker pt) [
                  | none ↦ (ok tt, w)
                  | some client ↦ after_event i known (pt.on_from_event e client) w
                ]).1
        found none w at h = h
        found (some c) w at h =
            (after-Everyone i known (pt.on_from_event e c)
                ((kept.event e).at c (client_at-Everyone P i c w.clients at h))).at
              w h

    on_woken-Everyone : (i : ℕ) (x : pt.Wake) → Keeps AllHave (on_woken i x)
    unfolding on_woken after_wake
    on_woken-Everyone i x = record { at = λ w h. found (client_at i w.clients) w refl h }
      where
        found :
            (o : Option pt.Client) (w : Worker pt)
            → client_at i w.clients ≡ o
            → AllHave w
            → AllHave
                (elim o as (λ x. Result (Unit {0}) × Worker pt) [
                  | none ↦ (crash, w)
                  | some client ↦ after_wake i (pt.on_wake x client) w
                ]).1
        found none w at h = h
        found (some c) w at h =
            put-Everyone P i (pt.on_wake x c).1 w.clients
              ((kept.wake x).at c (client_at-Everyone P i c w.clients at h)) h

    on_note-Everyone : (n : ℕ) → Keeps AllHave (on_note n)
    unfolding on_note stop_now
    on_note-Everyone n = Keeps-if (n == noop) _ _ Keeps-skip (
        Keeps-if (n == stop_event) _ _ (record { at = λ w h. disconnect_all-Everyone w.clients h })
          (Keeps-throw _))

    on_ready-Everyone : (r : Ready pt) → Arriving r → Keeps AllHave (on_ready r)
    unfolding on_ready on_event
    on_ready-Everyone (accepted a) p = on_accept-Everyone a p
    on_ready-Everyone (ready i e known) p = on_client-Everyone i e known
    on_ready-Everyone (woken i x) p = on_woken-Everyone i x
    on_ready-Everyone (notified false) p = record { at = λ w h. h }
    on_ready-Everyone (notified true) p = record {
      at = λ w h.
          (on_note-Everyone (pt.read w.events).0).at (record w { events = (pt.read w.events).1 }) h;
    }

    wait-Everyone : (batch : List (Ready pt)) → AllArriving batch → Keeps AllHave (wait batch)
    unfolding wait
    wait-Everyone [] p = Keeps-skip
    wait-Everyone (r ∷ more) p =
        Keeps-bind _ _ (on_ready-Everyone r p.0) λ _. wait-Everyone more p.1

    resume-Everyone :
        (rest : Worker pt → Result Bool × Worker pt) (out : Result (Unit {0}) × Worker pt)
        → ((w : Worker pt) → AllHave w → AllHave (rest w).1)
        → AllHave out.1
        → AllHave (resume rest out).1
    resume-Everyone rest (ok _, w) h k = h w k
    resume-Everyone rest (err e, w) h k = h w k
    resume-Everyone rest (crash, w) h k = k

    if-Everyone :
        (b : Bool) (x y : Result Bool × Worker pt)
        → AllHave x.1
        → AllHave y.1
        → AllHave (if b then x else y).1
    if-Everyone true x y h k = h
    if-Everyone false x y h k = k

    -- What every handler of a client keeps and every new client has, all clients of a worker have after
    -- any run.
    pub job-Everyone :
        (batches : List (List (Ready pt))) (w : Worker pt)
        → EachArriving batches
        → Everyone P w.clients
        → Everyone P (job batches w).1.clients
    unfolding job
    job-Everyone [] w p h = if-Everyone w.working _ _ h h
    job-Everyone (batch ∷ more) w p h =
        if-Everyone w.working _ _
          (resume-Everyone (job more) (wait batch w) (λ v k. job-Everyone more v p.1 k)
            ((wait-Everyone batch p.0).at w h))
          h
