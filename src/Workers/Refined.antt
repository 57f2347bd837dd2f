-- ===== src/Workers/Refined.antt =====
-- What a worker promises: its clients are a map from places to clients. The list that keeps them, with
-- its order, is how the code does it.
use mathlib.Core.Path.{fun_ext}
use mcshub.Base.{
  ◌≡◌, refl, ℕ, ◌+◌, Bool, true, false, Option, none, some, List, [], ◌∷◌, if◌then◌else◌, ◌==◌,
  Bool-cases, inl, inr,
}
use mcshub.Exec.{Exec, Result, ok, err, crash, system_error, other_exception, throw, skip, ◌>>=◌}
use mcshub.Portal.Events.{Actions}
use mcshub.Workers.{
  Parts, Worker, Ready, accepted, ready, woken, notified, client_at, noop, stop_event,
  disconnect_all, on_accept, settle, after_event, on_client, after_wake, on_woken, stop_now,
  on_note, on_event, on_ready,
}
use mcshub.Workers.Clients.{with_rest_lem}
use mcshub.Workers.Places.{Numbered, put_same, erase_same}

-- The worker as its promise sees it.
pub record Service (pt : Parts) : Type 0 where
  pub at : ℕ → Option pt.Client
  pub next : ℕ
  pub events : pt.Channel
  pub working : Bool

abbrev pub view : {pt : Parts} → Worker pt → Service pt
view w = record {
  at = λ i. client_at i w.clients;
  next = w.next;
  events = w.events;
  working = w.working;
}

module _ (pt : Parts) where
  abbrev pub told : Option pt.Client → Option pt.Client
  told none = none
  told (some c) = some (pt.on_disconnect c).1

  -- The handlers of the clients that are told to disconnect return.
  abbrev pub Calm : List (ℕ × pt.Client) → Type 0
  Calm [] = Unit {0}
  Calm ((i, c) ∷ more) = ((pt.on_disconnect c).0 ≡ ok tt) × Calm more

  abbrev told_all : List (ℕ × pt.Client) → List (ℕ × pt.Client)
  told_all [] = []
  told_all ((i, c) ∷ more) = (i, (pt.on_disconnect c).1) ∷ told_all more

  Calm-disconnect_all :
      (l : List (ℕ × pt.Client)) → Calm l → disconnect_all pt l ≡ (ok tt, told_all l)
  unfolding disconnect_all
  Calm-disconnect_all [] h = refl
  Calm-disconnect_all ((i, c) ∷ more) h =
      rw (Calm-disconnect_all more h.1)
        (with_rest_lem i (pt.on_disconnect c) (told_all more) more h.0)

  client_at-told_all :
      (j : ℕ) (l : List (ℕ × pt.Client)) → client_at j (told_all l) ≡ told (client_at j l)
  unfolding client_at
  client_at-told_all j [] = refl
  client_at-told_all j ((i, c) ∷ more) = elim (Bool-cases (i == j)) [
    | inl e ↦ rw e refl
    | inr e ↦ rw e (client_at-told_all j more)
  ]

module _ {pt : Parts} where
  abbrev pub update : ℕ → Option pt.Client → Service pt → Service pt
  update i o s = record s { at = λ j. if i == j then o else s.at j }

  -- A new client gets the next place, also where it cannot be registered.
  abbrev pub spec_accept : Option (pt.Client × Bool) → Exec (Service pt) (Unit {0})
  spec_accept none s = (err system_error, s)
  spec_accept (some (c, registered)) s = (
    if registered then ok tt else err system_error,
    record (update s.next (some c) s) { next = s.next + 1 },
  )

  abbrev pub spec_settle : ℕ → pt.Client → Bool → Bool → Exec (Service pt) (Unit {0})
  spec_settle i c false known s = (ok tt, update i (some c) s)
  spec_settle i c true true s = (ok tt, update i none s)
  spec_settle i c true false s = (err system_error, update i (some c) s)

  abbrev pub spec_after : ℕ → Bool → Result (Unit {0}) × pt.Client → Exec (Service pt) (Unit {0})
  spec_after i known (ok _, c) s = spec_settle i c (pt.is_disconnected c) known s
  spec_after i known (err e, c) s = (err e, update i (some c) s)
  spec_after i known (crash, c) s = (crash, update i (some c) s)

  abbrev pub spec_client : ℕ → Actions → Bool → Option pt.Client → Exec (Service pt) (Unit {0})
  spec_client i e known none s = (ok tt, s)
  spec_client i e known (some c) s = spec_after i known (pt.on_from_event e c) s

  -- A client's own handler changes that client, and is undefined where the client is gone.
  abbrev pub spec_woken : ℕ → pt.Wake → Option pt.Client → Exec (Service pt) (Unit {0})
  spec_woken i wake none s = (crash, s)
  spec_woken i wake (some c) s = ((pt.on_wake wake c).0, update i (some (pt.on_wake wake c).1) s)

  -- The number 1 stops the worker and tells every client; 0 is nothing, and any other number an error.
  abbrev pub spec_note : ℕ → Exec (Service pt) (Unit {0})
  spec_note n s =
      if n == noop
      then (ok tt, s)
      else if n == stop_event
      then (ok tt, record s { at = λ j. told pt (s.at j); working = false })
      else (err other_exception, s)

  abbrev pub spec : Ready pt → Exec (Service pt) (Unit {0})
  spec (accepted a) s = spec_accept a s
  spec (ready i e known) s = spec_client i e known (s.at i) s
  spec (woken i wake) s = spec_woken i wake (s.at i) s
  spec (notified false) s = (ok tt, s)
  spec (notified true) s =
      spec_note (pt.read s.events).0 (record s { events = (pt.read s.events).1 })

  -- `out` is what `promised` says.
  abbrev pub Implements : Result (Unit {0}) × Service pt → Result (Unit {0}) × Worker pt → Type 0
  Implements promised out = (out.0 ≡ promised.0) × (view out.1 ≡ promised.1)

  same_places :
      (w : Worker pt) (l : List (ℕ × pt.Client)) (f : ℕ → Option pt.Client)
      → ((j : ℕ) → client_at j l ≡ f j)
      → view (record w { clients = l }) ≡ record (view w) { at = f }
  same_places w l f h = λ i. record (view w) { at = fun_ext h i }

  settle-Implements :
      (i : ℕ) (b c : pt.Client) (d known : Bool) (w : Worker pt)
      → Numbered w.next w.clients
      → client_at i w.clients ≡ some b
      → Implements (spec_settle i c d known (view w)) (settle i c d known w)
  unfolding settle
  settle-Implements i b c false known w n h =
      (refl, same_places w _ _ (λ j. put_same i j b c w.clients h))
  settle-Implements i b c true true w n h =
      (refl, same_places w _ _ (λ j. erase_same w.next i j w.clients n))
  settle-Implements i b c true false w n h =
      (refl, same_places w _ _ (λ j. put_same i j b c w.clients h))

  after-Implements :
      (i : ℕ) (b : pt.Client) (known : Bool) (out : Result (Unit {0}) × pt.Client) (w : Worker pt)
      → Numbered w.next w.clients
      → client_at i w.clients ≡ some b
      → Implements (spec_after i known out (view w)) (after_event i known out w)
  unfolding after_event
  after-Implements i b known (ok _, c) w n h =
      settle-Implements i b c (pt.is_disconnected c) known w n h
  after-Implements i b known (err e, c) w n h =
      (refl, same_places w _ _ (λ j. put_same i j b c w.clients h))
  after-Implements i b known (crash, c) w n h =
      (refl, same_places w _ _ (λ j. put_same i j b c w.clients h))

  client-Implements :
      (i : ℕ) (e : Actions) (known : Bool) (w : Worker pt)
      → Numbered w.next w.clients
      → Implements (spec_client i e known (client_at i w.clients) (view w)) (on_client i e known w)
  unfolding on_client
  client-Implements i e known w n = found (client_at i w.clients) refl
    where
      found :
          (o : Option pt.Client)
          → client_at i w.clients ≡ o
          → Implements
              (spec_client i e known o (view w))
              (elim o as (λ x. Result (Unit {0}) × Worker pt) [
                | none ↦ (ok tt, w)
                | some client ↦ after_event i known (pt.on_from_event e client) w
              ])
      found none h = (refl, refl)
      found (some c) h = after-Implements i c known (pt.on_from_event e c) w n h

  woken-Implements :
      (i : ℕ) (wake : pt.Wake) (w : Worker pt)
      → Implements (spec_woken i wake (client_at i w.clients) (view w)) (on_woken i wake w)
  unfolding on_woken after_wake
  woken-Implements i wake w = found (client_at i w.clients) refl
    where
      found :
          (o : Option pt.Client)
          → client_at i w.clients ≡ o
          → Implements
              (spec_woken i wake o (view w))
              (elim o as (λ x. Result (Unit {0}) × Worker pt) [
                | none ↦ (crash, w)
                | some client ↦ after_wake i (pt.on_wake wake client) w
              ])
      found none h = (refl, refl)
      found (some c) h =
          (refl, same_places w _ _ (λ j. put_same i j c (pt.on_wake wake c).1 w.clients h))

  accept-Implements :
      (a : Option (pt.Client × Bool)) (w : Worker pt)
      → Implements (spec_accept a (view w)) (on_accept a w)
  unfolding on_accept client_at ◌>>=◌
  accept-Implements none w = (refl, refl)
  accept-Implements (some (c, true)) w = (refl, refl)
  accept-Implements (some (c, false)) w = (refl, refl)

  note-Implements :
      (n : ℕ) (w : Worker pt) → Calm pt w.clients → Implements (spec_note n (view w)) (on_note n w)
  unfolding on_note stop_now skip throw
  note-Implements n w calm = elim (Bool-cases (n == noop)) [
    | inl e ↦ rw e (refl, refl)
    | inr e ↦ elim (Bool-cases (n == stop_event)) [
      | inr e' ↦ rw (e, e') (refl, refl)
      | inl e' ↦
          rw (e, e', Calm-disconnect_all pt w.clients calm)
            (
              refl,
              same_places (record w { working = false }) (told_all pt w.clients) _
                  (λ j. client_at-told_all pt j w.clients),
            )
    ]
  ]

  -- Each handler of a worker does to the map of its clients what the promise says, and returns or throws
  -- as it says, if the places are numbered as they always are and, where the worker is stopped, its
  -- clients' handlers return.
  pub on_ready-Implements :
      (r : Ready pt) (w : Worker pt)
      → Numbered w.next w.clients
      → Calm pt w.clients
      → Implements (spec r (view w)) (on_ready r w)
  unfolding on_ready on_event
  on_ready-Implements (accepted a) w n calm = accept-Implements a w
  on_ready-Implements (ready i e known) w n calm = client-Implements i e known w n
  on_ready-Implements (woken i wake) w n calm = woken-Implements i wake w
  on_ready-Implements (notified false) w n calm = (refl, refl)
  on_ready-Implements (notified true) w n calm =
      note-Implements (pt.read w.events).0 (record w { events = (pt.read w.events).1 }) calm
