-- ===== src/Workers/Numbering.antt =====
-- The places of a worker's clients, over a run of the worker.
use mcshub.Base.{
  arith, ℕ, Bool, true, false, Option, none, some, List, [], ◌∷◌, if◌then◌else◌, ◌==◌,
}
use mcshub.Exec.{Result, ok, err, crash}
use mcshub.Exec.Rules.{Keeps, Keeps-throw, Keeps-modify, Keeps-skip, Keeps-if, Keeps-bind}
use mcshub.Portal.Events.{Actions}
use mcshub.Workers.{
  Parts, Worker, Ready, accepted, ready, woken, notified, client_at, noop, stop_event,
  disconnect_all, on_accept, settle, after_event, on_client, after_wake, on_woken, stop_now,
  on_note, on_event, on_ready, wait, resume, job,
}
use mcshub.Workers.Places.{Numbered, put-Numbered, erase-Numbered, with_rest-Numbered}

module _ (pt : Parts) where
  disconnect_all-Numbered :
      (n : ℕ) (l : List (ℕ × pt.Client)) → Numbered n l → Numbered n (disconnect_all pt l).1
  unfolding disconnect_all
  disconnect_all-Numbered n [] h = tt
  disconnect_all-Numbered n ((i, c) ∷ more) h =
      with_rest-Numbered n i (pt.on_disconnect c) (disconnect_all pt more) more h.0 h.1
        (disconnect_all-Numbered i more h.1)

module _ {pt : Parts} where
  abbrev IsNumbered : Worker pt → Type 0
  IsNumbered w = Numbered w.next w.clients

  on_accept-Numbered : (a : Option (pt.Client × Bool)) → Keeps IsNumbered (on_accept a)
  unfolding on_accept
  on_accept-Numbered none = Keeps-throw _
  on_accept-Numbered (some (c, registered)) =
      Keeps-bind _ _ (Keeps-modify _ (λ w h. (omega arith, h)))
        λ _. Keeps-if _ _ _ Keeps-skip (Keeps-throw _)

  settle-Numbered : (i : ℕ) (c : pt.Client) (b known : Bool) → Keeps IsNumbered (settle i c b known)
  unfolding settle
  settle-Numbered i c false known = record { at = λ w h. put-Numbered w.next i c w.clients h }
  settle-Numbered i c true true = record { at = λ w h. erase-Numbered w.next i w.clients h }
  settle-Numbered i c true false = record { at = λ w h. put-Numbered w.next i c w.clients h }

  after-Numbered :
      (i : ℕ) (known : Bool) (out : Result (Unit {0}) × pt.Client)
      → Keeps IsNumbered (after_event i known out)
  unfolding after_event
  after-Numbered i known (crash, c) = record { at = λ w h. put-Numbered w.next i c w.clients h }
  after-Numbered i known (err e, c) = record { at = λ w h. put-Numbered w.next i c w.clients h }
  after-Numbered i known (ok _, c) = settle-Numbered i c (pt.is_disconnected c) known

  on_client-Numbered : (i : ℕ) (e : Actions) (known : Bool) → Keeps IsNumbered (on_client i e known)
  unfolding on_client
  on_client-Numbered i e known = record { at = λ w h. found (client_at i w.clients) w h }
    where
      found :
          (o : Option pt.Client) (w : Worker pt)
          → IsNumbered w
          → IsNumbered
              (elim o as (λ x. Result (Unit {0}) × Worker pt) [
                | none ↦ (ok tt, w)
                | some client ↦ after_event i known (pt.on_from_event e client) w
              ]).1
      found none w h = h
      found (some client) w h = (after-Numbered i known (pt.on_from_event e client)).at w h

  on_woken-Numbered : (i : ℕ) (wake : pt.Wake) → Keeps IsNumbered (on_woken i wake)
  unfolding on_woken after_wake
  on_woken-Numbered i wake = record { at = λ w h. found (client_at i w.clients) w h }
    where
      found :
          (o : Option pt.Client) (w : Worker pt)
          → IsNumbered w
          → IsNumbered
              (elim o as (λ x. Result (Unit {0}) × Worker pt) [
                | none ↦ (crash, w)
                | some client ↦ after_wake i (pt.on_wake wake client) w
              ]).1
      found none w h = h
      found (some client) w h = put-Numbered w.next i (pt.on_wake wake client).1 w.clients h

  on_note-Numbered : (n : ℕ) → Keeps IsNumbered (on_note n)
  unfolding on_note stop_now
  on_note-Numbered n = Keeps-if (n == noop) _ _ Keeps-skip (
      Keeps-if (n == stop_event) _ _
        (record { at = λ w h. disconnect_all-Numbered pt w.next w.clients h }) (Keeps-throw _))

  on_ready-Numbered : (r : Ready pt) → Keeps IsNumbered (on_ready r)
  unfolding on_ready on_event
  on_ready-Numbered (accepted a) = on_accept-Numbered a
  on_ready-Numbered (ready i e known) = on_client-Numbered i e known
  on_ready-Numbered (woken i wake) = on_woken-Numbered i wake
  on_ready-Numbered (notified false) = record { at = λ w h. h }
  on_ready-Numbered (notified true) = record {
    at = λ w h.
        (on_note-Numbered (pt.read w.events).0).at (record w { events = (pt.read w.events).1 }) h;
  }

  wait-Numbered : (batch : List (Ready pt)) → Keeps IsNumbered (wait batch)
  unfolding wait
  wait-Numbered [] = Keeps-skip
  wait-Numbered (r ∷ more) = Keeps-bind _ _ (on_ready-Numbered r) λ _. wait-Numbered more

  resume-Numbered :
      (rest : Worker pt → Result Bool × Worker pt) (out : Result (Unit {0}) × Worker pt)
      → ((w : Worker pt) → IsNumbered w → IsNumbered (rest w).1)
      → IsNumbered out.1
      → IsNumbered (resume rest out).1
  resume-Numbered rest (ok _, w) h k = h w k
  resume-Numbered rest (err e, w) h k = h w k
  resume-Numbered rest (crash, w) h k = k

  if-Numbered :
      (b : Bool) (x y : Result Bool × Worker pt)
      → IsNumbered x.1
      → IsNumbered y.1
      → IsNumbered (if b then x else y).1
  if-Numbered true x y h k = h
  if-Numbered false x y h k = k

  -- After any run of a worker no two of its clients have the same place, and no place is above the
  -- next one to be given.
  job-Numbered :
      (batches : List (List (Ready pt))) (w : Worker pt)
      → Numbered w.next w.clients
      → Numbered (job batches w).1.next (job batches w).1.clients
  unfolding job
  job-Numbered [] w h = if-Numbered w.working _ _ h h
  job-Numbered (batch ∷ more) w h =
      if-Numbered w.working _ _
        (resume-Numbered (job more) (wait batch w) (job-Numbered more)
          ((wait-Numbered batch).at w h))
        h
