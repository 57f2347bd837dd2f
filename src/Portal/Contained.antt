-- ===== src/Portal/Contained.antt =====
-- Which handlers let no exception through.
use mcshub.Base.{◌≢◌}
use mcshub.Exec.{Exec, Result, Error, ok, err, crash, catch, handle, skip, modify}
use mcshub.Platform.{Platform}
use mcshub.Portal.{Portal}
use mcshub.Portal.Events.{Actions, on_from_event, on_disconnect}
use mcshub.Portal.Requests.{disconnect}

module _ {S A : Type 0} where
  abbrev NoThrow : Exec S A → Type 0
  NoThrow m = (s : S) (x : Error) → (m s).0 ≢ err x

  handle_contained :
      (r : Result A) (h : Error → Exec S A) (s : S)
      → ((e : Error) → NoThrow (h e))
      → (x : Error) → (handle r h s).0 ≢ err x
  handle_contained (ok a) h s k x e = cc
  handle_contained (err y) h s k x e = k y s x e
  handle_contained crash h s k x e = cc

  catch_contained :
      (m : Exec S A) (h : Error → Exec S A) → ((e : Error) → NoThrow (h e)) → NoThrow (catch m h)
  unfolding catch
  catch_contained m h k s x = handle_contained (m s).0 h (m s).1 k x

module _ {pf : Platform} where
  -- No exception leaves the handler of the client's events, nor the one that ends a portal when the
  -- hub stops.
  pub handlers_contained :
      (e : Actions) (p : Portal pf) (x : Error)
      → ((on_from_event e p).0 ≢ err x) × ((on_disconnect p).0 ≢ err x)
  unfolding on_from_event on_disconnect disconnect modify skip
  handlers_contained e p x =
      (catch_contained _ _ (λ y s z w. cc) p x, catch_contained _ _ (λ y s z w. cc) p x)
