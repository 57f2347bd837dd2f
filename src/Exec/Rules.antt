-- ===== src/Exec/Rules.antt =====
-- Invariants of actions, with a rule for each way to build one.
use mcshub.Base.{◌≡◌, refl, ◌⊎◌, inl, inr, Bool, true, false, if◌then◌else◌}
use mcshub.Exec.{
  Error, Result, ok, err, crash, Exec, pure, throw, crashed, gets, modify, skip, continue, handle,
  ◌>>=◌, catch,
}

-- `act` keeps `Holds`, whether it returns, throws or crashes.
pub record Keeps {S A : Type 0} (Holds : S → Type 0) (act : Exec S A) : Type 0 where
  pub at : (s : S) → Holds s → Holds (act s).1

module _ {S A : Type 0} {Holds : S → Type 0} where
  pub Keeps-pure : (a : A) → Keeps Holds (pure a)
  unfolding pure
  Keeps-pure a = record { at = λ s h. h }

  pub Keeps-throw : (e : Error) → Keeps Holds (throw {A = A} e)
  unfolding throw
  Keeps-throw e = record { at = λ s h. h }

  pub Keeps-crashed : Keeps Holds (crashed {A = A})
  unfolding crashed
  Keeps-crashed = record { at = λ s h. h }

  pub Keeps-gets : (f : S → A) → Keeps Holds (gets f)
  unfolding gets
  Keeps-gets f = record { at = λ s h. h }

  pub Keeps-if :
      (b : Bool) (act other : Exec S A)
      → Keeps Holds act
      → Keeps Holds other
      → Keeps Holds (if b then act else other)
  Keeps-if true act other km kn = km
  Keeps-if false act other km kn = kn

  Keeps-handle :
      (r : Result A) (h : Error → Exec S A)
      → ((e : Error) → Keeps Holds (h e))
      → Keeps Holds (handle r h)
  Keeps-handle (ok a) h k = record { at = λ s p. p }
  Keeps-handle (err e) h k = k e
  Keeps-handle crash h k = record { at = λ s p. p }

  pub Keeps-catch :
      (act : Exec S A) (h : Error → Exec S A)
      → Keeps Holds act
      → ((e : Error) → Keeps Holds (h e))
      → Keeps Holds (catch act h)
  unfolding catch
  Keeps-catch act h km kh = record {
    at = λ s p. (Keeps-handle (act s).0 h kh).at (act s).1 (km.at s p);
  }

module _ {S : Type 0} {Holds : S → Type 0} where
  pub Keeps-modify : (f : S → S) → ((s : S) → Holds s → Holds (f s)) → Keeps Holds (modify f)
  unfolding modify
  Keeps-modify f k = record { at = k }

  pub Keeps-skip : Keeps Holds skip
  unfolding skip
  Keeps-skip = record { at = λ s h. h }

module _ {S A B : Type 0} {Holds : S → Type 0} where
  Keeps-continue :
      (r : Result A) (f : A → Exec S B) → ((a : A) → Keeps Holds (f a)) → Keeps Holds (continue r f)
  Keeps-continue (ok a) f k = k a
  Keeps-continue (err e) f k = record { at = λ s p. p }
  Keeps-continue crash f k = record { at = λ s p. p }

  pub Keeps-bind :
      (act : Exec S A) (f : A → Exec S B)
      → Keeps Holds act
      → ((a : A) → Keeps Holds (f a))
      → Keeps Holds (act >>= f)
  unfolding ◌>>=◌
  Keeps-bind act f km kf = record {
    at = λ s p. (Keeps-continue (act s).0 f kf).at (act s).1 (km.at s p);
  }

-- A first action that establishes what the rest keeps.
module _ {S A B : Type 0} {Holds Later : S → Type 0} where
  pub Keeps-then :
      (act : Exec S A) (f : A → Exec S B)
      → Keeps Holds act
      → ((s : S) → Holds s → Later s)
      → ((a : A) → Keeps Later (f a))
      → (s : S) → Holds s
      → Later ((act >>= f) s).1
  unfolding ◌>>=◌
  Keeps-then act f km weaker kf s p =
      (Keeps-continue (act s).0 f kf).at (act s).1 (weaker (act s).1 (km.at s p))

-- `act` keeps `Holds` where it returns.
pub record Ensures {S A : Type 0} (Holds : S → Type 0) (act : Exec S A) : Type 0 where
  pub at : (s : S) (a : A) → Holds s → (act s).0 ≡ ok a → Holds (act s).1

module _ {S A : Type 0} {Holds : S → Type 0} where
  pub Keeps-Ensures : (act : Exec S A) → Keeps Holds act → Ensures Holds act
  Keeps-Ensures act k = record { at = λ s a h e. k.at s h }

  pub Ensures-throw : (e : Error) → Ensures Holds (throw {A = A} e)
  unfolding throw
  Ensures-throw e = record { at = λ s a h r. h }

  pub Ensures-if :
      (b : Bool) (act other : Exec S A)
      → Ensures Holds act
      → Ensures Holds other
      → Ensures Holds (if b then act else other)
  Ensures-if true act other km kn = km
  Ensures-if false act other km kn = kn

module _ {S A B : Type 0} {Holds : S → Type 0} where
  Ensures-continue :
      (r : Result A) (f : A → Exec S B) (s : S) (b : B)
      → ((a : A) → r ≡ ok a → Holds s)
      → ((a : A) → Ensures Holds (f a))
      → (continue r f s).0 ≡ ok b
      → Holds (continue r f s).1
  Ensures-continue (ok a) f s b h k e = (k a).at s b (h a refl) e
  Ensures-continue (err x) f s b h k e = cc
  Ensures-continue crash f s b h k e = cc

  pub Ensures-bind :
      (act : Exec S A) (f : A → Exec S B)
      → Ensures Holds act
      → ((a : A) → Ensures Holds (f a))
      → Ensures Holds (act >>= f)
  unfolding ◌>>=◌
  Ensures-bind act f km kf = record {
    at = λ s b p. Ensures-continue (act s).0 f (act s).1 b (λ a. km.at s a p) kf;
  }

module _ {S A : Type 0} where
  handle_cases :
      (r : Result A) (h : Error → Exec S A) (s : S) (a : A)
      → (handle r h s).0 ≡ ok a
      → ((r ≡ ok a) × (handle r h s ≡ (ok a, s))) ⊎ ((e : Error) × (handle r h s ≡ h e s))
  handle_cases (ok b) h s a e = inl (e, λ i. (e i, s))
  handle_cases (err x) h s a e = inr (x, refl)
  handle_cases crash h s a e = cc

  -- A `try` block that ends has returned, or its handler has run.
  pub catch_cases :
      (act : Exec S A) (h : Error → Exec S A) (s : S) (a : A)
      → (catch act h s).0 ≡ ok a
      → (((act s).0 ≡ ok a) × (catch act h s ≡ (ok a, (act s).1)))
        ⊎ ((e : Error) × (catch act h s ≡ h e (act s).1))
  unfolding catch
  catch_cases act h s a = handle_cases (act s).0 h (act s).1 a

pub ruleset keeps_rules = (
  Keeps-pure, Keeps-throw, Keeps-crashed, Keeps-gets, Keeps-if, Keeps-catch, Keeps-modify,
  Keeps-skip, Keeps-bind,
)

-- After an action that returns, what follows it.
pub bind_ok :
    {S A B : Type 0} (act : Exec S A) (f : A → Exec S B) (s : S) (a : A)
    → (act s).0 ≡ ok a
    → (act >>= f) s ≡ f a (act s).1
unfolding ◌>>=◌
bind_ok act f s a e = rw e refl

pub bind_eq :
    {S A B : Type 0} (act : Exec S A) (f : A → Exec S B) (s t : S) (a : A)
    → act s ≡ (ok a, t)
    → (act >>= f) s ≡ f a t
unfolding ◌>>=◌
bind_eq act f s t a e = rw e refl
