-- ===== src/Exec.antt =====
-- Methods that change an object and may throw. What was written before a throw stays written.
pub mod Rules
pub mod Guards
pub mod Returns
use mcshub.Base.{ℤ}

-- The reasons of a `bad_request`.
pub data Reason : Type 0 where
  packet_format negative_size oversized drop unexpected_id : Reason
  bad_state : ℤ → Reason

-- The exceptions of src/client.cpp, of src/settings.cpp and of the libraries that they call; all are
-- `std::exception`. An `other_exception` is one for the words
-- of a command, or for an unknown event of a worker.
pub data Error : Type 0 where
  bad_request : Reason → Error
  paket_error dns_error system_error illegal_state yaml_exception config_exception other_exception :
      Error

-- `crash` is undefined behaviour or a failed `assert`: no handler catches it.
pub data Result {ℓ} (A : Type ℓ) : Type ℓ where
  ok : A → Result A
  err : Error → Result A
  crash : Result A

abbrev pub Exec {ℓ} : Type ℓ → Type ℓ → Type ℓ
Exec S A = S → Result A × S

module _ {S A : Type 0} where
  unfoldable pub pure : A → Exec S A
  pure a s = (ok a, s)

  unfoldable pub throw : Error → Exec S A
  throw e s = (err e, s)

  unfoldable pub crashed : Exec S A
  crashed s = (crash, s)

  unfoldable pub gets : (S → A) → Exec S A
  gets f s = (ok (f s), s)

module _ {S : Type 0} where
  unfoldable pub modify : (S → S) → Exec S (Unit {0})
  modify f s = (ok tt, f s)

  unfoldable pub skip : Exec S (Unit {0})
  skip s = (ok tt, s)

module _ {S A B : Type 0} where
  abbrev pub continue : Result A → (A → Exec S B) → Exec S B
  continue (ok a) f s = f a s
  continue (err e) f s = (err e, s)
  continue crash f s = (crash, s)

  infixl 5 ◌>>=◌ ◌>>◌
  -- Opening this opens the actions above too.
  unfoldable pub ◌>>=◌ : Exec S A → (A → Exec S B) → Exec S B
  unfolding pure throw crashed gets modify skip
  ◌>>=◌ act f s = continue (act s).0 f (act s).1

  abbrev pub ◌>>◌ : Exec S A → Exec S B → Exec S B
  m >> n = m >>= λ _. n

module _ {S A : Type 0} where
  abbrev pub handle : Result A → (Error → Exec S A) → Exec S A
  handle (ok a) h s = (ok a, s)
  handle (err e) h s = h e s
  handle crash h s = (crash, s)

  -- `try { m } catch (e) { h }`
  unfoldable pub catch : Exec S A → (Error → Exec S A) → Exec S A
  unfolding ◌>>=◌
  catch m h s = handle (m s).0 h (m s).1

module _ {S : Type 0} where
  -- The object that a method leaves, where the method returns.
  abbrev pub left : Result (Unit {0}) × S → Result S
  left (ok _, s) = ok s
  left (err e, s) = err e
  left (crash, s) = crash
