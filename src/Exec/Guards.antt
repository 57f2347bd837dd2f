-- ===== src/Exec/Guards.antt =====
-- What an action keeps unless it ends with the exception of a bad configuration.
use mcshub.Base.{◌≢◌, Bool, true, false, if◌then◌else◌}
use mcshub.Exec.{
  Error, yaml_exception, config_exception, Result, ok, err, crash, Exec, throw, continue, skip,
  ◌>>=◌, catch,
}
use mcshub.Exec.Rules.{Keeps, Ensures}

pub record Guards {S A : Type 0} (Holds : S → Type 0) (act : Exec S A) : Type 0 where
  pub at : (s : S) → Holds s → (act s).0 ≢ err config_exception → Holds (act s).1

module _ {S A : Type 0} {Holds : S → Type 0} where
  pub Keeps-Guards : (act : Exec S A) → Keeps Holds act → Guards Holds act
  Keeps-Guards act k = record { at = λ s h e. k.at s h }

  pub Guards-Ensures : (act : Exec S A) → Guards Holds act → Ensures Holds act
  Guards-Ensures act g = record { at = λ s a h e. g.at s h (λ r. cc) }

  pub Guards-throw : Guards Holds (throw {A = A} config_exception)
  unfolding throw
  Guards-throw = record { at = λ s h e. h }

  pub Guards-if :
      (b : Bool) (act other : Exec S A)
      → Guards Holds act
      → Guards Holds other
      → Guards Holds (if b then act else other)
  Guards-if true act other km kn = km
  Guards-if false act other km kn = kn

module _ {S A B : Type 0} {Holds : S → Type 0} where
  Guards-continue :
      (r : Result A) (f : A → Exec S B) (s : S)
      → (r ≢ err config_exception → Holds s)
      → ((a : A) → Guards Holds (f a))
      → (continue r f s).0 ≢ err config_exception
      → Holds (continue r f s).1
  Guards-continue (ok a) f s h k e = (k a).at s (h (λ r. cc)) e
  Guards-continue (err x) f s h k e = h (λ r. e (cc))
  Guards-continue crash f s h k e = h (λ r. cc)

  pub Guards-bind :
      (act : Exec S A) (f : A → Exec S B)
      → Guards Holds act
      → ((a : A) → Guards Holds (f a))
      → Guards Holds (act >>= f)
  unfolding ◌>>=◌
  Guards-bind act f km kf = record {
    at = λ s p. Guards-continue (act s).0 f (act s).1 (km.at s p) kf;
  }

module _ {S : Type 0} where
  -- `try { … } catch (const YAML::Exception & e) { … }`, where the handler only writes to the log.
  abbrev pub rethrown : Error → Exec S (Unit {0})
  rethrown yaml_exception = skip
  rethrown e = throw e

  unfoldable pub catch_yaml : Exec S (Unit {0}) → Exec S (Unit {0})
  unfolding catch
  catch_yaml act = catch act rethrown
