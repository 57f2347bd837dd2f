-- ===== src/ProgArgs/Gives.antt =====
-- Properties of the results of reading arguments, with a rule for each way to build one.
use mcshub.Base.{Bool, true, false, if◌then◌else◌}
use mcshub.ProgArgs.Options.{Outcome, done, invalid_argument, undefined, and_then}

abbrev pub Holds : {A : Type 0} → (A → Type 0) → Outcome A → Type 0
Holds P (done a) = P a
Holds P _ = Unit

-- The result has the property, if there is one.
pub record Gives {A : Type 0} (P : A → Type 0) (o : Outcome A) : Type 0 where
  pub at : Holds P o

module _ {A : Type 0} {P : A → Type 0} where
  pub Gives-done : (a : A) → P a → Gives P (done a)
  Gives-done a h = record { at = h }

  pub Gives-invalid_argument : Gives P invalid_argument
  Gives-invalid_argument = record { at = tt }

  pub Gives-if : (b : Bool) (m n : Outcome A) → Gives P m → Gives P n → Gives P (if b then m else n)
  Gives-if true m n gm gn = gm
  Gives-if false m n gm gn = gn

  -- A branch for a condition that an earlier branch has taken.
  pub Gives-if_again :
      (b : Bool) (m again n : Outcome A)
      → Gives P m
      → Gives P n
      → Gives P (if b then m else if b then again else n)
  Gives-if_again true m again n gm gn = gm
  Gives-if_again false m again n gm gn = gn

module _ {A B : Type 0} {P : A → Type 0} {Q : B → Type 0} where
  pub Gives-and_then :
      (o : Outcome A) (f : A → Outcome B)
      → Gives P o
      → ((a : A) → P a → Gives Q (f a))
      → Gives Q (and_then o f)
  Gives-and_then (done a) f g k = k a g.at
  Gives-and_then invalid_argument f g k = record { at = tt }
  Gives-and_then undefined f g k = record { at = tt }

module _ {A B : Type 0} {Q : B → Type 0} where
  pub Gives-after :
      (o : Outcome A) (f : A → Outcome B) → ((a : A) → Gives Q (f a)) → Gives Q (and_then o f)
  Gives-after (done a) f k = k a
  Gives-after invalid_argument f k = record { at = tt }
  Gives-after undefined f k = record { at = tt }
