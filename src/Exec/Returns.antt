-- ===== src/Exec/Returns.antt =====
-- What is known of an action's parts when it has returned.
use mcshub.Base.{◌≡◌, ◌≢◌, refl, Bool, true, false, if◌then◌else◌}
use mcshub.Exec.{Exec, Result, ok, err, crash, continue, ◌>>=◌}

continue_returns :
    {S A B : Type 0} (r : Result A) (f : A → Exec S B) (s t : S) (b : B)
    → continue r f s ≡ (ok b, t)
    → (a : A) × (r ≡ ok a) × (f a s ≡ (ok b, t))
continue_returns (ok a) f s t b h = (a, refl, h)
continue_returns (err e) f s t b h = absurd (cc)
continue_returns crash f s t b h = absurd (cc)

pub continue_keeps :
    {S A B : Type 0} (Q : S → Type 0) (r : Result A) (f : A → Exec S B) (s : S)
    → ((a : A) → Q (f a s).1)
    → Q s
    → Q (continue r f s).1
continue_keeps Q (ok a) f s hf h = hf a
continue_keeps Q (err e) f s hf h = h
continue_keeps Q crash f s hf h = h

-- An action that returns did so after its first part.
pub bind_returns :
    {S A B : Type 0} (act : Exec S A) (f : A → Exec S B) (s t : S) (b : B)
    → (act >>= f) s ≡ (ok b, t)
    → (a : A) × ((act s).0 ≡ ok a) × (f a (act s).1 ≡ (ok b, t))
unfolding ◌>>=◌
bind_returns act f s t b h = continue_returns (act s).0 f (act s).1 t b h

pub last_choice :
    {S A : Type 0} (a b c : Bool) (k l m n : Exec S A) (s : S) (r : Result A × S)
    → (if a then k else if b then l else if c then m else n) s ≡ r
    → k s ≢ r
    → l s ≢ r
    → m s ≢ r
    → n s ≡ r
last_choice true b c k l m n s r e hk hl hm = absurd (hk e)
last_choice false true c k l m n s r e hk hl hm = absurd (hl e)
last_choice false false true k l m n s r e hk hl hm = absurd (hm e)
last_choice false false false k l m n s r e hk hl hm = e
