-- ===== src/Vars/Meaning.antt =====
-- The loop of `resolve` computes what the pieces of a text mean.
use mathlib.Core.Option
use mcshub.Base.{
  ◌≡◌, refl, sym, ap, ◌∙◌, ℕ, zero, suc, ◌+◌, ◌^◌, ◌<◌, true, false, Option, some, List, [], ◌∷◌,
  ◌++◌, append_assoc, append-nil, ltb, ◌==◌, arith, Text, length, is_alnum, length-append,
  drop-append, drop-append_add, get_or, drop, Bool-cases, ==_iff, inl, inr,
}
use mcshub.Vars.{Tools, Namespace, isvar, var_length, get_value, scan, finish, resolve}
use mcshub.Vars.Pieces.{
  Piece, byte, dollar, braced, named, render, AreFit, AllVar, meaning, step_plain, step_lone,
  step_dollar, step_braced, step_named, starts_none, kept,
}
use mcshub.Vars.Position.{At, measured, byte_at, byte_here, mark, from, jump, inside, copied, keep}

var_length-append :
    (s rest : Text) → AllVar s → isvar (get_or rest 0 0) ≡ false → var_length (s ++ rest) ≡ length s
unfolding var_length
var_length-append [] [] all end = refl
var_length-append [] (c ∷ rest) all end = rw end refl
var_length-append (c ∷ s) rest all end = rw (all.0) (ap suc (var_length-append s rest all.1 end))

not_var : (c d : ℕ) → isvar c ≡ true → isvar d ≡ false → (c == d) ≡ false
not_var c d var other = elim (Bool-cases (c == d)) [
  | inr e ↦ e
  | inl e ↦ let q = sym var ∙ ap isvar ((==_iff c d).0 e) ∙ other in absurd (cc q)
]

marks : (isvar b'$' ≡ false) × (isvar b'{' ≡ false)
unfolding isvar is_alnum
marks = (refl, refl)

pub after_braced : (s rest : Text) → drop (length s + 3) (b'$' ∷ b'{' ∷ (s ++ b'}' ∷ rest)) ≡ rest
after_braced s rest =
    let e : length s + 3 ≡ suc (suc (length s + 1)) = omega arith in
    rw e (drop-append_add 1 s (b'}' ∷ rest))

pub after_named : (s rest : Text) → drop (length s + 1) (b'$' ∷ (s ++ rest)) ≡ rest
after_named s rest =
    let e : length s + 1 ≡ suc (length s) = omega arith in rw e (drop-append s rest)

module _ (tools : Tools) (main : Namespace) (others : List Namespace) where
  -- What the loop, from here on, makes of the text.
  abbrev done : ℕ → Text → ℕ → ℕ → Text → Option Text
  done fuel text i j out =
      Option.map (finish tools main others text) (scan tools main others fuel text i j out)

  -- A variable: the loop copies what is pending, appends the value and goes on after the variable.
  leap :
      (f : ℕ) (text : Text) (i j next : ℕ) (pending rest out value later : Text)
      → At text i j pending rest
      → length text < 2 ^ 32
      → scan tools main others (suc f) text i j out
        ≡ scan tools main others f text next next (kept text i j out ++ value)
      → done f text next next ((out ++ pending) ++ value)
        ≡ some (((out ++ pending) ++ value) ++ later)
      → done (suc f) text i j out ≡ some (out ++ (pending ++ (value ++ later)))
  leap f text i j next pending rest out value later a small step goes =
      ap (Option.map (finish tools main others text)) step
      ∙ ap (λ (t : Text). done f text next next ((out ++ t) ++ value))
          (copied text i j pending rest a small)
      ∙ goes
      ∙ ap (λ (t : Text). some t)
          (append_assoc (out ++ pending) value later ∙ append_assoc out pending (value ++ later))

  finished :
      (text : Text) (i j : ℕ) (pending out : Text)
      → At text i j pending []
      → length text < 2 ^ 32
      → finish tools main others text (i, j, out) ≡ out ++ (pending ++ [])
  unfolding finish
  finished text i j [] out a small =
      let here : (i == j) ≡ true = (==_iff i j).1 (omega (arith, a.distance)) in
      rw (here, append-nil out) refl
  finished text i j (c ∷ pending) out a small =
      let d = a.distance in
      let there : (i == j) ≡ false = ground (arith, d) in
      rw (there, copied text i j (c ∷ pending) [] a small, append-nil pending) refl

  ends :
      (f : ℕ) (text : Text) (i j : ℕ) (pending out : Text)
      → At text i j pending []
      → length text < 2 ^ 32
      → done (suc f) text i j out ≡ some (out ++ (pending ++ []))
  unfolding scan finish
  ends f text i j pending out a small =
      let out_of : ltb i (length text) ≡ false =
        let m = measured text i j pending [] a in ground (arith, m) in
      rw (out_of, scan) (ap (λ (t : Text). some t) (finished text i j pending out a small))

  step_byte :
      (f : ℕ) (text : Text) (i j : ℕ) (pending out : Text) (c : ℕ) (ps : List Piece)
      → At text i j pending (c ∷ render ps)
      → ((c == b'$') ≡ true → starts_none (get_or (render ps) 0 0) ≡ true)
      → scan tools main others (suc f) text i j out ≡ scan tools main others f text (i + 1) j out
  step_byte f text i j pending out c ps a alone =
      let within = inside text i j pending _ a (omega arith) in
      let here = byte_here text i j pending _ a in
      elim (Bool-cases (c == b'$')) [
        | inr other ↦
            step_plain tools main others f text i j out within (ap (λ b. b == b'$') here ∙ other)
        | inl marked ↦
            step_lone tools main others f text i j out within (ap (λ b. b == b'$') here ∙ marked)
              (ap starts_none (byte_at text i j pending _ a 1) ∙ alone marked)
      ]

  aligned :
      (f : ℕ) (text : Text) (made : Text) (next next' i : ℕ) (rest rest' : Text) (n n' : ℕ)
      → next ≡ next'
      → rest ≡ rest'
      → n ≡ n'
      → scan tools main others f text next next (made ++ get_value tools main others i rest n)
        ≡ scan tools main others f text next' next' (made ++ get_value tools main others i rest' n')
  aligned f text made next next' i rest rest' n n' p q r = cc (p, q, r)

  resolves :
      (ps : List Piece) (fuel : ℕ) (text : Text) (i j : ℕ) (pending out : Text)
      → At text i j pending (render ps)
      → AreFit tools ps
      → length text < 2 ^ 32
      → length text < i + fuel
      → done fuel text i j out ≡ some (out ++ (pending ++ meaning tools main others i ps))
  resolves ps zero text i j pending out a fit small enough =
      absurd (omega (arith, measured text i j pending (render ps) a, enough))
  resolves [] (suc f) text i j pending out a fit small enough = ends f text i j pending out a small
  resolves (byte c ∷ ps) (suc f) text i j pending out a fit small enough =
      ap (Option.map (finish tools main others text))
        (step_byte f text i j pending out c ps a fit.0)
      ∙ resolves ps f text (i + 1) j (pending ++ c ∷ []) out (keep text i j pending (render ps) c a)
          fit.1 small (omega arith)
      ∙ ap (λ (t : Text). some (out ++ t))
          (append_assoc pending (c ∷ []) (meaning tools main others (i + 1) ps))
  resolves (dollar ∷ ps) (suc f) text i j pending out a fit small enough =
      leap f text i j (i + 2) pending (render (dollar ∷ ps)) out _
        (meaning tools main others (i + 2) ps) a small
        (step_dollar tools main others f text i j out (inside text i j pending _ a (omega arith))
          (mark text i j pending _ a refl) (byte_at text i j pending _ a 1))
        (resolves ps f text (i + 2) (i + 2) [] ((out ++ pending) ++ b'$' ∷ [])
          (jump text i j pending _ a 2 (render ps) refl (omega arith)) fit small (omega arith))
  resolves (braced s ∷ ps) (suc f) text i j pending out a fit small enough =
      let m = length s + 3 in
      let value = get_value tools main others i (s ++ b'}' ∷ render ps) (length s) in
      leap f text i j (i + m) pending (render (braced s ∷ ps)) out value
        (meaning tools main others (i + m) ps) a small
        (step_braced tools main others f text i j out (inside text i j pending _ a (omega arith))
            (mark text i j pending _ a refl) (length s + 2) (byte_at text i j pending _ a 1)
            (ap tools.find_closing_bracket (from text i j pending _ a 1) ∙ fit.0)
          ∙ aligned f text (kept text i j out) _ (i + m) i _ (s ++ b'}' ∷ render ps) _ (length s)
              (omega
                (arith, small, measured text i j pending _ a, length-append s (b'}' ∷ render ps)))
              (from text i j pending _ a 2)
              (omega
                (arith, small, measured text i j pending _ a, length-append s (b'}' ∷ render ps))))
        (resolves ps f text (i + m) (i + m) [] ((out ++ pending) ++ value)
          (jump text i j pending _ a m (render ps) (after_braced s (render ps))
            (omega (arith, length-append s (b'}' ∷ render ps))))
          fit.1 small (omega arith))
  resolves (named [] ∷ ps) (suc f) text i j pending out a fit small enough = absurd (fit.0 refl)
  resolves (named (c ∷ s) ∷ ps) (suc f) text i j pending out a fit small enough =
      let m = length (c ∷ s) + 1 in
      let next = byte_at text i j pending _ a 1 in
      let len : var_length (drop (i + 1) text) ≡ length (c ∷ s) =
        ap var_length (from text i j pending _ a 1)
        ∙ var_length-append (c ∷ s) (render ps) fit.1 fit.2 in
      let value = get_value tools main others i (c ∷ s ++ render ps) (length (c ∷ s)) in
      leap f text i j (i + m) pending (render (named (c ∷ s) ∷ ps)) out value
        (meaning tools main others (i + m) ps) a small
        (step_named tools main others f text i j out (inside text i j pending _ a (omega arith))
            (mark text i j pending _ a refl) (ap isvar next ∙ fit.1.0)
            (ap (λ b. b == b'$') next ∙ not_var c b'$' fit.1.0 marks.0)
            (ap (λ b. b == b'{') next ∙ not_var c b'{' fit.1.0 marks.1)
          ∙ aligned f text (kept text i j out) _ (i + m) i _ (c ∷ s ++ render ps) _ (length (c ∷ s))
              (omega (arith, len)) (from text i j pending _ a 1) len)
        (resolves ps f text (i + m) (i + m) [] ((out ++ pending) ++ value)
          (jump text i j pending _ a m (render ps) (after_named (c ∷ s) (render ps))
            (omega (arith, length-append s (render ps))))
          fit.3 small (omega arith))

  -- Resolving a text gives what its pieces mean, each variable replaced by its value at the place
  -- where it stands and `$$` by one '$', if the pieces fit the library's search for the closing
  -- bracket and each other, and the text's size fits the 32 bits that the code keeps it in.
  pub resolve-render :
      (ps : List Piece)
      → AreFit tools ps
      → length (render ps) < 2 ^ 32
      → resolve tools main others (render ps) ≡ some (meaning tools main others 0 ps)
  unfolding resolve
  resolve-render ps fit small =
      resolves ps (suc (length (render ps))) (render ps) 0 0 [] []
        (record { from_j = refl; distance = omega arith; bound = omega arith }) fit small
        (omega arith)
