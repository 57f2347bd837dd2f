-- ===== src/Vars/Division.antt =====
-- Every text whose brackets are closed divides into pieces, so resolving it gives their meaning.
use mcshub.Base.{
  ◌≡◌, ◌≢◌, refl, sym, ap, subst, ◌∙◌, ℕ, zero, suc, ◌+◌, ◌^◌, ◌≤◌, ◌<◌, true, false, some, List,
  [], ◌∷◌, ◌++◌, ◌==◌, pos, arith, Text, length, is_alnum, length-append, drop_add, get_or-drop,
  get_or, drop, Bool-cases, ==_iff, inl, inr,
}
use mcshub.Vars.{Tools, Namespace, isvar, resolve}
use mcshub.Vars.Pieces.{
  Piece, byte, dollar, braced, named, render, AreFit, AllVar, meaning, starts_none,
}
use mcshub.Vars.Meaning.{resolve-render, after_braced, after_named}

-- Each bracket that follows a '$' is closed, and the library finds where.
pub record IsClosed (tools : Tools) (text : Text) : Type 0 where
  pub at :
      (i : ℕ)
      → get_or text i 0 ≡ b'$'
      → get_or text (i + 1) 0 ≡ b'{'
      → (name later : Text) × (drop (i + 1) text ≡ b'{' ∷ (name ++ b'}' ∷ later))
        × (tools.find_closing_bracket (b'{' ∷ (name ++ b'}' ∷ later)) ≡ pos (length name + 2))

var_split :
    (s : Text) → (v later : Text) × (s ≡ v ++ later) × AllVar v × (isvar (get_or later 0 0) ≡ false)
unfolding isvar is_alnum
var_split [] = ([], [], refl, tt, refl)
var_split (c ∷ s) = elim (Bool-cases (isvar c)) [
  | inr end ↦ ([], c ∷ s, refl, tt, end)
  | inl var ↦
      let (v, later, e, all, end) = var_split s in
      (c ∷ v, later, ap (λ (t : Text). c ∷ t) e, (var, all), end)
]

names : (d : ℕ) → (d == b'$') ≡ false → (d == b'{') ≡ false → starts_none d ≡ false → isvar d ≡ true
names d once no_brace starts = elim (Bool-cases (isvar d)) [
  | inl var ↦ var
  | inr other ↦
      let all : starts_none d ≡ true = rw (other, once, no_brace) refl in absurd (cc (all, starts))
]

module _ (tools : Tools) where
  drop-IsClosed : (k : ℕ) (text : Text) → IsClosed tools text → IsClosed tools (drop k text)
  drop-IsClosed k text c = record {
    at = λ i d b.
        let (name, later, e, found) =
          c.at (k + i) (get_or-drop k i text 0 ∙ d)
            (ap (λ n. get_or text n 0) (omega arith) ∙ get_or-drop k (i + 1) text 0 ∙ b) in
        (
          name,
          later,
          sym (drop_add k (i + 1) text) ∙ ap (λ n. drop n text) (omega arith) ∙ e,
          found,
        );
  }

  later-IsClosed :
      (k : ℕ) (text later : Text) → drop k text ≡ later → IsClosed tools text → IsClosed tools later
  later-IsClosed k text later e c = subst (IsClosed tools) e (drop-IsClosed k text c)

  abbrev Division : Text → Type 0
  Division text = (ps : List Piece) × (render ps ≡ text) × AreFit tools ps

  -- A byte that is no '$', or a '$' that starts no variable.
  after_byte :
      (c : ℕ) (s : Text)
      → ((c == b'$') ≡ true → starts_none (get_or s 0 0) ≡ true)
      → Division s
      → Division (c ∷ s)
  after_byte c s alone (ps, e, fit) = (
    byte c ∷ ps,
    ap (λ (t : Text). c ∷ t) e,
    (λ m. ap (λ (t : Text). starts_none (get_or t 0 0)) e ∙ alone m, fit),
  )

  with_braced :
      (name later : Text)
      → tools.find_closing_bracket (b'{' ∷ (name ++ b'}' ∷ later)) ≡ pos (length name + 2)
      → Division later
      → Division (b'$' ∷ b'{' ∷ (name ++ b'}' ∷ later))
  with_braced name later found (ps, e, fit) =
      let same : Text → Text = λ t. b'{' ∷ (name ++ b'}' ∷ t) in
      (
        braced name ∷ ps,
        ap (λ (t : Text). b'$' ∷ same t) e,
        (ap (λ (t : Text). tools.find_closing_bracket (same t)) e ∙ found, fit),
      )

  with_named :
      (name later : Text)
      → name ≢ []
      → AllVar name
      → isvar (get_or later 0 0) ≡ false
      → Division later
      → Division (b'$' ∷ (name ++ later))
  with_named name later some_name all end (ps, e, fit) = (
    named name ∷ ps,
    ap (λ (t : Text). b'$' ∷ (name ++ t)) e,
    (some_name, all, ap (λ (t : Text). isvar (get_or t 0 0)) e ∙ end, fit),
  )

  -- A '$' that starts a variable or `$$`.
  module _ (n : ℕ)
      (go : (later : Text) → length later ≤ n → IsClosed tools later → Division later) where
    at_name :
        (d : ℕ) (s : Text)
        → length (d ∷ s) ≤ n
        → IsClosed tools (b'$' ∷ d ∷ s)
        → isvar d ≡ true
        → Division (b'$' ∷ d ∷ s)
    at_name d s le closed var =
        let (v, later, e, all, end) = var_split s in
        let same = ap (λ (t : Text). b'$' ∷ d ∷ t) e in
        let rest =
          later-IsClosed (length (d ∷ v) + 1) _ later
            (ap (drop (length (d ∷ v) + 1)) same ∙ after_named (d ∷ v) later) closed in
        subst Division (sym same) (
          with_named (d ∷ v) later (λ h. cc h) (var, all) end
            (go later (omega (arith, ap length e, length-append v later)) rest))

    at_bracket :
        (s : Text)
        → length s ≤ n
        → IsClosed tools (b'$' ∷ s)
        → get_or s 0 0 ≡ b'{'
        → Division (b'$' ∷ s)
    at_bracket s le closed brace =
        let (name, later, e, found) = closed.at 0 refl brace in
        let e' : s ≡ b'{' ∷ (name ++ b'}' ∷ later) = e in
        let same = ap (λ (t : Text). b'$' ∷ t) e' in
        let rest =
          later-IsClosed (length name + 3) _ later
            (ap (drop (length name + 3)) same ∙ after_braced name later) closed in
        subst Division (sym same) (
          with_braced name later found
            (go later (omega (arith, ap length e', length-append name (b'}' ∷ later), le)) rest))

    at_dollar :
        (d : ℕ) (s : Text)
        → length (d ∷ s) ≤ n
        → IsClosed tools (b'$' ∷ d ∷ s)
        → d ≡ b'$'
        → Division (b'$' ∷ d ∷ s)
    at_dollar d s le closed e =
        let (ps, e', fit) = go s (omega arith) (drop-IsClosed 2 _ closed) in
        (dollar ∷ ps, cc (e, e'), fit)

    at_variable :
        (s : Text)
        → length s ≤ n
        → IsClosed tools (b'$' ∷ s)
        → starts_none (get_or s 0 0) ≡ false
        → Division (b'$' ∷ s)
    unfolding isvar is_alnum
    at_variable [] le closed starts = absurd (cc starts)
    at_variable (d ∷ s) le closed starts = elim (Bool-cases (d == b'$')) [
      | inl twice ↦ at_dollar d s le closed ((==_iff d b'$').0 twice)
      | inr once ↦ elim (Bool-cases (d == b'{')) [
        | inl brace ↦ at_bracket (d ∷ s) le closed ((==_iff d b'{').0 brace)
        | inr no_brace ↦ at_name d s le closed (names d once no_brace starts)
      ]
    ]

  divide : (n : ℕ) (text : Text) → length text ≤ n → IsClosed tools text → Division text
  unfolding isvar is_alnum
  divide n [] le c = ([], refl, tt)
  divide zero (c ∷ s) le closed = absurd (omega arith)
  divide (suc n) (c ∷ s) le closed = elim (Bool-cases (c == b'$')) [
    | inr other ↦
        after_byte c s (λ m. absurd (cc (m, other)))
          (divide n s (omega arith) (drop-IsClosed 1 (c ∷ s) closed))
    | inl mark ↦ elim (Bool-cases (starts_none (get_or s 0 0))) [
      | inl alone ↦
          after_byte c s (λ m. alone) (divide n s (omega arith) (drop-IsClosed 1 (c ∷ s) closed))
      | inr starts ↦
          let is = (==_iff c b'$').0 mark in
          subst (λ x. Division (x ∷ s)) (sym is)
            (at_variable n (divide n) s (omega arith)
              (subst (λ x. IsClosed tools (x ∷ s)) is closed) starts)
    ]
  ]

module _ (tools : Tools) (main : Namespace) (others : List Namespace) where
  -- A text of less than 2 ^ 32 bytes in which each bracket after a '$' is closed divides into pieces,
  -- bytes, `$$` and variables with or without brackets, that fit each other, and resolving it comes to
  -- an end with what the pieces mean: each variable replaced by its value at the place where it
  -- stands, and `$$` by one '$'.
  pub resolve-meaning :
      (text : Text)
      → IsClosed tools text
      → length text < 2 ^ 32
      → (ps : List Piece) × (render ps ≡ text)
        × AreFit tools ps
        × (resolve tools main others text ≡ some (meaning tools main others 0 ps))
  resolve-meaning text closed small =
      let (ps, e, fit) = divide tools (length text) text (omega arith) closed in
      (
        ps,
        e,
        fit,
        ap (resolve tools main others) (sym e)
            ∙ resolve-render tools main others ps fit (omega (arith, ap length e, small)),
      )
