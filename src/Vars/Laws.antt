-- ===== src/Vars/Laws.antt =====
-- Resolving a text comes to an end, and leaves a text without variables alone.
use mathlib.Core.Option
use mcshub.Base.{
  ◌≡◌, ◌≢◌, refl, ap, ℕ, zero, suc, ◌+◌, ◌-◌, ◌%◌, ◌^◌, ◌≤◌, ◌<◌, false, not, ◌&&◌, Option, some,
  List, [], ◌∷◌, ltb, ◌==◌, pos, to_size_t, arith, Text, length, get_or, drop, take_long,
  length-drop, Bool-cases, ==_iff, inl, inr, ◌∙◌,
}
use mcshub.Vars.{Tools, Namespace, isvar, var_length, scan, finish, resolve}

-- No byte is a '$'.
abbrev pub HasNoDollar : Text → Type 0
HasNoDollar [] = Unit {0}
HasNoDollar (c ∷ s) = (c ≢ b'$') × HasNoDollar s

get_or_no_dollar : (s : Text) (i : ℕ) → HasNoDollar s → (get_or s i 0 == b'$') ≡ false
get_or_no_dollar [] i h = refl
get_or_no_dollar (c ∷ s) zero h = ground arith
get_or_no_dollar (c ∷ s) (suc i) h = get_or_no_dollar s i h.1

-- Every opening bracket of the text is closed in it: the number that the library finds is the one of
-- the bytes from the bracket to where the text goes on.
pub record Closes (tools : Tools) (text : Text) : Type 0 where
  pub at :
      (i : ℕ)
      → get_or text i 0 ≡ b'{'
      → (n : ℕ) × (tools.find_closing_bracket (drop i text) ≡ pos n) × (n ≤ length (drop i text))

module _ (tools : Tools) (main : Namespace) (others : List Namespace) where
  scan_plain :
      (fuel : ℕ) (text : Text) (i : ℕ)
      → HasNoDollar text
      → i ≤ length text
      → length text < i + fuel
      → scan tools main others fuel text i 0 [] ≡ some (length text, 0, [])
  unfolding scan
  scan_plain zero text i h k l = absurd (omega arith)
  scan_plain (suc fuel) text i h k l = elim (Bool-cases (ltb i (length text))) [
    | inl inside ↦
        rw (inside, get_or_no_dollar text i h, scan)
          (scan_plain fuel text (i + 1) h (ground arith) (omega arith))
    | inr end ↦ rw (end, scan) (ap (λ n. some (n, 0, [])) (ground arith))
  ]

  -- A text without a '$' stays as it is, if its size fits the 32 bits that the code keeps it in.
  pub resolve_plain :
      (text : Text)
      → HasNoDollar text
      → length text < 2 ^ 32
      → resolve tools main others text ≡ some text
  unfolding resolve finish
  resolve_plain text h small =
      ap (Option.map (finish tools main others text))
        (scan_plain (suc (length text)) text 0 h (omega arith) (omega arith))
      ∙ ap (λ (r : Text). some r) (whole text small)
    where
      whole : (t : Text) → length t < 2 ^ 32 → finish tools main others t (length t, 0, []) ≡ t
      whole [] h = refl
      whole (c ∷ t) h = ground (arith, take_long ((length (c ∷ t) - 0) % 2 ^ 32) (c ∷ t))

  -- Bytes of a variable's name are bytes of the text.
  var_length_le : (s : Text) → var_length s ≤ length s
  unfolding var_length
  var_length_le [] = omega arith
  var_length_le (c ∷ s) = let ih = var_length_le s in ground (arith, ih)

  abbrev Ends : {A : Type 0} → Option A → Type 0
  Ends {A} o = (a : A) × (o ≡ some a)

  scan-Ends :
      (text : Text)
      → Closes tools text
      → (fuel i j : ℕ) (out : Text) → length text < 2 ^ 62
      → i ≤ length text + 1
      → 0 < fuel
      → length text < i + fuel
      → Ends (scan tools main others fuel text i j out)
  unfolding scan to_size_t
  scan-Ends text c zero i j out small k f l = absurd (omega arith)
  scan-Ends text c (suc fuel) i j out small k f l =
      let go = scan-Ends text c fuel in
      elim (Bool-cases (ltb i (length text))) [
        | inr end ↦ rw (end, scan) (_, refl)
        | inl inside ↦
            let below : i < length text = ground arith in
            elim (Bool-cases (get_or text i 0 == b'$')) [
              | inr plain ↦
                  rw (inside, plain, scan)
                    (go _ _ _ small (omega arith) (omega arith) (omega arith))
              | inl dollar ↦
                  elim (Bool-cases (
                    not (isvar (get_or text (i + 1) 0))
                    && not (get_or text (i + 1) 0 == b'{')
                    && not (get_or text (i + 1) 0 == b'$'))) [
                      | inl no_var ↦
                          rw (inside, dollar, no_var, scan)
                            (go _ _ _ small (omega arith) (omega arith) (omega arith))
                      | inr var ↦ elim (Bool-cases (get_or text (i + 1) 0 == b'$')) [
                        | inl twice ↦
                            rw (inside, dollar, var, twice, scan)
                              (go _ _ _ small (omega arith) (omega arith) (omega arith))
                        | inr once ↦ elim (Bool-cases (get_or text (i + 1) 0 == b'{')) [
                          | inl brace ↦
                              let (n, e, le) = c.at (i + 1) ((==_iff _ _).0 brace) in
                              let d = length-drop (i + 1) text in
                              rw (inside, dollar, var, once, brace, e, scan)
                                (go _ _ _ small (omega (arith, le, d)) (omega arith)
                                  (omega (arith, le, d)))
                          | inr name ↦
                              let d = length-drop (i + 1) text in
                              let v = var_length_le (drop (i + 1) text) in
                              rw (inside, dollar, var, once, name, scan)
                                (go _ _ _ small (omega (arith, v, d)) (omega arith)
                                  (omega (arith, v, d)))
                        ]
                      ]
                    ]
            ]
      ]

  -- A text of less than 2 ^ 62 bytes whose opening brackets are all closed is resolved: the loop
  -- comes to an end, and the bound on it in the model is never met.
  pub resolve_ends :
      (text : Text)
      → Closes tools text
      → length text < 2 ^ 62
      → (result : Text) × (resolve tools main others text ≡ some result)
  unfolding resolve
  resolve_ends text c small =
      let (r, e) =
        scan-Ends text c (suc (length text)) 0 0 [] small (omega arith) (omega arith)
          (omega arith) in
      (_, ap (Option.map (finish tools main others text)) e)
