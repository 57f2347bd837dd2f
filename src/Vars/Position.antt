-- ===== src/Vars/Position.antt =====
-- Where the loop of `resolve` stands in its text.
use mcshub.Base.{
  ◌≡◌, sym, ap, ◌∙◌, ℕ, ◌+◌, ◌-◌, ◌%◌, ◌^◌, ◌≤◌, ◌<◌, true, [], ◌∷◌, ◌++◌, append_assoc, ltb, ◌==◌,
  arith, Text, length, length-append, length-drop, take-append, drop-append, drop_add, get_or-drop,
  get_or, take, drop,
}

-- Where the loop stands: the bytes from `j` on are the ones that it has still to copy, then what it
-- has still to read, from `i` on.
pub record At (text : Text) (i j : ℕ) (pending rest : Text) : Type 0 where
  pub from_j : drop j text ≡ pending ++ rest
  pub distance : i ≡ j + length pending
  pub bound : j ≤ length text

module _ (text : Text) (i j : ℕ) (pending rest : Text) (a : At text i j pending rest) where
  pub from_i : drop i text ≡ rest
  from_i =
      ap (λ n. drop n text) a.distance
      ∙ drop_add j (length pending) text
      ∙ ap (drop (length pending)) a.from_j
      ∙ drop-append pending rest

  pub measured : length text ≡ i + length rest
  measured =
      let l = length-drop j text in
      let e = ap length a.from_j in
      let m = length-append pending rest in
      let d = a.distance in let b = a.bound in omega (arith, l, e, m, d, b)

  pub byte_at : (k : ℕ) → get_or text (i + k) 0 ≡ get_or rest k 0
  byte_at k = get_or-drop i k text 0 ∙ ap (λ (t : Text). get_or t k 0) from_i

  pub byte_here : get_or text i 0 ≡ get_or rest 0 0
  byte_here = ap (λ n. get_or text n 0) (omega arith) ∙ byte_at 0

  pub from : (k : ℕ) → drop (i + k) text ≡ drop k rest
  from k = drop_add i k text ∙ ap (drop k) from_i

  pub jump :
      (m : ℕ) (later : Text)
      → drop m rest ≡ later
      → m ≤ length rest
      → At text (i + m) (i + m) [] later
  jump m later e le = record {
    from_j = from m ∙ e;
    distance = omega arith;
    bound = omega (arith, measured);
  }

  pub mark : get_or rest 0 0 ≡ b'$' → (get_or text i 0 == b'$') ≡ true
  mark e = ap (λ b. b == b'$') (byte_here ∙ e)

  pub inside : 0 < length rest → ltb i (length text) ≡ true
  inside h = let m = measured in ground (arith, m, h)

  pub copied : length text < 2 ^ 32 → take ((i - j) % 2 ^ 32) (drop j text) ≡ pending
  copied small =
      let m = measured in
      let d = a.distance in
      ap (λ (n : ℕ). take n (drop j text)) (omega (arith, m, d, small))
      ∙ ap (take (length pending)) a.from_j
      ∙ take-append pending rest

pub keep :
    (text : Text) (i j : ℕ) (pending rest : Text) (c : ℕ)
    → At text i j pending (c ∷ rest)
    → At text (i + 1) j (pending ++ c ∷ []) rest
keep text i j pending rest c a = record {
  from_j = a.from_j ∙ sym (append_assoc pending (c ∷ []) rest);
  distance = omega (arith, a.distance, length-append pending (c ∷ []));
  bound = a.bound;
}
