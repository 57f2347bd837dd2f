-- ===== src/Workers/Places.antt =====
-- The places of a worker's clients, numbered along its list.
use mcshub.Base.{
  ◌≡◌, ◌≢◌, refl, arith, ℕ, ◌<◌, ◌≤◌, true, false, none, some, List, [], ◌∷◌, if◌then◌else◌, ◌==◌,
  Bool-cases, inl, inr,
}
use mcshub.Exec.{Result, ok, err, crash}
use mcshub.Workers.{client_at, put, erase_at, with_rest}

module _ {C : Type 0} where
  -- The numbers fall along the list, from below `n`.
  abbrev pub Numbered : ℕ → List (ℕ × C) → Type 0
  Numbered n [] = Unit {0}
  Numbered n ((j, c) ∷ more) = (j < n) × Numbered j more

  pub Numbered-le : (m n : ℕ) (l : List (ℕ × C)) → m ≤ n → Numbered m l → Numbered n l
  Numbered-le m n [] le h = tt
  Numbered-le m n ((j, c) ∷ more) le h = (omega (arith, h.0), h.1)

  pub put-Numbered : (n i : ℕ) (c : C) (l : List (ℕ × C)) → Numbered n l → Numbered n (put i c l)
  unfolding put
  put-Numbered n i c [] h = tt
  put-Numbered n i c ((j, d) ∷ more) h = elim (Bool-cases (j == i)) [
    | inl e ↦ rw e h
    | inr e ↦ rw e (h.0, put-Numbered j i c more h.1)
  ]

  pub erase-Numbered : (n i : ℕ) (l : List (ℕ × C)) → Numbered n l → Numbered n (erase_at i l)
  unfolding erase_at
  erase-Numbered n i [] h = tt
  erase-Numbered n i ((j, d) ∷ more) h = elim (Bool-cases (j == i)) [
    | inl e ↦ rw e (Numbered-le j n more (omega (arith, h.0)) h.1)
    | inr e ↦ rw e (h.0, erase-Numbered j i more h.1)
  ]

  pub client_at-put :
      (i j : ℕ) (c : C) (l : List (ℕ × C)) → j ≢ i → client_at j (put i c l) ≡ client_at j l
  unfolding client_at put
  client_at-put i j c [] h = refl
  client_at-put i j c ((k, d) ∷ more) h = ground (arith, client_at-put i j c more)

  pub client_at-erase :
      (i j : ℕ) (l : List (ℕ × C)) → j ≢ i → client_at j (erase_at i l) ≡ client_at j l
  unfolding client_at erase_at
  client_at-erase i j [] h = refl
  client_at-erase i j ((k, d) ∷ more) h = ground (arith, client_at-erase i j more)

  pub client_at-put_self :
      (i : ℕ) (b c : C) (l : List (ℕ × C))
      → client_at i l ≡ some b
      → client_at i (put i c l) ≡ some c
  unfolding client_at put
  client_at-put_self i b c [] h = cc
  client_at-put_self i b c ((k, d) ∷ more) h = ground (arith, client_at-put_self i b c more)

  pub client_at-above : (n i : ℕ) (l : List (ℕ × C)) → n ≤ i → Numbered n l → client_at i l ≡ none
  unfolding client_at
  client_at-above n i [] le h = refl
  client_at-above n i ((k, d) ∷ more) le h =
      ground (arith, h.0, client_at-above k i more (omega (arith, h.0)) h.1)

  pub client_at-erase_self :
      (n i : ℕ) (l : List (ℕ × C)) → Numbered n l → client_at i (erase_at i l) ≡ none
  unfolding client_at erase_at
  client_at-erase_self n i [] h = refl
  client_at-erase_self n i ((k, d) ∷ more) h = elim (Bool-cases (k == i)) [
    | inl e ↦ rw e (client_at-above k i more (ground arith) h.1)
    | inr e ↦ rw (e, client_at, e) (client_at-erase_self k i more h.1)
  ]

  pub with_rest-Numbered :
      (n i : ℕ) (m : Result (Unit {0}) × C) (out : Result (Unit {0}) × List (ℕ × C))
      (more : List (ℕ × C))
      → i < n
      → Numbered i more
      → Numbered i out.1
      → Numbered n (with_rest i m out more).1
  unfolding with_rest
  with_rest-Numbered n i (ok _, c) (r, rest) more lt h k = (lt, k)
  with_rest-Numbered n i (err e, c) out more lt h k = (lt, h)
  with_rest-Numbered n i (crash, c) out more lt h k = (lt, h)

eq_place : (i j : ℕ) → (i == j) ≡ true → i ≡ j
eq_place i j e = ground arith

ne_place : (i j : ℕ) → (i == j) ≡ false → j ≢ i
ne_place i j e = λ p. ground arith

module _ {C : Type 0} where
  pub put_same :
      (i j : ℕ) (b c : C) (l : List (ℕ × C))
      → client_at i l ≡ some b
      → client_at j (put i c l) ≡ (if i == j then some c else client_at j l)
  put_same i j b c l h = elim (Bool-cases (i == j)) [
    | inl e ↦ rw (e, ← (eq_place i j e)) (client_at-put_self i b c l h)
    | inr e ↦ rw e (client_at-put i j c l (λ p. ne_place i j e p))
  ]

  pub erase_same :
      (n i j : ℕ) (l : List (ℕ × C))
      → Numbered n l
      → client_at j (erase_at i l) ≡ (if i == j then none else client_at j l)
  erase_same n i j l h = elim (Bool-cases (i == j)) [
    | inl e ↦ rw (e, ← (eq_place i j e)) (client_at-erase_self n i l h)
    | inr e ↦ rw e (client_at-erase i j l (λ p. ne_place i j e p))
  ]
