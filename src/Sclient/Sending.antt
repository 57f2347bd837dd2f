-- ===== src/Sclient/Sending.antt =====
-- The loop of `write` sends every byte.
use native.Mathlib.Nat.{zero-add, suc-add}
use mcshub.Base.{
  ◌≡◌, refl, sym, ap, subst, ◌∙◌, inl, inr, ℕ, zero, suc, ◌+◌, ◌^◌, ◌≤◌, ◌<◌, [], ◌∷◌, ◌++◌,
  append_assoc, append-nil, arith, length, take, drop, length-drop, take-append-drop, ltb,
  Bool-cases, true, false, pos, to_size_t, Text,
}
use mcshub.Exec.{Result, ok, ◌>>=◌}
use mcshub.Sclient.{Network, Sclient, write_loop, write}
use mcshub.Sclient.Loops.{Reliable, small_mod, nonempty}

drop-nil : (n : ℕ) → drop {A = ℕ} n [] ≡ []
drop-nil zero = refl
drop-nil (suc n) = refl

drop_drop : (m n : ℕ) (xs : Text) → drop n (drop m xs) ≡ drop (m + n) xs
drop_drop zero n xs = rw zero-add
drop_drop (suc m) n [] = drop-nil n ∙ sym (drop-nil (suc m + n))
drop_drop (suc m) n (x ∷ xs) = rw suc-add (drop_drop m n xs)

drop_long : (n : ℕ) (xs : Text) → length xs ≤ n → drop n xs ≡ []
drop_long zero [] h = refl
drop_long zero (x ∷ xs) h = absurd (omega arith)
drop_long (suc n) [] h = refl
drop_long (suc n) (x ∷ xs) h = drop_long n xs (omega arith)

ltb-true : (a b : ℕ) → ltb a b ≡ true → a < b
ltb-true a b h = ground arith

ltb_le : (a b : ℕ) → ltb a b ≡ false → b ≤ a
ltb_le a b h = ground arith

module _ {net : Network} where
  abbrev after_write : Text → Sclient net → Sclient net
  after_write b c = record c { world = (net.write b c.world).1 }

  write_loop_end :
      (fuel received : ℕ) (text : Text) (c : Sclient net)
      → ltb received (length text) ≡ false
      → write_loop (suc fuel) text received c ≡ (ok tt, c)
  unfolding write_loop
  write_loop_end fuel received text c h = rw (h) refl

  write_loop_step :
      (fuel received k : ℕ) (text : Text) (c : Sclient net)
      → ltb received (length text) ≡ true
      → (net.write (drop received text) c.world).0 ≡ ok (pos k)
      → received + k < 2 ^ 64
      → write_loop (suc fuel) text received c
        ≡ write_loop fuel text (received + k) (after_write (drop received text) c)
  unfolding write_loop ◌>>=◌ to_size_t
  write_loop_step fuel received k text c h e small = rw (h, e, small_mod (received + k) small) refl

module _ {net : Network} (law : Reliable net) where
  -- Between `c` and the outcome, the client has sent `text`, and read nothing.
  pub record Written (text : Text) (c : Sclient net) (out : Result (Unit {0}) × Sclient net)
      : Type 0 where
    pub returned : out.0 ≡ ok tt
    pub went : law.sent out.1.world ≡ law.sent c.world ++ text
    pub left : law.pending out.1.world ≡ law.pending c.world
    pub buffer : out.1.in_buff ≡ c.in_buff
    pub kept : out.1.conns ≡ c.conns

  Written-step :
      (text : Text) (k : ℕ) (c : Sclient net) (out : Result (Unit {0}) × Sclient net)
      (d : Sclient net)
      → law.sent d.world ≡ law.sent c.world ++ take k text
      → law.pending d.world ≡ law.pending c.world
      → d.in_buff ≡ c.in_buff
      → d.conns ≡ c.conns
      → Written (drop k text) d out
      → Written text c out
  Written-step text k c out d sent pending buffer kept f = record {
    returned = f.returned;
    went =
        f.went
        ∙ ap (λ (t : Text). t ++ drop k text) sent
        ∙ append_assoc (law.sent c.world) (take k text) (drop k text)
        ∙ ap (λ (t : Text). law.sent c.world ++ t) (take-append-drop k text);
    left = f.left ∙ pending;
    buffer = f.buffer ∙ buffer;
    kept = f.kept ∙ kept;
  }

  write_loop_lem :
      (fuel received : ℕ) (text : Text) (c : Sclient net)
      → received ≤ length text
      → length text < 2 ^ 64
      → length text < received + fuel
      → Written (drop received text) c (write_loop fuel text received c)
  write_loop_lem zero received text c le small enough = absurd (omega arith)
  write_loop_lem (suc fuel) received text c le small enough =
      elim (Bool-cases (ltb received (length text))) [
        | inr done ↦
            rw (write_loop_end fuel received text c done, drop_long received text (ltb_le _ _ done))
              (record {
                returned = refl;
                went = sym (append-nil (law.sent c.world));
                left = refl;
                buffer = refl;
                kept = refl;
              })
        | inl more ↦
            let rest = drop received text in
            let cut = length-drop received text in
            let lt = ltb-true received (length text) more in
            let (k, some_sent, fits, returned, sent, pending) =
              law.write_takes rest c.world (nonempty 0 rest (omega (arith, cut))) in
            let e = write_loop_step fuel received k text c more returned (omega (arith, cut)) in
            subst (Written rest c) (sym e) (
              Written-step rest k c _ (after_write rest c) sent pending refl refl (
                subst
                  (λ (t : Text).
                    Written t (after_write rest c)
                      (write_loop fuel text (received + k) (after_write rest c)))
                  (sym (drop_drop received k text))
                  (write_loop_lem fuel (received + k) text (after_write rest c) (omega (arith, cut))
                    small (omega (arith, cut)))))
      ]

  -- `write` sends the whole text and returns, however little the socket takes at a time, if the text
  -- has a size of 64 bits.
  pub write-Written :
      (text : Text) (c : Sclient net) → length text < 2 ^ 64 → Written text c (write text c)
  unfolding write
  write-Written text c small =
      write_loop_lem (suc (length text)) 0 text c (omega arith) small (omega arith)
