-- ===== src/Workers/Ports.antt =====
-- All workers listen on one port.
use Prim.Native.Nat.{bit_or}
use mcshub.Base.{
  ◌≡◌, ◌≢◌, refl, ap, ◌∙◌, arith, ℕ, zero, suc, replicate, ◌==◌, Bool-cases, inl, inr, List,
}
use mcshub.Base.Bits.{bit_or-zero, bit_or-zero_right, bit_or_self}
use mcshub.Exec.{Exec, Result, ok, pure, ◌>>=◌}
use mcshub.Settings.{Settings}
use mcshub.Workers.{Parts, Worker, new_worker, PortBinder, start, start_all}

-- What the workers rely on of the system: `listen` returns with a port that is not 0, and with the port
-- that is asked for, if that is not 0. The option `reuse_port` lets several sockets have one port.
pub record Binds (net : PortBinder) : Type 0 where
  pub bound : List ℕ → ℕ → net.World → ℕ
  pub returns : (a : List ℕ) (p : ℕ) (w : net.World) → (net.listen a p w).0 ≡ ok (bound a p w)
  pub asked : (a : List ℕ) (p : ℕ) (w : net.World) → p ≢ 0 → bound a p w ≡ p
  pub chosen : (a : List ℕ) (w : net.World) → bound a 0 w ≢ 0

bind_at :
    {S A B : Type 0} (m : Exec S A) (f : A → Exec S B) (s : S) (a : A)
    → (m s).0 ≡ ok a
    → (m >>= f) s ≡ f a (m s).1
unfolding ◌>>=◌
bind_at m f s a e = rw e refl

module _ {net : PortBinder} {pt : Parts} (law : Binds net) (c : Settings) where
  start_lem :
      (r p : ℕ) (w : net.World)
      → bit_or c.port r ≡ p
      → (start net pt c r w).0 ≡ ok (law.bound c.address p w, new_worker)
  unfolding start ◌>>=◌ pure
  start_lem r p w e = rw (e, law.returns c.address p w) refl

  start_same :
      (n r p : ℕ) (w : net.World)
      → bit_or c.port r ≡ p
      → bit_or c.port p ≡ p
      → p ≢ 0
      → (start_all net pt n c r w).0 ≡ ok (replicate n (p, new_worker))
  unfolding start_all pure
  start_same zero r p w e k some_port = refl
  start_same (suc n) r p w e k some_port =
      let s =
        start_lem r p w e
        ∙ ap (λ (q : ℕ). ok (q, new_worker)) (law.asked c.address p w some_port) in
      let v = (start net pt c r w).1 in
      let rest = start_same n p p v k k some_port in
      ap (λ (o : Result (List (ℕ × Worker pt)) × net.World). o.0)
        (bind_at (start net pt c r) _ w (p, new_worker) s
          ∙ bind_at (start_all net pt n c p) _ v (replicate n (p, new_worker)) rest)

  -- `thread_controller` starts the workers of the configuration, all on one port that is not 0: the
  -- configured one, or, where the configuration says 0, the one that the system has chosen for the
  -- first.
  pub start_all_lem :
      (n : ℕ) (w : net.World)
      → (p : ℕ) × (p ≢ 0)
        × (c.port ≢ 0 → p ≡ c.port)
        × ((start_all net pt n c 0 w).0 ≡ ok (replicate n (p, new_worker)))
  unfolding start_all pure
  start_all_lem n w = elim (Bool-cases (c.port == 0)) [
    | inr set ↦
        let some_port : c.port ≢ 0 = λ e. ground arith in
        (
          c.port,
          some_port,
          λ h. refl,
          start_same n 0 c.port w (bit_or-zero_right c.port) (bit_or_self c.port) some_port,
        )
    | inl unset ↦ chosen n (ground arith)
  ]
    where
      chosen :
          (m : ℕ)
          → c.port ≡ 0
          → (p : ℕ) × (p ≢ 0)
            × (c.port ≢ 0 → p ≡ c.port)
            × ((start_all net pt m c 0 w).0 ≡ ok (replicate m (p, new_worker)))
      chosen zero h = (1, (λ e. omega arith), (λ k. absurd (k h)), refl)
      chosen (suc m) h =
          let p = law.bound c.address 0 w in
          let s = start_lem 0 0 w (bit_or-zero_right c.port ∙ h) in
          let v = (start net pt c 0 w).1 in
          let same : bit_or c.port p ≡ p = rw h (bit_or-zero p) in
          let rest = start_same m p p v same same (law.chosen c.address w) in
          (
            p,
            law.chosen c.address w,
            (λ k. absurd (k h)),
            ap (λ (o : Result (List (ℕ × Worker pt)) × net.World). o.0)
                (bind_at (start net pt c 0) _ w (p, new_worker) s
                  ∙ bind_at (start_all net pt m c p) _ v (replicate m (p, new_worker)) rest),
          )
