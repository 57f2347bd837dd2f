-- ===== src/Portal/Termination.antt =====
-- `process_from_request` and `from_handshake` call one another at most once.
use mcshub.Base.{◌≡◌, refl, ap, ℕ, suc, Bool-cases, inl, inr, pos, int_eq}
use mathlib.Core.Path.{fun_ext}
use mcshub.Exec.{Exec, ◌>>=◌}
use mcshub.Platform.{Platform}
use mcshub.Portal.{Portal, State}
use mcshub.Portal.Requests.{
  set_from_state_by_hs, fall_back, read_handshake, from_handshake, process_at, process_from,
  process_from_request,
}

module _ {pf : Platform} where
  -- The states that `set_from_state_by_hs` chooses do not call back.
  fall_back_at :
      (n : ℕ) (p : Portal pf) → fall_back (process_from (suc n)) p ≡ fall_back (process_from 1) p
  unfolding fall_back ◌>>=◌ set_from_state_by_hs process_from process_at
  fall_back_at n p = elim (Bool-cases (int_eq p.hs.state (pos 1))) [
    | inl status ↦ rw (status, set_from_state_by_hs)
    | inr other ↦ elim (Bool-cases (int_eq p.hs.state (pos 2))) [
      | inl login ↦ rw (other, login, set_from_state_by_hs)
      | inr bad ↦ rw (other, bad, set_from_state_by_hs)
    ]
  ]

  process_at_enough :
      (n : ℕ) (s : State) (p : Portal pf)
      → process_at (process_from (suc n)) s p ≡ process_at (process_from 1) s p
  unfolding process_at from_handshake
  process_at_enough n State.handshake p =
      ap (λ (faked : Exec (Portal pf) (Unit {0})). read_handshake faked p)
        (fun_ext (fall_back_at n))
  process_at_enough n other p = refl

  -- The bound on the calls back is never met: every larger one gives the same run.
  pub process_from_enough :
      (n : ℕ) (p : Portal pf) → process_from (suc (suc n)) p ≡ process_from_request p
  unfolding process_from process_from_request
  process_from_enough n p = process_at_enough n p.from_s p
