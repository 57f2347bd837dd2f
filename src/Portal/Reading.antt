-- ===== src/Portal/Reading.antt =====
-- How a gate reads a packet, on every branch.
use mcshub.Base.{
  ◌≡◌, ◌≢◌, refl, ap, ◌∙◌, arith, ℕ, ◌+◌, ◌≤◌, ◌<◌, true, false, Option, none, some, leb, leb→le, ℤ,
  pos, negsuc, int_eq, wrap_int32, to_size_t, Text, length, take, drop, Bool-cases, ◌⊎◌, inl, inr,
  ◌==◌,
}
use mcshub.Exec.{
  Result, ok, err, bad_request, negative_size, oversized, packet_format, paket_error, continue,
  pure, ◌>>=◌,
}
use mcshub.Paket.{Head, PaketType, ReadResult}
use mcshub.Platform.{Platform, Side}
use mcshub.Portal.{Portal, gate, set_input}
use mcshub.Portal.Buffers.{
  is_oversized, whole_paket, head_sized, head_found, head, read_done, paket_read,
}

-- Above the configured maximum, where -1 stands for none and any other negative number lets no packet
-- through.
abbrev pub IsOver : ℤ → ℕ → Type 0
IsOver (pos m) n = m < n
IsOver (negsuc k) n = k ≢ 0

oversized_cases :
    (n : ℕ) (m : ℤ)
    → (IsOver m n × (is_oversized n m ≡ true)) ⊎ ((¬ IsOver m n) × (is_oversized n m ≡ false))
unfolding is_oversized
oversized_cases n (pos m) = elim (Bool-cases (is_oversized n (pos m))) [
  | inl e ↦ inl (ground (arith, e), e)
  | inr e ↦ inr (λ h. ground (arith, e, h), e)
]
oversized_cases n (negsuc k) = elim (Bool-cases (k == 0)) [
  | inl e ↦ inr (λ h. ground (arith, e, h), rw e refl)
  | inr e ↦ inl (λ z. ground (arith, e, z), rw e refl)
]

abbrev to_nat : ℤ → ℕ
to_nat (pos n) = n
to_nat (negsuc k) = k

int_eq_cases :
    (s : ℤ) (n : ℕ)
    → ((s ≡ pos n) × (int_eq s (pos n) ≡ true)) ⊎ ((s ≢ pos n) × (int_eq s (pos n) ≡ false))
int_eq_cases (pos m) n = elim (Bool-cases (m == n)) [
  | inl e ↦ inl (ap pos (ground (arith, e)), e)
  | inr e ↦ inr (λ h. let q : m ≡ n = ap to_nat h in ground (arith, e, q), e)
]
int_eq_cases (negsuc k) n = inr (λ h. cc h, refl)

module _ {pf : Platform} (side : Side) (p : Portal pf) where
  abbrev pub input : Text
  input = (gate side p).input

  -- The bytes of a packet with its head, as the code counts them in 32 bits.
  abbrev pub whole : Head → ℕ → ℕ
  whole h n = to_size_t (wrap_int32 (n + h.consumed))

  -- The input starts with this head, which tells a size that is allowed.
  pub record IsHeaded (h : Head) (n : ℕ) : Type 0 where
    pub found : pf.codec.head input ≡ some h
    pub sized : h.size ≡ pos n
    pub allowed : ¬ IsOver p.shared_conf.max_packet_size n

  module _ {P : Type 0} (type : PaketType P) (old : P) where
    abbrev pub Out : Type 0
    Out = Result (Option P) × Portal pf

    -- What the library makes of so many bytes.
    abbrev pub parsed : ℕ → ReadResult P
    parsed size = type.read old (take size input)

    -- What reading does, by what stands in the input.
    pub data Reads (out : Out) : Type 0 where
      no_head : pf.codec.head input ≡ none → out ≡ (ok none, p) → Reads out
      negative :
          (h : Head) (k : ℕ)
          → pf.codec.head input ≡ some h
          → h.size ≡ negsuc k
          → out ≡ (err (bad_request negative_size), p)
          → Reads out
      too_large :
          (h : Head) (n : ℕ)
          → pf.codec.head input ≡ some h
          → h.size ≡ pos n
          → IsOver p.shared_conf.max_packet_size n
          → out ≡ (err (bad_request oversized), p)
          → Reads out
      incomplete :
          (h : Head) (n : ℕ)
          → IsHeaded h n
          → length input < whole h n
          → out ≡ (ok none, p)
          → Reads out
      unreadable :
          (h : Head) (n : ℕ)
          → IsHeaded h n
          → whole h n ≤ length input
          → (parsed (whole h n)).result ≡ none
          → out ≡ (err paket_error, p)
          → Reads out
      malformed :
          (h : Head) (n : ℕ) (s : ℤ)
          → IsHeaded h n
          → whole h n ≤ length input
          → (parsed (whole h n)).result ≡ some s
          → s ≢ pos (whole h n)
          → out ≡ (err (bad_request packet_format), p)
          → Reads out
      taken :
          (h : Head) (n : ℕ)
          → IsHeaded h n
          → whole h n ≤ length input
          → (parsed (whole h n)).result ≡ some (pos (whole h n))
          → out ≡ (ok (some (parsed (whole h n)).paket), set_input side (drop (whole h n) input) p)
          → Reads out

    -- What follows the head.
    abbrev then : Option (ℤ × ℕ) → Portal pf → Out
    then = elim [
      | none ↦ pure none
      | some (id, size) ↦
          λ q. let r = type.read old (take size (gate side q).input) in read_done side type size r q
    ]

    done_Reads :
        (h : Head) (n : ℕ) (o : Option ℤ)
        → IsHeaded h n
        → whole h n ≤ length input
        → (parsed (whole h n)).result ≡ o
        → Reads (read_done side type (whole h n) (parsed (whole h n)) p)
    unfolding read_done
    done_Reads h n none a le e = unreadable h n a le e (rw (e, read_done) refl)
    done_Reads h n (some s) a le e = elim (int_eq_cases s (whole h n)) [
      | inl (same, t) ↦
          taken h n a le (e ∙ ap (λ (x : ℤ). some x) same) (rw (e, read_done) (rw t refl))
      | inr (other, t) ↦ malformed h n s a le e other (rw (e, read_done) (rw t refl))
    ]

    whole_Reads : (h : Head) (n : ℕ) → IsHeaded h n → Reads (then (whole_paket h n p side) p)
    unfolding whole_paket pure
    whole_Reads h n a = elim (Bool-cases (leb (whole h n) (length input))) [
      | inl inside ↦ rw (inside, whole_paket) (done_Reads h n _ a (leb→le _ _ inside) refl)
      | inr outside ↦ rw (outside, whole_paket) (incomplete h n a (ground (arith, outside)) refl)
    ]

    sized_Reads :
        (h : Head) (z : ℤ)
        → pf.codec.head input ≡ some h
        → h.size ≡ z
        → Reads (continue (head_sized side p h z) then p)
    unfolding head_sized
    sized_Reads h (negsuc k) e s = negative h k e s refl
    sized_Reads h (pos n) e s = elim (oversized_cases n p.shared_conf.max_packet_size) [
      | inl (over, t) ↦ rw (t, head_sized) (too_large h n e s over refl)
      | inr (under, t) ↦
          rw (t, head_sized) (whole_Reads h n (record { found = e; sized = s; allowed = under }))
    ]

    found_Reads :
        (o : Option Head) → pf.codec.head input ≡ o → Reads (continue (head_found side p o) then p)
    unfolding head_found pure
    found_Reads none e = no_head e refl
    found_Reads (some h) e = sized_Reads h h.size e refl

    -- Reading a packet that is stored nowhere else changes nothing and returns nothing where the input
    -- has no head yet or not all of the packet; changes nothing and throws where the size is negative
    -- or above the maximum, where the library throws, or where it has read another number of bytes than
    -- the packet has; and otherwise returns the packet and takes its bytes, and no others, from the
    -- start of the input.
    pub paket_read_cases : Reads (paket_read side type old (λ x q. q) p)
    unfolding paket_read head ◌>>=◌
    paket_read_cases = found_Reads (pf.codec.head input) refl
