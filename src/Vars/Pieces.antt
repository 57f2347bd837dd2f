-- ===== src/Vars/Pieces.antt =====
-- What resolving a text means, by its pieces.
use mcshub.Base.{
  ◌≡◌, ◌≢◌, refl, ℕ, suc, ◌+◌, ◌-◌, ◌%◌, ◌^◌, Bool, true, false, not, ◌&&◌, List, [], ◌∷◌, ◌++◌,
  ltb, ◌==◌, pos, to_size_t, Text, str, length, is_alnum, get_or, take, drop,
}
use mcshub.Vars.{Tools, Namespace, isvar, var_length, get_value, scan}

-- A byte that stands for itself; `$$`; `${name}`; and `$name`.
pub data Piece : Type 0 where
  byte : ℕ → Piece
  dollar : Piece
  braced named : Text → Piece

-- The text of the pieces.
abbrev pub render : List Piece → Text
render [] = []
render (byte c ∷ ps) = c ∷ render ps
render (dollar ∷ ps) = b'$' ∷ b'$' ∷ render ps
render (braced s ∷ ps) = b'$' ∷ b'{' ∷ (s ++ b'}' ∷ render ps)
render (named s ∷ ps) = b'$' ∷ (s ++ render ps)

-- The chunks, after the copy of the bytes from `j` up to `i`.
abbrev pub kept : Text → ℕ → ℕ → Text → Text
kept text i j out = out ++ take ((i - j) % 2 ^ 32) (drop j text)

-- A '$' before this byte starts no variable.
abbrev pub starts_none : ℕ → Bool
starts_none c = not (isvar c) && not (c == b'{') && not (c == b'$')

abbrev pub AllVar : Text → Type 0
AllVar [] = Unit {0}
AllVar (c ∷ s) = (isvar c ≡ true) × AllVar s

module _ (tools : Tools) where
  -- A '$' that stands for itself comes before a byte that starts no variable; the library finds the
  -- bracket that closes a name in brackets; a name without brackets is not empty, and ends where no
  -- byte of a name follows.
  abbrev pub AreFit : List Piece → Type 0
  AreFit [] = Unit {0}
  AreFit (byte c ∷ ps) =
      ((c == b'$') ≡ true → starts_none (get_or (render ps) 0 0) ≡ true) × AreFit ps
  AreFit (dollar ∷ ps) = AreFit ps
  AreFit (braced s ∷ ps) =
      (tools.find_closing_bracket (b'{' ∷ (s ++ b'}' ∷ render ps)) ≡ pos (length s + 2)) × AreFit ps
  AreFit (named s ∷ ps) = (s ≢ []) × AllVar s × (isvar (get_or (render ps) 0 0) ≡ false) × AreFit ps

module _ (tools : Tools) (main : Namespace) (others : List Namespace) where
  -- The value of a text: each variable is replaced by its value at the place where it stands.
  abbrev pub meaning : ℕ → List Piece → Text
  meaning i [] = []
  meaning i (byte c ∷ ps) = c ∷ meaning (i + 1) ps
  meaning i (dollar ∷ ps) = b'$' ∷ meaning (i + 2) ps
  meaning i (braced s ∷ ps) =
      get_value tools main others i (s ++ b'}' ∷ render ps) (length s)
      ++ meaning (i + (length s + 3)) ps
  meaning i (named s ∷ ps) =
      get_value tools main others i (s ++ render ps) (length s) ++ meaning (i + (length s + 1)) ps

  -- The branches of the loop's body.
  module _ (f : ℕ) (text : Text) (i j : ℕ) (out : Text) (inside : ltb i (length text) ≡ true) where
    pub step_plain :
        (get_or text i 0 == b'$') ≡ false
        → scan tools main others (suc f) text i j out ≡ scan tools main others f text (i + 1) j out
    unfolding scan
    step_plain plain = rw (inside, plain, scan) refl

    module _ (at : (get_or text i 0 == b'$') ≡ true) where
      pub step_lone :
          starts_none (get_or text (i + 1) 0) ≡ true
          → scan tools main others (suc f) text i j out
            ≡ scan tools main others f text (i + 1) j out
      unfolding scan
      step_lone alone = rw (inside, at, alone, scan) refl

      pub step_dollar :
          get_or text (i + 1) 0 ≡ b'$'
          → scan tools main others (suc f) text i j out
            ≡ scan tools main others f text (i + 2) (i + 2) (kept text i j out ++ str "$")
      unfolding scan isvar is_alnum
      step_dollar e = rw (inside, at, e, scan) refl

      pub step_braced :
          (n : ℕ)
          → get_or text (i + 1) 0 ≡ b'{'
          → tools.find_closing_bracket (drop (i + 1) text) ≡ pos n
          → scan tools main others (suc f) text i j out
            ≡ scan tools main others f text ((i + 1 + n) % 2 ^ 64) ((i + 1 + n) % 2 ^ 64) (
                kept text i j out
                ++ get_value tools main others i (drop (i + 2) text) ((n + 2 ^ 64 - 2) % 2 ^ 64))
      unfolding scan to_size_t isvar is_alnum
      step_braced n e closed = rw (inside, at, e, closed, scan) refl

      pub step_named :
          isvar (get_or text (i + 1) 0) ≡ true
          → (get_or text (i + 1) 0 == b'$') ≡ false
          → (get_or text (i + 1) 0 == b'{') ≡ false
          → scan tools main others (suc f) text i j out
            ≡ scan tools main others f text
                (i + 1 + var_length (drop (i + 1) text))
                (i + 1 + var_length (drop (i + 1) text))
                (kept text i j out
                  ++ get_value tools main others i
                      (drop (i + 1) text)
                      (var_length (drop (i + 1) text)))
      unfolding scan
      step_named var once no_brace = rw (inside, at, var, once, no_brace, scan) refl
