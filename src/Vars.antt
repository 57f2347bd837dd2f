-- ===== src/Vars.antt =====
-- src/response_props.hpp: `vars_manager`, which replaces the variables of a status or login text.
pub mod Laws
pub mod Pieces
pub mod Position
pub mod Meaning
pub mod Division
use mathlib.Core.Option
use mcshub.Base.{
  ℕ, zero, suc, ◌+◌, ◌-◌, ◌%◌, ◌^◌, Bool, true, false, not, ◌&&◌, ◌||◌, Option, none, some, List,
  [], ◌∷◌, ◌++◌, ltb, ◌==◌, if◌then◌else◌, ℤ, to_size_t, Text, str, text_eq, is_alnum, length,
  get_or, take, drop,
}

-- What the code uses of `ekutils/parse_essentials.hpp`. `trim_string` moves the start of a text by
-- the first number and leaves as many bytes as the second one says; `find_char` finds a colon.
pub record Tools : Type 0 where
  pub find_closing_bracket : Text → ℤ
  pub trim_string : Text → ℕ × ℕ
  pub find_char : Text → Option ℕ

-- One variable type: its `name`, and its `operator[]`. A random value may depend on where the
-- variable stands.
pub record Namespace : Type 0 where
  pub name : Text
  pub lookup : ℕ → Text → Text

unfoldable pub find_in_next : List Namespace → Text → ℕ → Text → Text
find_in_next [] ns at name = str "{ NO NSPA }"
find_in_next (v ∷ vs) ns at name =
    if text_eq v.name ns then v.lookup at name else find_in_next vs ns at name

unfoldable pub isvar : ℕ → Bool
isvar c = is_alnum c || c == b':' || c == b'_'

-- `for (t = 0; isvar(str[i + t]); t++);`
unfoldable pub var_length : Text → ℕ
var_length [] = 0
var_length (c ∷ s) = if isvar c then suc (var_length s) else 0

module _ (tools : Tools) (main : Namespace) (others : List Namespace) where
  -- `str` is all that stands from the pointer on.
  unfoldable pub get_value : ℕ → Text → ℕ → Text
  get_value at text len =
      let (a, n) = tools.trim_string (take len text) in
      let s = drop a text in
      elim (tools.find_char (take n s)) [
        | none ↦ main.lookup at (take n s)
        | some d ↦
            let (b, m) = tools.trim_string (take d s) in
            let s' = drop b s in
            let ns = take m s' in
            let name_raw = drop (d + 1) s' in
            let (c, k) = tools.trim_string (take (n - d - 1) name_raw) in
            find_in_next (main ∷ others) ns at (take k (drop c name_raw))
      ]

  -- The loop: `i`, `j` and the chunks so far. `none` means that the fuel ran out.
  unfoldable pub scan : ℕ → Text → ℕ → ℕ → Text → Option (ℕ × ℕ × Text)
  scan zero text i j out = none
  scan (suc fuel) text i j out =
      let c = get_or text (i + 1) 0 in
      let plain = scan fuel text (i + 1) j out in
      let out' = out ++ take ((i - j) % 2 ^ 32) (drop j text) in
      let dollar = scan fuel text (i + 2) (i + 2) (out' ++ str "$") in
      let braced =
        let t = to_size_t (tools.find_closing_bracket (drop (i + 1) text)) in
        let value = get_value i (drop (i + 2) text) ((t + 2 ^ 64 - 2) % 2 ^ 64) in
        let next = (i + 1 + t) % 2 ^ 64 in scan fuel text next next (out' ++ value) in
      let named =
        let t = var_length (drop (i + 1) text) in
        let value = get_value i (drop (i + 1) text) t in
        scan fuel text (i + 1 + t) (i + 1 + t) (out' ++ value) in
      if not (ltb i (length text))
      then some (i, j, out)
      else if not (get_or text i 0 == b'$')
      then plain
      else if not (isvar c) && not (c == b'{') && not (c == b'$')
      then plain
      else if c == b'$'
      then dollar
      else if c == b'{'
      then braced
      else named

  unfoldable pub finish : Text → ℕ × ℕ × Text → Text
  finish text (i, j, out) = if i == j then out else out ++ take ((i - j) % 2 ^ 32) (drop j text)

  unfoldable pub resolve : Text → Option Text
  unfolding scan finish
  resolve text = Option.map (finish text) (scan (suc (length text)) text 0 0 [])
