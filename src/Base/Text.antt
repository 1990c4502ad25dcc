-- ===== src/Base/Text.antt =====
-- Python's `str` as a list of code points, with the methods that the program calls.
pub mod Laws
pub mod Strip
use Prim.Native.Nat.{ℕ, suc, ◌-◌}
use Prim.Native.Char.{code}
use Prim.Native.String.{String}
use mathlib.Core.Path.{◌≡◌, refl}
use mathlib.Core.Logic.{◌↔◌}
use mathlib.Core.Bool.{Bool, true, false, ◌&&◌, ◌||◌}
use mathlib.Core.Option.{Option, none, some}
use mathlib.Core.List.{List, [], ◌∷◌, ◌++◌}
use native.Mathlib.Omega.{arith}
use agentic_loop_template.Base.Tests.{leb, ◌==◌, if◌then◌else◌}

abbrev pub Text : Type 0
Text = List ℕ

-- A literal: its code points.
abbrev pub text : String → Text
text String.[] = []
text (String.◌∷◌ c s) = code c ∷ text s

abbrev pub is_empty {ℓ} : {A : Type ℓ} → List A → Bool
is_empty [] = true
is_empty (x ∷ xs) = false

-- `s == t`
unfoldable pub text_eq : Text → Text → Bool
text_eq [] [] = true
text_eq [] (d ∷ t) = false
text_eq (c ∷ s) [] = false
text_eq (c ∷ s) (d ∷ t) = c == d && text_eq s t

pub text_eq_iff : (s t : Text) → (text_eq s t ≡ true) ↔ (s ≡ t)
unfolding text_eq
text_eq_iff [] [] = ground arith
text_eq_iff [] (d ∷ t) = ground arith
text_eq_iff (c ∷ s) [] = ground arith
text_eq_iff (c ∷ s) (d ∷ t) = ground (arith, text_eq_iff s t)

pub text_eq_refl : (s : Text) → text_eq s s ≡ true
text_eq_refl s = (text_eq_iff s s).1 refl

-- `s.startswith(p)`
unfoldable pub starts_with : Text → Text → Bool
starts_with s [] = true
starts_with [] (c ∷ p) = false
starts_with (d ∷ s) (c ∷ p) = c == d && starts_with s p

-- `s.endswith(c)` for one character
unfoldable pub ends_with_char : ℕ → Text → Bool
ends_with_char c [] = false
ends_with_char c (d ∷ []) = d == c
ends_with_char c (d ∷ e ∷ s) = ends_with_char c (e ∷ s)

-- Drop from the left, or from the right, the characters that pass a test.
unfoldable pub lstrip_by : (ℕ → Bool) → Text → Text
lstrip_by p [] = []
lstrip_by p (c ∷ s) = if p c then lstrip_by p s else c ∷ s

unfoldable pub rstrip_by : (ℕ → Bool) → Text → Text
rstrip_by p [] = []
rstrip_by p (c ∷ s) = let r = rstrip_by p s in if p c && is_empty r then [] else c ∷ r

-- The characters that `str.strip()` removes.
unfoldable pub is_space : ℕ → Bool
is_space c =
    leb 9 c && leb c 13
    || leb 28 c && leb c 32
    || c == 133
    || c == 160
    || c == 5760
    || leb 8192 c && leb c 8202
    || c == 8232
    || c == 8233
    || c == 8239
    || c == 8287
    || c == 12288

-- `s.strip()`
unfoldable pub strip : Text → Text
strip s = rstrip_by is_space (lstrip_by is_space s)

-- `s.split(c)`: never empty.
unfoldable pub split_on : ℕ → Text → List Text
split_on c [] = [] ∷ []
split_on c (d ∷ s) = elim (split_on c s) [
  | [] ↦ (d ∷ []) ∷ []
  | w ∷ ws ↦ if d == c then [] ∷ w ∷ ws else (d ∷ w) ∷ ws
]

-- `s.split(c, 1)`: the text before the first `c` and the text after it.
unfoldable pub partition_at : ℕ → Text → Option (Text × Text)
partition_at c [] = none
partition_at c (d ∷ s) =
    if d == c
    then some ([], s)
    else elim (partition_at c s) [ none ↦ none | some (a, b) ↦ some (d ∷ a, b) ]

-- `s.rfind(c)`, with `none` for -1.
unfoldable pub rfind : ℕ → Text → Option ℕ
rfind c [] = none
rfind c (d ∷ s) = elim (rfind c s) [
  | some i ↦ some (suc i)
  | none ↦ if d == c then some 0 else none
]

-- `s.upper()`, as far as a comparison with a word of ASCII capitals that has no F and no SS can tell: these
-- are the characters whose capitals are ASCII letters of such a word.
unfoldable pub upper_char : ℕ → Text
upper_char c =
    if leb b'a' c && leb c b'z'
    then (c - 32) ∷ []
    else if c == 305
    then b'I' ∷ []
    else if c == 383
    then b'S' ∷ []
    else if c == 64261 || c == 64262
    then b'S' ∷ b'T' ∷ []
    else c ∷ []

unfoldable pub upper : Text → Text
unfolding upper_char
upper [] = []
upper (c ∷ s) = upper_char c ++ upper s
