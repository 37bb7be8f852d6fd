-- ===== src/Common/Strings.antt =====
-- Text as a list of code points, with the methods of Python's `str` that the program calls. Letters
-- are lowered in the ASCII range.
use Prim.Native.Nat.{ℕ, ◌+◌, ◌-◌, ◌*◌}
use Prim.Native.Char.{code}
use Prim.Native.String.{String}
use mathlib.Core.Path.{◌≡◌, refl}
use mathlib.Core.Bool.{Bool, true, false, ◌&&◌, ◌||◌}
use mathlib.Core.Option.{Option, none, some}
use mathlib.Core.List.{List, [], ◌∷◌, map, reverse}
use native.Mathlib.Omega.{arith}
use syncore.Common.Tests.{◌==◌, leb, if◌then◌else◌}
use syncore.Common.Integers.{ℤ, pos, sub_ℕ}

abbrev pub Text : Type 0
Text = List ℕ

abbrev pub codes : String → Text
codes String.[] = []
codes (String.◌∷◌ c s) = code c ∷ codes s

abbrev pub text_eq : Text → Text → Bool
text_eq [] [] = true
text_eq [] (y ∷ ys) = false
text_eq (x ∷ xs) [] = false
text_eq (x ∷ xs) (y ∷ ys) = (x == y) && text_eq xs ys

pub text_eq→eq : (a b : Text) → text_eq a b ≡ true → a ≡ b
text_eq→eq [] [] h = refl
text_eq→eq [] (y ∷ ys) h = absurd (ground arith)
text_eq→eq (x ∷ xs) [] h = absurd (ground arith)
text_eq→eq (x ∷ xs) (y ∷ ys) h = ground (arith, text_eq→eq xs ys)

pub text_eq_refl : (a : Text) → text_eq a a ≡ true
text_eq_refl [] = refl
text_eq_refl (x ∷ xs) = ground (arith, text_eq_refl xs)

abbrev pub is_empty : Text → Bool
is_empty [] = true
is_empty (c ∷ s) = false

-- `str.isspace` on ASCII
abbrev pub is_space : ℕ → Bool
is_space c = c == 32 || (leb 9 c && leb c 13) || (leb 28 c && leb c 31)

abbrev pub is_digit : ℕ → Bool
is_digit c = leb 48 c && leb c 57

abbrev pub lstrip : Text → Text
lstrip [] = []
lstrip (c ∷ s) = let rest = lstrip s in if is_space c then rest else c ∷ s

abbrev pub strip : Text → Text
strip s = reverse (lstrip (reverse (lstrip s)))

abbrev pub lower_code : ℕ → ℕ
lower_code c = if leb 65 c && leb c 90 then c + 32 else c

-- `s.lower()`
abbrev pub lower : Text → Text
lower = map lower_code

abbrev pub upper_code : ℕ → ℕ
upper_code c = if leb 97 c && leb c 122 then c - 32 else c

abbrev pub upper : Text → Text
upper = map upper_code

-- `text.startswith(prefix)`
abbrev pub starts_with : Text → Text → Bool
starts_with s [] = true
starts_with [] (p ∷ ps) = false
starts_with (c ∷ s) (p ∷ ps) = (c == p) && starts_with s ps

-- `needle in text`
abbrev pub contains : Text → Text → Bool
contains [] needle = is_empty needle
contains (c ∷ s) needle = starts_with (c ∷ s) needle || contains s needle

-- the digits of `int(text)`: one underscore may stand between two digits
abbrev pub digits : Bool → ℕ → Text → Option ℕ
digits after n [] = if after then some n else none
digits after n (c ∷ s) =
    let digit = digits true (n * 10 + (c - 48)) s in
    let underscore = digits false n s in
    if is_digit c then digit else if after && c == 95 then underscore else none

abbrev pub signed : Text → Option ℤ
signed [] = none
signed (c ∷ s) =
    if c == 45
    then elim (digits false 0 s) [ none ↦ none | some n ↦ some (sub_ℕ 0 n) ]
    else if c == 43
    then elim (digits false 0 s) [ none ↦ none | some n ↦ some (pos n) ]
    else elim (digits false 0 (c ∷ s)) [ none ↦ none | some n ↦ some (pos n) ]

-- `int(text)`, and none for ValueError
abbrev pub parse_int : Text → Option ℤ
parse_int s = signed (strip s)

-- `text.split(separator)` at one character
abbrev pub split_at : ℕ → Text → Text → List Text
split_at sep piece [] = reverse piece ∷ []
split_at sep piece (c ∷ s) =
    if c == sep then reverse piece ∷ split_at sep [] s else split_at sep (c ∷ piece) s

abbrev pub split : ℕ → Text → List Text
split sep s = split_at sep [] s
