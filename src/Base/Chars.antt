-- ===== src/Base/Chars.antt =====
-- JavaScript strings: sequences of UTF-16 code units, and what the program does with them.
use Prim.Native.Char.{code}
use Prim.Native.Nat.{ℕ, ◌+◌, ◌*◌, ◌%◌}
use Prim.Native.String.{String}
use mathlib.Core.Path.{◌≡◌, refl}
use mathlib.Core.Logic.{◌↔◌}
use mathlib.Core.Bool.{Bool, true, false, ◌&&◌, ◌||◌}
use mathlib.Core.List.{List, [], ◌∷◌, reverse, ◌++◌}
use native.Mathlib.Omega.{arith}
use nodel_mcp.Base.Tests.{leb, ltb, ◌==◌, if◌then◌else◌}

abbrev pub Text : Type 0
Text = List ℕ

-- The code units of an ASCII literal.
abbrev pub codes : String → Text
codes String.[] = []
codes (String.◌∷◌ c s) = code c ∷ codes s

-- `a === b`
unfoldable pub text_eq : Text → Text → Bool
text_eq [] [] = true
text_eq [] (y ∷ ys) = false
text_eq (x ∷ xs) [] = false
text_eq (x ∷ xs) (y ∷ ys) = x == y && text_eq xs ys

pub text_eq_iff : (a b : Text) → (text_eq a b ≡ true) ↔ (a ≡ b)
unfolding text_eq
text_eq_iff [] [] = ground arith
text_eq_iff [] (y ∷ ys) = ground arith
text_eq_iff (x ∷ xs) [] = ground arith
text_eq_iff (x ∷ xs) (y ∷ ys) = ground (arith, text_eq_iff xs ys)

pub text_eq_refl : (a : Text) → text_eq a a ≡ true
text_eq_refl a = (text_eq_iff a a).1 refl

abbrev pub is_empty : Text → Bool
is_empty [] = true
is_empty (c ∷ s) = false

-- `s.startsWith(p)`
unfoldable pub starts_with : Text → Text → Bool
starts_with s [] = true
starts_with [] (d ∷ p) = false
starts_with (c ∷ s) (d ∷ p) = c == d && starts_with s p

-- `s.includes(p)`
unfoldable pub includes : Text → Text → Bool
includes [] p = starts_with [] p
includes (c ∷ s) p = starts_with (c ∷ s) p || includes s p

unfoldable pub has_code : ℕ → Text → Bool
has_code c [] = false
has_code c (d ∷ s) = d == c || has_code c s

-- White space of `\s` and of `trim`.
unfoldable pub is_space : ℕ → Bool
is_space c =
    (leb 9 c && leb c 13)
    || c == 32
    || c == 0xa0
    || c == 0x1680
    || (leb 0x2000 c && leb c 0x200a)
    || c == 0x2028
    || c == 0x2029
    || c == 0x202f
    || c == 0x205f
    || c == 0x3000
    || c == 0xfeff

unfoldable pub trim_start : Text → Text
trim_start [] = []
trim_start (c ∷ s) = if is_space c then trim_start s else c ∷ s

unfoldable pub trim : Text → Text
unfolding trim_start
trim s = reverse (trim_start (reverse (trim_start s)))

-- ASCII lower case; what the program compares is ASCII.
abbrev pub lower : ℕ → ℕ
lower c = if leb b'A' c && leb c b'Z' then c + 32 else c

-- `s.toLowerCase()`
abbrev pub to_lower : Text → Text
to_lower [] = []
to_lower (c ∷ s) = lower c ∷ to_lower s

-- `s.split(d)`, for a separator of one code unit
abbrev pub onto_first : ℕ → List Text → List Text
onto_first c [] = (c ∷ []) ∷ []
onto_first c (s ∷ ss) = (c ∷ s) ∷ ss

unfoldable pub split : ℕ → Text → List Text
split d [] = [] ∷ []
split d (c ∷ s) = let rest = split d s in if c == d then [] ∷ rest else onto_first c rest

-- The code points of a text: a high surrogate and a low one make one, others stand for themselves.
abbrev pub is_high : ℕ → Bool
is_high c = leb 0xd800 c && leb c 0xdbff

abbrev pub is_low : ℕ → Bool
is_low c = leb 0xdc00 c && leb c 0xdfff

abbrev pair_of : ℕ → ℕ → ℕ
pair_of h l = (h % 0x400) * 0x400 + l % 0x400 + 0x10000

-- The code points behind a code unit that may be the first of a pair.
unfoldable pub points_from : ℕ → Text → List ℕ
points_from h [] = h ∷ []
points_from h (c ∷ []) = if is_high h && is_low c then pair_of h c ∷ [] else h ∷ c ∷ []
points_from h (c ∷ d ∷ s) = elim (is_high h && is_low c) [
  | true ↦ pair_of h c ∷ points_from d s
  | false ↦ h ∷ points_from c (d ∷ s)
]

unfoldable pub code_points : Text → List ℕ
code_points [] = []
code_points (c ∷ s) = points_from c s

-- `s.toWellFormed()`, which UTF-8 encoders do first: a surrogate that is not one of a pair becomes
-- U+FFFD. `h` is the code unit before the text.
unfoldable pub well_formed_from : ℕ → Text → Text
well_formed_from h [] = (if is_high h || is_low h then 0xfffd else h) ∷ []
well_formed_from h (c ∷ []) =
    if is_high h && is_low c
    then h ∷ c ∷ []
    else (if is_high h || is_low h then 0xfffd else h)
      ∷ (if is_high c || is_low c then 0xfffd else c)
      ∷ []
well_formed_from h (c ∷ d ∷ s) = elim (is_high h && is_low c) [
  | true ↦ h ∷ c ∷ well_formed_from d s
  | false ↦ (if is_high h || is_low h then 0xfffd else h) ∷ well_formed_from c (d ∷ s)
]

unfoldable pub to_well_formed : Text → Text
unfolding well_formed_from
to_well_formed [] = []
to_well_formed (c ∷ s) = well_formed_from c s

-- `ss.join(d)`
unfoldable pub join_rest : Text → List Text → Text
join_rest d [] = []
join_rest d (s ∷ ss) = d ++ (s ++ join_rest d ss)

unfoldable pub join : Text → List Text → Text
unfolding join_rest
join d [] = []
join d (s ∷ ss) = s ++ join_rest d ss

-- The order of `sort()`: by code units.
unfoldable pub text_lt : Text → Text → Bool
text_lt s [] = false
text_lt [] (d ∷ t) = true
text_lt (c ∷ s) (d ∷ t) = ltb c d || (c == d && text_lt s t)

-- `s.endsWith(p)`
unfoldable pub ends_with : Text → Text → Bool
unfolding starts_with
ends_with s p = starts_with (reverse s) (reverse p)
