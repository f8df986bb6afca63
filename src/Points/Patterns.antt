-- ===== src/Points/Patterns.antt =====
-- src/mcp/tools/pointFiltering.ts: the checks on a pattern before it is compiled.
use nodel_mcp.Base.{
  ℕ, Bool, true, false, ◌&&◌, ◌||◌, not, [], ◌∷◌, Text, ◌==◌, leb, Result, guard, ◌>>◌,
  public_error, validation, if◌then◌else◌, length, starts_with, codes,
}

abbrev pub max_filter_pattern_length : ℕ
max_filter_pattern_length = 256

abbrev pub is_digit : ℕ → Bool
is_digit c = leb b'0' c && leb c b'9'

-- `\\(?:[1-9]|k<)` at this place
abbrev escapes_reference : Text → Bool
escapes_reference [] = false
escapes_reference (c ∷ s) = (leb b'1' c && leb c b'9') || starts_with (c ∷ s) (codes "k<")

unfoldable pub has_backreference : Text → Bool
unfolding starts_with
has_backreference [] = false
has_backreference (c ∷ s) = (c == b'\\' && escapes_reference s) || has_backreference s

-- `^\{\d+(?:,\d*)?\}$` on the text up to the first `}`: after the brace, after a digit, after the
-- comma.
unfoldable pub after_comma : Text → Bool
after_comma [] = false
after_comma (c ∷ s) = if c == b'}' then true else is_digit c && after_comma s

unfoldable pub after_digit : Text → Bool
unfolding after_comma
after_digit [] = false
after_digit (c ∷ s) =
    let rest = after_digit s in
    if c == b'}' then true else if c == b',' then after_comma s else is_digit c && rest

abbrev pub is_count : Text → Bool
is_count [] = false
is_count (c ∷ s) = is_digit c && after_digit s

-- `isQuantifierAt(pattern, index)`, of the text from `index` on
unfoldable pub is_quantifier : Text → Bool
unfolding after_digit
is_quantifier [] = false
is_quantifier (c ∷ s) = c == b'*' || c == b'+' || c == b'?' || (c == b'{' && is_count s)

-- The loop of `hasQuantifiedGroup`, with its two flags.
unfoldable pub scan : Bool → Bool → Text → Bool
unfolding is_quantifier
scan escaped in_character_class [] = false
scan true in_character_class (c ∷ s) = scan false in_character_class s
scan false in_character_class (c ∷ s) =
    let escape = scan true in_character_class s in
    let inside = scan false true s in
    let outside = scan false false s in
    let on = scan false in_character_class s in
    if c == b'\\'
    then escape
    else if c == b'['
    then inside
    else if c == b']'
    then outside
    else if in_character_class || not (c == b')')
    then on
    else if is_quantifier s
    then true
    else on

unfoldable pub has_quantified_group : Text → Bool
unfolding scan
has_quantified_group pattern = scan false false pattern

unfoldable pub assert_safe_regex_pattern : (Text → Bool) → Text → Result (Unit {0})
unfolding has_backreference has_quantified_group
assert_safe_regex_pattern safe_regex pattern = do
  guard (leb (length pattern) max_filter_pattern_length) (public_error validation)
  guard (not (has_backreference pattern)) (public_error validation)
  guard (not (has_quantified_group pattern)) (public_error validation)
  guard (safe_regex pattern) (public_error validation)
