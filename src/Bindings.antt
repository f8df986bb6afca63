-- ===== src/Bindings.antt =====
-- src/domain/bindings/planner.ts: how well a point of another node fits a binding.
-- `toLocaleLowerCase` is a parameter. The kinds of a binding are those of Points.
pub mod Definitions
pub mod Direct
pub mod Loop
pub mod Clones
pub mod Patch
pub mod Kept
pub mod Scores
mod Tests
use nodel_mcp.Base.{
  ℕ, ◌+◌, ◌*◌, ◌/◌, Bool, true, false, ◌&&◌, ◌||◌, Option, none, some, or_else, List, [], ◌∷◌, ◌++◌,
  map, any, keep, length, leb, ltb, ◌==◌, not, if◌then◌else◌, Text, text_eq, is_empty, includes,
  ends_with, trim, onto_first,
}
use nodel_mcp.Values.{Value}

pub record BindingTarget : Type 0 where
  pub name : Text
  pub definition : Value

pub record BindingMatch : Type 0 where
  pub target : BindingTarget
  pub score : ℕ

-- `/[a-z0-9]/iu`: case folding takes the long s and the Kelvin sign to letters.
abbrev pub is_simple : ℕ → Bool
is_simple c =
    (leb 48 c && leb c 57)
    || (leb 65 c && leb c 90)
    || (leb 97 c && leb c 122)
    || c == 0x17f
    || c == 0x212a

unfoldable pub simple_text : Text → Text
simple_text value = keep is_simple value

-- The pieces between characters that are not simple; an empty piece is dropped later.
unfoldable pub simple_pieces : Text → List Text
simple_pieces [] = [] ∷ []
simple_pieces (c ∷ s) = elim (is_simple c) [
  | true ↦ onto_first c (simple_pieces s)
  | false ↦ [] ∷ simple_pieces s
]

unfoldable pub tokenize_simple_text : Text → List Text
unfolding simple_pieces trim
tokenize_simple_text value = keep (λ t. not (is_empty t)) (map trim (simple_pieces value))

abbrev pub concat_map : (Text → List Text) → List Text → List Text
concat_map f [] = []
concat_map f (t ∷ ts) = f t ++ concat_map f ts

abbrev pub maximum : ℕ → ℕ → ℕ
maximum a b = if leb a b then b else a

abbrev pub minimum : ℕ → ℕ → ℕ
minimum a b = if leb a b then a else b

-- `Math.round(a / b)`
abbrev pub rounded : ℕ → ℕ → ℕ
rounded a b = (2 * a + b) / (2 * b)

-- 0 where no token is shared
abbrev pub overlap_score : ℕ → ℕ → ℕ
overlap_score overlap tokens =
    if overlap == 0 then 0 else minimum 65 (30 + rounded (35 * overlap) (maximum tokens 1))

-- Some name ends with the target, or the target with a name.
abbrev pub is_end : Text → List Text → Bool
is_end target names = any (λ n. ends_with n target || ends_with target n) names

abbrev pub is_part : Text → List Text → Bool
is_part target names = any (λ n. includes n target || includes target n) names

abbrev pub overlap_of : Text → List Text → ℕ
overlap_of target names = length (
    keep (λ token. any (text_eq token) (concat_map tokenize_simple_text names))
      (tokenize_simple_text target))

-- A stable sort by falling scores.
abbrev pub insert_match : BindingMatch → List BindingMatch → List BindingMatch
insert_match m [] = m ∷ []
insert_match m (n ∷ ns) =
    let rest = insert_match m ns in if ltb m.score n.score then n ∷ rest else m ∷ n ∷ ns

abbrev pub ranked : (Text → ℕ) → List BindingTarget → List BindingMatch
ranked score [] = []
ranked score (t ∷ ts) = insert_match (record { target = t; score = score t.name }) (ranked score ts)

abbrev pub first_of : List BindingMatch → Option BindingMatch
first_of [] = none
first_of (m ∷ ms) = some m

module _ (lower : Text → Text) where
  unfoldable pub normalize_text : Text → Text
  unfolding trim
  normalize_text value = lower (trim value)

  -- `names` in bindingScore
  unfoldable pub binding_names_of : Text → Option Text → List Text
  unfolding normalize_text
  binding_names_of name title =
      keep (λ n. not (is_empty n)) (map normalize_text (name ∷ or_else title [] ∷ []))

  unfoldable pub binding_score : Text → Option Text → Text → ℕ
  unfolding binding_names_of normalize_text simple_text ends_with includes tokenize_simple_text
      text_eq
  binding_score name title target_name =
      let names = binding_names_of name title in
      let target = normalize_text target_name in
      let simple_names = map simple_text names in
      let simple_target = simple_text target in
      if any (text_eq target) names || any (text_eq simple_target) simple_names
      then 100
      else if is_end simple_target simple_names
      then 85
      else if is_part simple_target simple_names
      then 70
      else overlap_score (overlap_of simple_target simple_names)
          (length (tokenize_simple_text simple_target))

  unfoldable pub best_binding_target : Text → Option Text → List BindingTarget → Option BindingMatch
  unfolding binding_score
  best_binding_target name title targets = first_of (ranked (binding_score name title) targets)
