-- ===== src/Recipes/Edits.antt =====
-- src/domain/recipes/operations.ts: `applyTextEdits`.
-- The hashes of the texts are those of the platform.
use nodel_mcp.Base.{
  ℕ, zero, suc, ◌-◌, Bool, true, false, Option, none, some, List, [], ◌∷◌, ◌++◌, Text,
}
use nodel_mcp.Base.{
  starts_with, join, length, drop, map, onto_first, ltb, ◌==◌, if◌then◌else◌, not, ◌&&◌,
}
use nodel_mcp.Base.{Result, ok, guard, ◌>>=◌, ◌>>◌, public_error, validation}
use nodel_mcp.Platform.{Platform, sha256}

pub record TextEdit : Type 0 where
  pub old_text : Text
  pub new_text : Text
  pub replace_all : Bool

pub record AppliedEdit : Type 0 where
  pub index : ℕ
  pub replace_all : Bool
  pub occurrences : ℕ
  pub old_hash : Text
  pub new_hash : Text

abbrev pub beyond_first : Text → ℕ
beyond_first [] = 0
beyond_first (o ∷ old) = length old

-- The pieces of a text between the occurrences of a text that is not empty, from the left, behind
-- the code units that are left of an occurrence.
unfoldable pub pieces : Text → ℕ → Text → List Text
pieces old k [] = [] ∷ []
pieces old (suc k) (c ∷ s) = pieces old k s
pieces old zero (c ∷ s) = elim (starts_with (c ∷ s) old) [
  | true ↦ [] ∷ pieces old (beyond_first old) s
  | false ↦ onto_first c (pieces old zero s)
]

-- `s.split(old)`
unfoldable pub split_on : Text → Text → List Text
unfolding pieces
split_on [] s = map (λ c. c ∷ []) s
split_on (o ∷ old) s = pieces (o ∷ old) zero s

-- What stands before and behind the first occurrence.
abbrev pub onto_before : ℕ → Option (Text × Text) → Option (Text × Text)
onto_before c none = none
onto_before c (some (a, b)) = some (c ∷ a, b)

unfoldable pub cut : Text → Text → Option (Text × Text)
cut old [] = if starts_with [] old then some ([], []) else none
cut old (c ∷ s) = elim (starts_with (c ∷ s) old) [
  | true ↦ some ([], drop (length old) (c ∷ s))
  | false ↦ onto_before c (cut old s)
]

-- The new text of `replace`, in which `$$`, `$&`, `` $` `` and `$'` stand for other texts.
unfoldable pub expand : Text → Text → Text → Text → Text
expand before old behind [] = []
expand before old behind (c ∷ []) = c ∷ []
expand before old behind (c ∷ d ∷ t) = elim (c == b'$') [
  | false ↦ c ∷ expand before old behind (d ∷ t)
  | true ↦ elim (d == b'$') [
    | true ↦ b'$' ∷ expand before old behind t
    | false ↦ elim (d == b'&') [
      | true ↦ old ++ expand before old behind t
      | false ↦ elim (d == b'`') [
        | true ↦ before ++ expand before old behind t
        | false ↦ elim (d == b'\'') [
          | true ↦ behind ++ expand before old behind t
          | false ↦ c ∷ expand before old behind (d ∷ t)
        ]
      ]
    ]
  ]
]

abbrev pub replace_at : Text → Text → Text → Option (Text × Text) → Text
replace_at old new s none = s
replace_at old new s (some (a, b)) = a ++ (expand a old b new ++ b)

-- `s.replace(old, new)`
unfoldable pub replace_first : Text → Text → Text → Text
unfolding cut expand
replace_first old new s = replace_at old new s (cut old s)

-- One edit. There is no occurrence when there is one piece, and more than one when there are more
-- than two.
unfoldable pub apply_edit : TextEdit → Text → Result Text
unfolding split_on replace_first join
apply_edit edit content =
    let parts = split_on edit.old_text content in
    guard (not (length parts == 1)) (public_error validation)
    >> (guard (not (not edit.replace_all && ltb 2 (length parts))) (public_error validation)
        >> ok (
            if edit.replace_all
            then join edit.new_text parts
            else replace_first edit.old_text edit.new_text content))

module _ (p : Platform) where
  abbrev pub applied_edit : ℕ → TextEdit → Text → AppliedEdit
  applied_edit index edit content = record {
    index = index;
    replace_all = edit.replace_all;
    occurrences = if edit.replace_all then length (split_on edit.old_text content) - 1 else 1;
    old_hash = sha256 p edit.old_text;
    new_hash = sha256 p edit.new_text;
  }

  unfoldable pub apply_from : ℕ → Text → List TextEdit → Result (Text × List AppliedEdit)
  unfolding apply_edit
  apply_from index content [] = ok (content, [])
  apply_from index content (edit ∷ edits) = do
    next ← apply_edit edit content
    rest ← apply_from (suc index) next edits
    ok (rest.0, applied_edit index edit content ∷ rest.1)

  unfoldable pub apply_text_edits : Text → List TextEdit → Result (Text × List AppliedEdit)
  unfolding apply_from
  apply_text_edits content edits = apply_from 0 content edits
