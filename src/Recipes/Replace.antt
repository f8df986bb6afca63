-- ===== src/Recipes/Replace.antt =====
-- What `applyTextEdits` does to a text.
use nodel_mcp.Base.{
  ℕ, zero, suc, ◌≤◌, ◌≡◌, ◌∙◌, refl, sym, ap, Bool, true, false, not, ◌&&◌, ◌||◌, some, List, [],
  ◌∷◌, ◌++◌,
}
use nodel_mcp.Base.{join}
use nodel_mcp.Base.{
  Text, codes, is_empty, has_code, starts_with, length, arith, Bool-cases, Option-cases, inl, inr,
  ◌==◌, ok, err,
}
use nodel_mcp.Base.{onto_first, all, ok_or_err, starts_with}
use mathlib.Core.List.{append-nil}
use nodel_mcp.Platform.{Platform}
use nodel_mcp.Recipes.Edits.{
  TextEdit, AppliedEdit, pieces, split_on, cut, expand, replace_first, apply_edit, apply_from,
  apply_text_edits,
}
use nodel_mcp.Recipes.Pieces.{Parted, pieces-Parted, join-pieces, pieces-cut, pieces-uncut}

-- A new text without a dollar sign stands for itself.
expand_plain : (a old b new : Text) → has_code b'$' new ≡ false → expand a old b new ≡ new
unfolding expand has_code
expand_plain a old b [] h = refl
expand_plain a old b (c ∷ []) h = refl
expand_plain a old b (c ∷ d ∷ t) h = ground (arith, expand_plain a old b (d ∷ t))

length-pieces : (old : Text) (k : ℕ) (s : Text) → 1 ≤ length (pieces old k s)
unfolding pieces
length-pieces old zero [] = omega arith
length-pieces old (suc k) [] = omega arith
length-pieces old (suc k) (c ∷ s) = length-pieces old k s
length-pieces old zero (c ∷ s) = elim (Bool-cases (starts_with (c ∷ s) old)) [
  | inl begins ↦ rw (begins, pieces) (omega arith)
  | inr other ↦ rw (other, pieces) (length-onto_first (pieces old zero s))
]
  where
    length-onto_first : (ss : List Text) → 1 ≤ length (onto_first c ss)
    length-onto_first [] = omega arith
    length-onto_first (s ∷ ss) = omega arith

-- The text is cut at the first place of the old text, and what is behind it again, as long as there is
-- one; the parts are joined by the new text.
pub record Edited (edit : TextEdit) (content next : Text) : Type 0 where
  pub parts : List Text
  pub are_cut : Parted edit.old_text content parts
  pub becomes : join edit.new_text parts ≡ next
  pub occurs : 2 ≤ length parts
  pub is_unique : (edit.replace_all || length parts == 2) ≡ true

-- An edit whose old text is not empty, and whose new text stands for itself.
abbrev pub is_plain : TextEdit → Bool
is_plain edit =
    not (is_empty edit.old_text) && (edit.replace_all || not (has_code b'$' edit.new_text))

only_piece : (d b : Text) (ps : List Text) → join d ps ≡ b → length ps ≡ 1 → ps ≡ b ∷ []
unfolding join
only_piece d b [] e h = ground arith
only_piece d b (q ∷ []) e h = ap (λ t. t ∷ []) (sym (append-nil q) ∙ e)
only_piece d b (q ∷ r ∷ ps) e h = ground arith

-- The two parts around one occurrence.
replace_once :
    (o : ℕ) (old new content : Text)
    → has_code b'$' new ≡ false
    → length (pieces (o ∷ old) zero content) ≡ 2
    → join new (pieces (o ∷ old) zero content) ≡ replace_first (o ∷ old) new content
unfolding replace_first
replace_once o old new content plain two = elim (Option-cases (cut (o ∷ old) content)) [
  | inl missing ↦
      let single = pieces-uncut o old content missing in
      let two' : 1 ≡ 2 = rw single at two in ground arith
  | inr ((a, b), here) ↦
      let parted = pieces-cut o old content here in
      let rest : length (pieces (o ∷ old) zero b) ≡ 1 =
        let n = rw parted at two in omega (arith, n) in
      let last = only_piece (o ∷ old) b (pieces (o ∷ old) zero b) (join-pieces o old zero b) rest in
      rw (parted, last, here, expand_plain a (o ∷ old) b new plain)
        (unfold join in ap (λ t. a ++ (new ++ t)) (append-nil b))
]

ok-injective : {A : Type 0} {x y : A} → ok x ≡ ok y → x ≡ y
ok-injective h = cc

edited :
    (old new : Text) (all : Bool) (content : Text) {next : Text}
    → is_plain (record { old_text = old; new_text = new; replace_all = all }) ≡ true
    → apply_edit (record { old_text = old; new_text = new; replace_all = all }) content ≡ ok next
    → Edited (record { old_text = old; new_text = new; replace_all = all }) content next
unfolding apply_edit split_on
edited [] new all content plain h = cc
edited (o ∷ old) new true content plain h = record {
  parts = pieces (o ∷ old) zero content;
  are_cut = pieces-Parted o old (length content) content (omega arith);
  becomes = ground arith;
  occurs = ground (arith, length-pieces (o ∷ old) zero content);
  is_unique = refl;
}
edited (o ∷ old) new false content plain h =
    let two : length (pieces (o ∷ old) zero content) ≡ 2 =
      ground (arith, length-pieces (o ∷ old) zero content) in
    let no_dollar : has_code b'$' new ≡ false = ground arith in
    let replaced = replace_once o old new content no_dollar two in
    record {
      parts = pieces (o ∷ old) zero content;
      are_cut = pieces-Parted o old (length content) content (omega arith);
      becomes = ground arith;
      occurs = ground arith;
      is_unique = ground arith;
    }

-- The texts that edits lead to, one after the other.
pub data EditedBy : List TextEdit → Text → Text → Type 0 where
  unchanged : {content : Text} → EditedBy [] content content
  then_by :
      {edit : TextEdit} {edits : List TextEdit} {content next last : Text}
      → Edited edit content next
      → EditedBy edits next last
      → EditedBy (edit ∷ edits) content last

apply_from_lem :
    (p : Platform) (index : ℕ) (content : Text) (edits : List TextEdit)
    {r : Text × List AppliedEdit}
    → all is_plain edits ≡ true
    → apply_from p index content edits ≡ ok r
    → EditedBy edits content r.0 × (length r.1 ≡ length edits)
unfolding apply_from
apply_from_lem p index content [] {r} plain h =
    let same : (content, []) ≡ r = ok-injective h in rw (← same) (unchanged, refl)
apply_from_lem p index content (edit ∷ edits) {r} plain h =
    elim (ok_or_err (apply_edit edit content)) [
      | inl (next, e) ↦ elim (ok_or_err (apply_from p (suc index) next edits)) [
        | inl (rest, f) ↦
            let (chain, counted) = apply_from_lem p (suc index) next edits (ground arith) f in
            let step =
              edited edit.old_text edit.new_text edit.replace_all content (ground arith) e in
            let same = ok-injective (rw (e, f) at h) in
            rw (← same) (then_by step chain, ap suc counted)
        | inr (problem, f) ↦ let bad : err problem ≡ ok r = rw (e, f) at h in cc
      ]
      | inr (problem, e) ↦ let bad : err problem ≡ ok r = rw e at h in cc
    ]

-- Edits that all succeed, where each old text is not empty and each new text stands for itself (the
-- edit replaces all, or the new text has no dollar sign), change the text one after the other: each
-- cuts it at the first place of its old text, and what is behind that again as long as there is one,
-- and joins the parts by its new text; there are two parts at least, and just two unless it replaces
-- all. As many edits are reported as were given.
pub apply_text_edits_lem :
    (p : Platform) (content : Text) (edits : List TextEdit) {r : Text × List AppliedEdit}
    → all is_plain edits ≡ true
    → apply_text_edits p content edits ≡ ok r
    → EditedBy edits content r.0 × (length r.1 ≡ length edits)
unfolding apply_text_edits
apply_text_edits_lem p content edits plain h = apply_from_lem p 0 content edits plain h

-- An edit whose new text is `$$`, at the one place of its old text, writes a single dollar sign.
pub dollars_lost :
    (o : ℕ) (old content a b : Text)
    → cut (o ∷ old) content ≡ some (a, b)
    → length (split_on (o ∷ old) content) ≡ 2
    → apply_edit (record { old_text = o ∷ old; new_text = codes "$$"; replace_all = false }) content
      ≡ ok (a ++ (b'$' ∷ b))
unfolding apply_edit replace_first split_on expand
dollars_lost o old content a b here two = rw (two, here) refl
