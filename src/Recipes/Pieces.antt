-- ===== src/Recipes/Pieces.antt =====
-- How a text is cut at the occurrences of another.
use nodel_mcp.Base.{ℕ, zero, suc, ◌≡◌, ◌∙◌, refl, ap, true, Option, none, some, List, [], ◌∷◌, ◌++◌}
use nodel_mcp.Base.{join, join_rest}
use nodel_mcp.Base.{
  Text, starts_with, length, drop, onto_first, arith, Bool-cases, inl, inr, ==_iff, ◌≤◌,
  Option-cases,
}
use nodel_mcp.Recipes.Edits.{pieces, cut, onto_before}

-- What is skipped is not seen.
pub pieces-drop : (old : Text) (k : ℕ) (s : Text) → pieces old k s ≡ pieces old zero (drop k s)
unfolding pieces
pieces-drop old zero s = refl
pieces-drop old (suc k) [] = refl
pieces-drop old (suc k) (c ∷ s) = pieces-drop old k s

starts_with-drop : (s old : Text) → starts_with s old ≡ true → old ++ drop (length old) s ≡ s
unfolding starts_with
starts_with-drop s [] h = refl
starts_with-drop [] (o ∷ old) h = cc
starts_with-drop (c ∷ s) (o ∷ old) h =
    let later = starts_with-drop s old (ground arith) in
    let same : c ≡ o = ground (arith, ==_iff c o) in cc

join-onto_first : (d : Text) (c : ℕ) (ss : List Text) → join d (onto_first c ss) ≡ c ∷ join d ss
unfolding join
join-onto_first d c [] = refl
join-onto_first d c (s ∷ ss) = refl

join_rest-onto_first :
    (d : Text) (c : ℕ) (ss : List Text)
    → join_rest d (onto_first c ss) ≡ d ++ join d (onto_first c ss)
unfolding join
join_rest-onto_first d c [] = refl
join_rest-onto_first d c (s ∷ ss) = refl

join_rest-pieces :
    (d old : Text) (k : ℕ) (s : Text) → join_rest d (pieces old k s) ≡ d ++ join d (pieces old k s)
unfolding pieces join
join_rest-pieces d old zero [] = refl
join_rest-pieces d old (suc k) [] = refl
join_rest-pieces d old (suc k) (c ∷ s) = join_rest-pieces d old k s
join_rest-pieces d old zero (c ∷ s) = elim (Bool-cases (starts_with (c ∷ s) old)) [
  | inl begins ↦ rw (begins, pieces, join) refl
  | inr other ↦ rw (other, pieces) (join_rest-onto_first d c (pieces old zero s))
]

join_begins : (d t : Text) (ps : List Text) → join_rest d ps ≡ t → join d ([] ∷ ps) ≡ t
unfolding join
join_begins d t ps e = e

-- The pieces joined again are the text.
pub join-pieces :
    (o : ℕ) (old : Text) (k : ℕ) (s : Text) → join (o ∷ old) (pieces (o ∷ old) k s) ≡ drop k s
unfolding pieces
join-pieces o old zero [] = unfold join in refl
join-pieces o old (suc k) [] = unfold join in refl
join-pieces o old (suc k) (c ∷ s) = join-pieces o old k s
join-pieces o old zero (c ∷ s) = elim (Bool-cases (starts_with (c ∷ s) (o ∷ old))) [
  | inl begins ↦
      rw (begins, pieces)
        (join_begins _ _ _ (
          join_rest-pieces (o ∷ old) (o ∷ old) (length old) s
          ∙ ap (λ t. (o ∷ old) ++ t) (join-pieces o old (length old) s)
          ∙ starts_with-drop (c ∷ s) (o ∷ old) begins))
  | inr other ↦
      rw (other, pieces)
        (join-onto_first (o ∷ old) c _ ∙ ap (λ t. c ∷ t) (join-pieces o old zero s))
]

onto_before-some :
    (c : ℕ) (q : Option (Text × Text)) {a b : Text}
    → onto_before c q ≡ some (a, b)
    → (a' : Text) × (q ≡ some (a', b)) × (a ≡ c ∷ a')
onto_before-some c none h = cc
onto_before-some c (some (a', b')) h = (a', cc, cc)

-- The first occurrence ends the first piece.
pub pieces-cut :
    (o : ℕ) (old s : Text) {a b : Text}
    → cut (o ∷ old) s ≡ some (a, b)
    → pieces (o ∷ old) zero s ≡ a ∷ pieces (o ∷ old) zero b
unfolding pieces cut starts_with
pieces-cut o old [] h = cc
pieces-cut o old (c ∷ s) {a} {b} h = elim (Bool-cases (starts_with (c ∷ s) (o ∷ old))) [
  | inl begins ↦
      let h' : some ([], drop (length old) s) ≡ some (a, b) = rw (begins, cut) at h in
      let skipped = pieces-drop (o ∷ old) (length old) s in rw (begins, pieces) cc
  | inr other ↦
      let h' : onto_before c (cut (o ∷ old) s) ≡ some (a, b) = rw (other, cut) at h in
      let (a', here, e) = onto_before-some c (cut (o ∷ old) s) h' in
      let later = pieces-cut o old s here in rw (other, pieces, later) (rw e refl)
]

pub pieces-uncut :
    (o : ℕ) (old s : Text) → cut (o ∷ old) s ≡ none → pieces (o ∷ old) zero s ≡ s ∷ []
unfolding pieces cut starts_with
pieces-uncut o old [] h = refl
pieces-uncut o old (c ∷ s) h = elim (Bool-cases (starts_with (c ∷ s) (o ∷ old))) [
  | inl begins ↦ let h' : some ([], drop (length old) s) ≡ none = rw (begins, cut) at h in cc
  | inr other ↦
      let h' : onto_before c (cut (o ∷ old) s) ≡ none = rw (other, cut) at h in
      let later = pieces-uncut o old s (onto_before-none (cut (o ∷ old) s) h') in
      rw (other, pieces, later) refl
]
  where
    onto_before-none : (q : Option (Text × Text)) → onto_before c q ≡ none → q ≡ none
    onto_before-none none e = refl
    onto_before-none (some q) e = cc

length-drop : (n : ℕ) (s : Text) → length (drop n s) ≤ length s
length-drop zero s = omega arith
length-drop (suc n) [] = omega arith
length-drop (suc n) (c ∷ s) = omega (arith, length-drop n s)

cut-shorter :
    (o : ℕ) (old s : Text) {a b : Text} → cut (o ∷ old) s ≡ some (a, b) → suc (length b) ≤ length s
unfolding cut starts_with
cut-shorter o old [] h = cc
cut-shorter o old (c ∷ s) {a} {b} h = elim (Bool-cases (starts_with (c ∷ s) (o ∷ old))) [
  | inl begins ↦
      let h' : some ([], drop (length old) s) ≡ some (a, b) = rw (begins, cut) at h in
      let rest : b ≡ drop (length old) s = cc in rw rest (omega (arith, length-drop (length old) s))
  | inr other ↦
      let h' : onto_before c (cut (o ∷ old) s) ≡ some (a, b) = rw (other, cut) at h in
      let (a', here, e) = onto_before-some c (cut (o ∷ old) s) h' in
      omega (arith, cut-shorter o old s here)
]

-- The parts of a text: cut at the first occurrence, and what is behind it again.
pub data Parted (old : Text) : Text → List Text → Type 0 where
  whole : {s : Text} → cut old s ≡ none → Parted old s (s ∷ [])
  cut_at :
      {s a b : Text} {ps : List Text}
      → cut old s ≡ some (a, b)
      → Parted old b ps
      → Parted old s (a ∷ ps)

-- `n` bounds the length of the text.
pub pieces-Parted :
    (o : ℕ) (old : Text) (n : ℕ) (s : Text)
    → length s ≤ n
    → Parted (o ∷ old) s (pieces (o ∷ old) zero s)
unfolding pieces cut starts_with
pieces-Parted o old zero [] l = whole refl
pieces-Parted o old zero (c ∷ s) l = ground arith
pieces-Parted o old (suc n) s l = elim (Option-cases (cut (o ∷ old) s)) [
  | inl missing ↦ rw (pieces-uncut o old s missing) (whole missing)
  | inr ((a, b), here) ↦
      rw (pieces-cut o old s here)
        (cut_at here (pieces-Parted o old n b (omega (arith, cut-shorter o old s here, l))))
]
