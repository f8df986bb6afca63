-- ===== src/Bindings/Scores.antt =====
-- src/domain/bindings/planner.ts: what the score of a match tells.
use nodel_mcp.Base.{
  ◌≡◌, refl, subst, Bool, true, false, Bool-cases, inl, inr, Option, none, some, List, [], ◌∷◌,
  if◌then◌else◌, Text, is_empty, arith, ℕ, ◌≤◌, All, All-weaken, ltb,
}
use nodel_mcp.Bindings.{
  BindingTarget, BindingMatch, normalize_text, binding_names_of, simple_text, binding_score,
  best_binding_target, ranked, insert_match, first_of,
}

at_least : (b : Bool) → 85 ≤ (if b then 100 else 85)
at_least true = omega arith
at_least false = omega arith

-- A point whose name has no letter and no digit of the Latin alphabet fits every binding that has a
-- name: the score is at least 85.
pub unlettered_matches :
    (lower : Text → Text) (name : Text) (title : Option Text) (target_name : Text)
    → is_empty (normalize_text lower name) ≡ false
    → simple_text (normalize_text lower target_name) ≡ []
    → 85 ≤ binding_score lower name title target_name
unfolding binding_score binding_names_of
unlettered_matches lower name title target_name full e = rw (full, e) (at_least _)

abbrev top_of : BindingMatch → Option BindingMatch → BindingMatch
top_of m none = m
top_of m (some n) = if ltb m.score n.score then n else m

first_of-insert_match :
    (m : BindingMatch) (ms : List BindingMatch)
    → first_of (insert_match m ms) ≡ some (top_of m (first_of ms))
first_of-insert_match m [] = refl
first_of-insert_match m (n ∷ ns) = elim (Bool-cases (ltb m.score n.score)) [
  | inl e ↦ rw e refl
  | inr e ↦ rw e refl
]

abbrev score_of : Option BindingMatch → ℕ
score_of none = 0
score_of (some m) = m.score

score_of-top_of :
    (m : BindingMatch) (o : Option BindingMatch)
    → (m.score ≤ (top_of m o).score) × (score_of o ≤ (top_of m o).score)
score_of-top_of m none = (ground arith, ground arith)
score_of-top_of m (some n) = (ground arith, ground arith)

module _ (score : Text → ℕ) where
  abbrev IsScored : Option BindingMatch → Type 0
  IsScored none = Unit
  IsScored (some m) = m.score ≡ score m.target.name

  top_of-IsScored :
      (t : BindingTarget) (o : Option BindingMatch)
      → IsScored o
      → IsScored (some (top_of (record { target = t; score = score t.name }) o))
  top_of-IsScored t none h = refl
  top_of-IsScored t (some n) h = elim (Bool-cases (ltb (score t.name) n.score)) [
    | inl e ↦ rw e h
    | inr e ↦ rw e refl
  ]

  ranked-IsScored : (ts : List BindingTarget) → IsScored (first_of (ranked score ts))
  ranked-IsScored [] = tt
  ranked-IsScored (t ∷ ts) =
      rw (first_of-insert_match (record { target = t; score = score t.name }) (ranked score ts))
        (top_of-IsScored t (first_of (ranked score ts)) (ranked-IsScored ts))

  -- No target scores more than the first of the ranked matches.
  ranked_tops :
      (ts : List BindingTarget) → All (λ t. score t.name ≤ score_of (first_of (ranked score ts))) ts
  ranked_tops [] = tt
  ranked_tops (t ∷ ts) =
      let m : BindingMatch = record { target = t; score = score t.name } in
      let bound = score_of-top_of m (first_of (ranked score ts)) in
      rw (first_of-insert_match m (ranked score ts))
        (bound.0, All-weaken _ _ ts (λ u h. ground (arith, bound.1)) (ranked_tops ts))

-- The target that is chosen has its score, and no other target of the list has a greater one.
pub best_binding_target_lem :
    (lower : Text → Text) (name : Text) (title : Option Text) (targets : List BindingTarget)
    (m : BindingMatch)
    → best_binding_target lower name title targets ≡ some m
    → (m.score ≡ binding_score lower name title m.target.name)
      × All (λ t. binding_score lower name title t.name ≤ m.score) targets
unfolding best_binding_target
best_binding_target_lem lower name title targets m h =
    let score = binding_score lower name title in
    (
      subst (IsScored score) h (ranked-IsScored score targets),
      subst (λ o. All (λ t. score t.name ≤ score_of o) targets) h (ranked_tops score targets),
    )
