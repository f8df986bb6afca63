-- ===== src/Resolution/Best.antt =====
-- The best match is the only best one.
use nodel_mcp.Base.{
  ℕ, ◌≤◌, ◌<◌, ◌≡◌, refl, ap, subst, Bool, true, false, ◌&&◌, none, some, List, [], ◌∷◌, ◌++◌, Text,
  ltb, ◌==◌,
}
use nodel_mcp.Base.{All, keep, map, arith, Bool-cases, inl, inr, ok}
use nodel_mcp.Resolution.{
  best_score, only, unique_best, matches, best_local_match, Locale, NormalizedNode, local_score,
}

All-map :
    {A : Type 0} {P Q : A → Type 0} (xs : List A) → ((x : A) → P x → Q x) → All P xs → All Q xs
All-map [] f h = tt
All-map (x ∷ xs) f h = (f x h.0, All-map xs f h.1)

-- Where one element passes a test, the list has nothing else that does.
pub record IsOnly {A : Type 0} (p : A → Bool) (xs : List A) (x : A) : Type 0 where
  pub before : List A
  pub behind : List A
  pub parts : xs ≡ before ++ (x ∷ behind)
  pub passes : p x ≡ true
  pub others_before : All (λ z. p z ≡ false) before
  pub others_behind : All (λ z. p z ≡ false) behind

keep_none : {A : Type 0} (p : A → Bool) (xs : List A) → keep p xs ≡ [] → All (λ z. p z ≡ false) xs
keep_none p [] h = tt
keep_none p (x ∷ xs) h = elim (Bool-cases (p x)) [
  | inl passes ↦ let bad : x ∷ keep p xs ≡ [] = rw passes at h in cc
  | inr fails ↦ (fails, keep_none p xs (rw fails at h))
]

keep_one : {A : Type 0} (p : A → Bool) (xs : List A) {x : A} → keep p xs ≡ x ∷ [] → IsOnly p xs x
keep_one p [] h = cc
keep_one p (y ∷ xs) {x} h = elim (Bool-cases (p y)) [
  | inl passes ↦
      let e : y ∷ keep p xs ≡ x ∷ [] = rw passes at h in
      let same : y ≡ x = cc in
      let rest : keep p xs ≡ [] = cc in
      rw (← same) (record {
        before = [];
        behind = xs;
        parts = refl;
        passes = passes;
        others_before = tt;
        others_behind = keep_none p xs rest;
      })
  | inr fails ↦
      let o = keep_one p xs (rw fails at h) in
      record {
        before = y ∷ o.before;
        behind = o.behind;
        parts = ap (λ t. y ∷ t) o.parts;
        passes = o.passes;
        others_before = (fails, o.others_before);
        others_behind = o.others_behind;
      }
]

module _ {A : Type 0} (score : A → ℕ) where
  bounded : (nodes : List A) → All (λ node. score node ≤ best_score (matches score nodes)) nodes
  unfolding best_score
  bounded [] = tt
  bounded (x ∷ nodes) = (ground arith, All-map nodes (λ z h. ground arith) (bounded nodes))

  -- What is best among the matches passes this test, and nothing else does.
  abbrev is_best : ℕ → A → Bool
  is_best best node = ltb 0 (score node) && score node == best

  keep_matches :
      (best : ℕ) (nodes : List A)
      → keep (λ m. m.1 == best) (matches score nodes)
        ≡ map (λ node. (node, score node)) (keep (is_best best) nodes)
  keep_matches best [] = refl
  keep_matches best (x ∷ nodes) = ground (arith, keep_matches best nodes)

All-split : {A : Type 0} (P : A → Type 0) (xs ys : List A) → All P (xs ++ ys) → All P xs × All P ys
All-split P [] ys h = (tt, h)
All-split P (x ∷ xs) ys h = let (l, r) = All-split P xs ys h.1 in ((h.0, l), r)

All-both :
    {A : Type 0} {P Q R : A → Type 0} (xs : List A)
    → ((x : A) → P x → Q x → R x)
    → All P xs
    → All Q xs
    → All R xs
All-both [] f h k = tt
All-both (x ∷ xs) f h k = (f x h.0 k.0, All-both xs f h.1 k.1)

-- One element of a list, at one place, has the greatest score, which is not 0.
pub record IsBest {A : Type 0} (score : A → ℕ) (nodes : List A) (node : A) : Type 0 where
  pub before : List A
  pub behind : List A
  pub parts : nodes ≡ before ++ (node ∷ behind)
  pub matches : 0 < score node
  pub beats_before : All (λ z. score z < score node) before
  pub beats_behind : All (λ z. score z < score node) behind

only-some :
    {A : Type 0} (score : A → ℕ) (ys : List A) {node : A}
    → only (map (λ x. (x, score x)) ys) ≡ ok (some node)
    → ys ≡ node ∷ []
only-some score [] h = cc
only-some score (y ∷ []) h = cc
only-some score (y ∷ z ∷ ys) h = cc

IsOnly-IsBest :
    {A : Type 0} (score : A → ℕ) (nodes : List A) (best : ℕ) {node : A}
    → All (λ z. score z ≤ best) nodes
    → IsOnly (is_best score best) nodes node
    → IsBest score nodes node
IsOnly-IsBest score nodes best {node} bound o =
    let passed = o.passes in
    let equal : score node ≡ best = ground arith in
    let (b, c) =
      All-split (λ z. score z ≤ best) o.before (node ∷ o.behind)
        (subst (All (λ z. score z ≤ best)) o.parts bound) in
    record {
      before = o.before;
      behind = o.behind;
      parts = o.parts;
      matches = ground arith;
      beats_before = All-both o.before (λ z h k. ground arith) b o.others_before;
      beats_behind = All-both o.behind (λ z h k. ground arith) c.1 o.others_behind;
    }

-- The best of the matches by a score is at one place of the list, and beats every other element.
unique_best-IsBest :
    {A : Type 0} (score : A → ℕ) (nodes : List A) {node : A}
    → unique_best (matches score nodes) ≡ ok (some node)
    → IsBest score nodes node
unfolding unique_best
unique_best-IsBest score nodes {node} h =
    elim (Bool-cases (best_score (matches score nodes) == 0)) [
      | inl nothing ↦ let bad : ok none ≡ ok (some node) = rw nothing at h in cc
      | inr something ↦
          let h' : only (keep (λ m. m.1 == best_score (matches score nodes)) (matches score nodes))
              ≡ ok (some node) =
            rw something at h in
          let one =
            only-some score (keep (is_best score (best_score (matches score nodes))) nodes)
              (rw (keep_matches score (best_score (matches score nodes)) nodes) at h') in
          IsOnly-IsBest score nodes (best_score (matches score nodes)) (bounded score nodes)
            (keep_one _ nodes one)
    ]

-- A node that `bestLocalMatch` returns is at one place of the list, matches the input, and has a
-- greater score than every other node.
pub best_local_match_lem :
    (l : Locale) (nodes : List NormalizedNode) (input : Text) {node : NormalizedNode}
    → best_local_match l nodes input ≡ ok (some node)
    → IsBest (local_score l input) nodes node
unfolding best_local_match
best_local_match_lem l nodes input h = unique_best-IsBest (local_score l input) nodes h
