-- ===== src/Audit/Retention.antt =====
-- src/state/audit.ts: which backups the retention removes.
use nodel_mcp.Base.{
  ℕ, suc, zero, ◌+◌, ◌-◌, ◌≤◌, ◌≡◌, refl, ap, Bool, not, List, [], ◌∷◌, Text, arith, Bool-cases,
  inl, inr, ◌⊎◌, keep, take, drop, length, leb, ◌++◌,
}
use nodel_mcp.Audit.Backups.{Backup, is_removable, too_many, retained}

take-none : (bs : List Backup) (n : ℕ) → n ≡ 0 → take n bs ≡ []
take-none bs zero h = refl
take-none bs (suc n) h = ground arith

length-parts :
    (p : Backup → Bool) (bs : List Backup)
    → length bs ≡ length (keep p bs) + length (keep (λ b. not (p b)) bs)
length-parts p [] = omega arith
length-parts p (b ∷ bs) = elim (Bool-cases (p b)) [
  | inl e ↦ rw e (omega (arith, length-parts p bs))
  | inr e ↦ rw e (omega (arith, length-parts p bs))
]

-- What the cap of the retention removes of `kept`: the first of those that are removable, no more
-- than it must, and all of them where that is not enough.
pub record IsCapped (cap : ℕ) (ids : List Text) (kept removed : List Backup) : Type 0 where
  -- the removable ones that stay
  pub spared : List Backup
  pub parts : keep (is_removable ids) kept ≡ removed ++ spared
  pub is_within :
      (length spared + length (keep (λ b. not (is_removable ids b)) kept) ≤ cap) ⊎ (spared ≡ [])
  pub is_needed :
      (removed ≡ []) ⊎ (cap ≤ length spared + length (keep (λ b. not (is_removable ids b)) kept))

take-drop : (n : ℕ) (bs : List Backup) → bs ≡ take n bs ++ drop n bs
take-drop zero bs = refl
take-drop (suc n) [] = refl
take-drop (suc n) (b ∷ bs) = ap (λ r. b ∷ r) (take-drop n bs)

length-drop : (n : ℕ) (bs : List Backup) → length (drop n bs) ≡ length bs - n
length-drop zero bs = omega arith
length-drop (suc n) [] = omega arith
length-drop (suc n) (b ∷ bs) = omega (arith, length-drop n bs)

none_left : (bs : List Backup) → length bs ≡ 0 → bs ≡ []
none_left [] h = refl
none_left (b ∷ bs) h = ground arith

-- Of the backups of a node that did not expire, the cap removes only such whose operation has an end
-- on record, and of these the first ones of the list. At most as many backups as the cap says stay,
-- or exactly those whose operation has no end on record; and none is removed unless as many as the
-- cap says stay.
pub too_many_bounds :
    (cap t days : ℕ) (ids : List Text) (matching : List Backup)
    → let kept = retained t days ids matching in IsCapped cap ids kept (too_many cap ids kept)
unfolding too_many
too_many_bounds cap t days ids matching =
    let kept = retained t days ids matching in
    let old = keep (is_removable ids) kept in
    let n = length kept - cap in
    let parted = length-parts (is_removable ids) kept in
    let left = length-drop n old in
    record {
      spared = drop n old;
      parts = take-drop n old;
      is_within = elim (Bool-cases (leb (length old) n)) [
        | inl all ↦ inr (none_left (drop n old) (ground (arith, left)))
        | inr some ↦ inl (ground (arith, left, parted))
      ];
      is_needed = elim (Bool-cases (leb (length kept) cap)) [
        | inl few ↦ inl (take-none old n (ground arith))
        | inr many ↦ inr (ground (arith, left, parted))
      ];
    }
