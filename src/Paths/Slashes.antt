-- ===== src/Paths/Slashes.antt =====
-- Slashes around a public recipe path.
use nodel_mcp.Base.{ℕ, zero, suc, ◌≡◌, ◌∙◌, refl, Bool, true, false, List, [], ◌∷◌, ◌++◌, reverse}
use nodel_mcp.Base.{
  Text, codes, is_empty, split, onto_first, any, ok, arith, if◌then◌else◌, ◌==◌, ==_iff,
  starts_with, ap,
}
use nodel_mcp.Paths.{
  is_bad_segment, assert_safe_recipe_path, assert_safe_public_recipe_path, strip, strip_start,
}
use nodel_mcp.Paths.Containment.{assert_safe_recipe_path-IsAccepted}
use mathlib.Core.List.{reverse-append, reverse-reverse, reverse-cons}

abbrev pub slashes : ℕ → Text
slashes zero = []
slashes (suc n) = b'/' ∷ slashes n

strip_start-slashes : (n : ℕ) (s : Text) → strip_start (slashes n ++ s) ≡ strip_start s
unfolding strip_start
strip_start-slashes zero s = refl
strip_start-slashes (suc n) s = strip_start-slashes n s

abbrev rest_of : List Text → List Text
rest_of [] = []
rest_of (s ∷ ss) = ss

last_segment : (xs : Text) → any is_bad_segment (rest_of (split b'/' (xs ++ (b'/' ∷ [])))) ≡ true
unfolding split
last_segment [] = refl
last_segment (x ∷ xs) = rest_lem (split b'/' (xs ++ (b'/' ∷ []))) (last_segment xs)
  where
    rest_lem :
        (ss : List Text)
        → any is_bad_segment (rest_of ss) ≡ true
        → any is_bad_segment (rest_of (if x == b'/' then [] ∷ ss else onto_first x ss)) ≡ true
    rest_lem [] h = ground arith
    rest_lem (s ∷ ss) h = ground arith

slashes-snoc : (m : ℕ) → slashes m ++ (b'/' ∷ []) ≡ b'/' ∷ slashes m
slashes-snoc zero = refl
slashes-snoc (suc m) = ap (λ s. b'/' ∷ s) (slashes-snoc m)

reverse-slashes : (m : ℕ) → reverse (slashes m) ≡ slashes m
reverse-slashes zero = refl
reverse-slashes (suc m) =
    reverse-cons b'/' (slashes m) ∙ ap (λ s. s ++ (b'/' ∷ [])) (reverse-slashes m) ∙ slashes-snoc m

-- The last code unit of a path without empty segments is no slash.
end_kept : (r : Text) → any is_bad_segment (split b'/' (reverse r)) ≡ false → strip_start r ≡ r
unfolding strip_start
end_kept [] h = refl
end_kept (c ∷ r) h = ends_in c r (rw (reverse-cons c r) at h)
  where
    bad_rest :
        (ss : List Text) → any is_bad_segment (rest_of ss) ≡ true → any is_bad_segment ss ≡ true
    bad_rest [] b = b
    bad_rest (s ∷ ss) b = ground arith

    ends_in :
        (c : ℕ) (r : Text)
        → any is_bad_segment (split b'/' (reverse r ++ (c ∷ []))) ≡ false
        → (if c == b'/' then strip_start r else c ∷ r) ≡ c ∷ r
    ends_in c r h =
        let bad = bad_rest (split b'/' (reverse r ++ (b'/' ∷ []))) (last_segment (reverse r)) in
        ground (arith, ==_iff c b'/')

start_kept :
    (p s : Text)
    → is_empty p ≡ false
    → starts_with p (codes "/") ≡ false
    → strip_start (p ++ s) ≡ p ++ s
unfolding strip_start starts_with
start_kept [] s full h = cc
start_kept (c ∷ p) s full h = ground arith

strip-slashes :
    (n m : ℕ) (p : Text)
    → is_empty p ≡ false
    → starts_with p (codes "/") ≡ false
    → any is_bad_segment (split b'/' p) ≡ false
    → strip (slashes n ++ (p ++ slashes m)) ≡ p
unfolding strip
strip-slashes n m p full relative good =
    ap (λ s. reverse (strip_start (reverse s)))
      (strip_start-slashes n (p ++ slashes m) ∙ start_kept p (slashes m) full relative)
    ∙ ap (λ s. reverse (strip_start s))
        (reverse-append p (slashes m) ∙ ap (λ s. s ++ reverse p) (reverse-slashes m))
    ∙ ap reverse
        (strip_start-slashes m (reverse p) ∙ end_kept (reverse p) (rw (reverse-reverse p) good))
    ∙ reverse-reverse p

-- A path that is accepted is accepted under any slashes before and behind it, as the same path.
pub public_path_stripped :
    (is_other : ℕ → Bool) (n m : ℕ) (path : Text)
    → assert_safe_recipe_path is_other path ≡ ok path
    → assert_safe_public_recipe_path is_other (slashes n ++ (path ++ slashes m)) ≡ ok path
unfolding assert_safe_public_recipe_path
public_path_stripped is_other n m path h =
    let s = assert_safe_recipe_path-IsAccepted is_other path h in
    rw (strip-slashes n m path s.is_not_empty s.is_relative s.has_no_bad_segment) h
