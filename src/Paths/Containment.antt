-- ===== src/Paths/Containment.antt =====
-- A recipe path that is accepted names a file below the folder of the recipe.
use nodel_mcp.Base.{ℕ, ◌≡◌, refl, Bool, false, ◌||◌, List, [], ◌∷◌}
use nodel_mcp.Base.{Text, codes, text_eq, is_empty, split, any, ok, arith}
use nodel_mcp.Base.{if◌then◌else◌, starts_with, has_code}
use nodel_mcp.Paths.{is_bad_segment, assert_safe_recipe_path, has_drive}

abbrev up : List Text → List Text
up [] = []
up (s ∷ folder) = folder

abbrev onward : Text → List Text → List Text
onward s folder =
    if is_empty s || text_eq s (codes ".")
    then folder
    else if text_eq s (codes "..")
    then up folder
    else s ∷ folder

-- Where segments lead from a folder, as a file system follows them. A folder is given by its
-- segments, the last first.
unfoldable pub follow : List Text → List Text → List Text
follow folder [] = folder
follow folder (s ∷ ss) = follow (onward s folder) ss

-- The place below a folder that the segments name.
unfoldable pub below : List Text → List Text → List Text
below folder [] = folder
below folder (s ∷ ss) = below (s ∷ folder) ss

follow-below :
    (folder ss : List Text) → any is_bad_segment ss ≡ false → follow folder ss ≡ below folder ss
unfolding follow below
follow-below folder [] h = refl
follow-below folder (s ∷ ss) h = ground (arith, follow-below (s ∷ folder) ss)

-- What a path meets that is accepted: it is returned as it is, it is relative, and has no bad
-- segment.
pub record IsAccepted (path q : Text) : Type 0 where
  pub is_same : q ≡ path
  pub is_not_empty : is_empty path ≡ false
  pub is_relative : starts_with path (codes "/") ≡ false
  pub has_no_drive : has_drive path ≡ false
  pub has_no_backslash : has_code b'\\' path ≡ false
  pub has_no_bad_segment : any is_bad_segment (split b'/' path) ≡ false

pub assert_safe_recipe_path-IsAccepted :
    (is_other : ℕ → Bool) (path : Text) {q : Text}
    → assert_safe_recipe_path is_other path ≡ ok q
    → IsAccepted path q
unfolding assert_safe_recipe_path
assert_safe_recipe_path-IsAccepted is_other path h = record {
  is_same = ground arith;
  is_not_empty = ground arith;
  is_relative = ground arith;
  has_no_drive = ground arith;
  has_no_backslash = ground arith;
  has_no_bad_segment = ground arith;
}

-- A path that `assertSafeRecipePath` accepts leads, from any folder and segment by segment, to the
-- place below that folder that its segments name: no segment leads up, and none is skipped.
pub safe_path_contained :
    (is_other : ℕ → Bool) (path : Text) {q : Text} (folder : List Text)
    → assert_safe_recipe_path is_other path ≡ ok q
    → (q ≡ path) × (follow folder (split b'/' q) ≡ below folder (split b'/' path))
safe_path_contained is_other path folder h =
    let s = assert_safe_recipe_path-IsAccepted is_other path h in
    (s.is_same, rw (s.is_same) (follow-below folder (split b'/' path) s.has_no_bad_segment))
