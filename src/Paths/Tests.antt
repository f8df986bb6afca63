-- ===== src/Paths/Tests.antt =====
-- Paths that are accepted, and instances of the theorems about them.
use nodel_mcp.Base.{
  ℕ, ◌≡◌, refl, ltb, Bool, true, [], ◌∷◌, Text, codes, ok, err, split, trim, trim_start, is_space,
}
use nodel_mcp.Base.{
  has_code, text_eq, starts_with, code_points, points_from, public_error, validation,
}
use nodel_mcp.Paths.{
  assert_safe_recipe_path, has_drive, content_asset_path_warning, is_ui_asset_path, extension,
}
use nodel_mcp.Paths.Containment.{follow, below, safe_path_contained}

-- The ASCII part of the category C.
abbrev is_control : ℕ → Bool
is_control c = ltb c 32

abbrev script : Text
script = codes "lib/a.py"

accepted : assert_safe_recipe_path is_control script ≡ ok script
unfolding assert_safe_recipe_path trim trim_start is_space text_eq code_points points_from
    starts_with has_drive has_code split
accepted = refl

climbing :
    assert_safe_recipe_path is_control (codes "lib/../../a.py") ≡ err (public_error validation)
unfolding assert_safe_recipe_path trim trim_start is_space text_eq code_points points_from
    starts_with has_drive has_code split
climbing = refl

warned : content_asset_path_warning (codes "site/app.JS") ≡ true
unfolding content_asset_path_warning starts_with is_ui_asset_path extension text_eq
warned = refl

safe_path_contained_example :
    (script ≡ script)
    × (follow (codes "recipe" ∷ []) (split b'/' script)
        ≡ below (codes "recipe" ∷ []) (split b'/' script))
safe_path_contained_example = safe_path_contained is_control script (codes "recipe" ∷ []) accepted
