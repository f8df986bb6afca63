-- ===== src/Paths.antt =====
-- src/nodel/pathPolicy.ts: the paths of recipe files.
-- `is_other` says which code points have the general category C of Unicode, `\p{C}`.
pub mod Containment
pub mod Slashes
mod Tests
use nodel_mcp.Base.{
  ℕ, ◌≡◌, Bool, true, false, not, ◌&&◌, ◌||◌, Option, none, some, List, [], ◌∷◌, ◌++◌,
}
use nodel_mcp.Base.{
  Text, codes, trim, text_eq, is_empty, starts_with, has_code, split, code_points, lower, to_lower,
}
use nodel_mcp.Base.{
  leb, ◌==◌, if◌then◌else◌, any, Result, ok, guard, ◌>>◌, public_error, validation,
}
use nodel_mcp.Base.{reverse}

-- `/^[A-Za-z]:/u`
unfoldable pub has_drive : Text → Bool
has_drive (c ∷ d ∷ s) = leb b'a' (lower c) && leb (lower c) b'z' && d == b':'
has_drive _ = false

abbrev pub is_bad_segment : Text → Bool
is_bad_segment s = is_empty s || text_eq s (codes ".") || text_eq s (codes "..")

unfoldable pub assert_safe_recipe_path : (ℕ → Bool) → Text → Result Text
unfolding has_drive
assert_safe_recipe_path is_other path =
    guard (text_eq (trim path) path && not (is_empty path)) (public_error validation)
    >> (guard (not (any is_other (code_points path))) (public_error validation)
        >> (guard (not (starts_with path (codes "/") || has_drive path)) (public_error validation)
            >> (guard (not (has_code b'\\' path)) (public_error validation)
                >> (guard (not (has_code b'?' path || has_code b'#' path)) (public_error validation)
                    >> (guard (not (any is_bad_segment (split b'/' path))) (public_error validation)
                        >> ok path)))))

unfoldable pub strip_start : Text → Text
strip_start [] = []
strip_start (c ∷ s) = if c == b'/' then strip_start s else c ∷ s

-- `path.replace(/^\/+|\/+$/gu, "")`
unfoldable pub strip : Text → Text
unfolding strip_start
strip path = reverse (strip_start (reverse (strip_start path)))

unfoldable pub assert_safe_public_recipe_path : (ℕ → Bool) → Text → Result Text
unfolding assert_safe_recipe_path strip
assert_safe_public_recipe_path is_other path = assert_safe_recipe_path is_other (strip path)

abbrev pub ui_asset_extensions : List Text
ui_asset_extensions =
    codes ".avif"
    ∷ codes ".bmp"
    ∷ codes ".css"
    ∷ codes ".eot"
    ∷ codes ".gif"
    ∷ codes ".htm"
    ∷ codes ".html"
    ∷ codes ".ico"
    ∷ codes ".jpeg"
    ∷ codes ".jpg"
    ∷ codes ".js"
    ∷ codes ".map"
    ∷ codes ".mjs"
    ∷ codes ".otf"
    ∷ codes ".png"
    ∷ codes ".svg"
    ∷ codes ".ttf"
    ∷ codes ".wasm"
    ∷ codes ".webp"
    ∷ codes ".woff"
    ∷ codes ".woff2"
    ∷ []

-- `name.slice(name.lastIndexOf("."))`, if there is a dot
unfoldable pub extension : Text → Option Text
extension [] = none
extension (c ∷ s) = elim (extension s) [
  | some e ↦ some e
  | none ↦ if c == b'.' then some (c ∷ s) else none
]

abbrev is_known : Option Text → Bool
is_known none = false
is_known (some e) = any (text_eq e) ui_asset_extensions

unfoldable pub is_ui_asset_path : Text → Bool
unfolding extension
is_ui_asset_path path = is_known (extension (to_lower path))

-- Whether there is a warning; its text is not kept.
unfoldable pub content_asset_path_warning : Text → Bool
unfolding is_ui_asset_path
content_asset_path_warning path =
    not (starts_with path (codes "content/") || not (is_ui_asset_path path))
