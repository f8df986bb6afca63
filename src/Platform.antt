-- ===== src/Platform.antt =====
-- What the program takes from node:crypto and from `Date`, as an interface: SHA-256, and the text of
-- a time in milliseconds. Times are those that `Date` can hold. `digest` hashes the code points of a
-- text, a lone surrogate among them, by the scheme of UTF-8. The program hashes UTF-8 proper, where
-- every lone surrogate is U+FFFD: that is `sha256`. On a text without lone surrogates, as JSON texts
-- are, the two are one.
use nodel_mcp.Base.{ℕ, ◌≤◌, ◌≡◌, refl, Option, some, none, Text, [], ◌∷◌, to_well_formed}

-- The last time, in milliseconds, of a `Date`.
abbrev pub max_time : ℕ
max_time = 8640000000000000

pub record Platform : Type 0 where
  pub digest : Text → Text
  pub to_iso_string : ℕ → Text
  pub parse_date : Text → Option ℕ
  -- no two inputs of SHA-256 with one digest are known
  pub digest-injective : (a b : Text) → digest a ≡ digest b → a ≡ b
  pub parse_date-to_iso_string : (t : ℕ) → t ≤ max_time → parse_date (to_iso_string t) ≡ some t

-- `createHash("sha256").update(text, "utf8")`
unfoldable pub sha256 : Platform → Text → Text
unfolding to_well_formed
sha256 p s = p.digest (to_well_formed s)

-- Texts that are one text once lone surrogates are U+FFFD have one hash, and others have not.
pub sha256-injective :
    (p : Platform) (a b : Text) → sha256 p a ≡ sha256 p b → to_well_formed a ≡ to_well_formed b
unfolding sha256
sha256-injective p a b e = p.digest-injective (to_well_formed a) (to_well_formed b) e

-- A platform that meets the interface: a text is its own digest, a time is one code unit.
abbrev pub parse_unit : Text → Option ℕ
parse_unit (t ∷ []) = some t
parse_unit _ = none

abbrev pub plain : Platform
plain = record {
  digest = λ a. a;
  to_iso_string = λ t. t ∷ [];
  parse_date = parse_unit;
  digest-injective = λ a b e. e;
  parse_date-to_iso_string = λ t h. refl;
}
