-- ===== src/Points.antt =====
-- src/mcp/tools/pointFiltering.ts: the choice of actions, events and bindings by name or pattern.
-- `toLocaleLowerCase`, `new RegExp` with `test`, and the library safe-regex2 are parameters.
pub mod Patterns
pub mod Names
pub mod Definitions
pub mod Bindings
pub mod Filters
mod Tests
use nodel_mcp.Base.{
  Bool, true, false, ◌&&◌, not, Option, none, some, List, [], ◌∷◌, Text, is_empty, any, text_eq,
  Result, ok, err, guard, ◌>>=◌, ◌>>◌, public_error, validation, map, if◌then◌else◌, keep,
}
use nodel_mcp.Points.Patterns.{assert_safe_regex_pattern}

pub record Engine : Type 0 where
  pub lower : Text → Text
  -- the test of a pattern under the flags `u` (true) and `iu` (false), if it compiles
  pub regexp : Bool → Text → Option (Text → Bool)
  pub safe_regex : Text → Bool

pub record PointFilterOptions : Type 0 where
  pub names : Option (List Text)
  pub filter : Option Text
  pub case_sensitive : Option Bool

pub record FilterCandidate : Type 0 where
  pub name : Text
  pub aliases : List Text

-- `options.names ?? []`, `typeof options.filter === "string" && options.filter.length > 0`
abbrev pub given_names : PointFilterOptions → List Text
given_names o = elim o.names [ none ↦ [] | some ns ↦ ns ]

abbrev pub has_names : PointFilterOptions → Bool
has_names o = elim (given_names o) [ [] ↦ false | n ∷ ns ↦ true ]

abbrev pub has_filter : PointFilterOptions → Bool
has_filter o = elim o.filter [ none ↦ false | some f ↦ not (is_empty f) ]

unfoldable pub has_point_filters : PointFilterOptions → Bool
has_point_filters o = if has_names o then true else has_filter o

abbrev pub is_case_sensitive : PointFilterOptions → Bool
is_case_sensitive o = elim o.case_sensitive [ some true ↦ true | _ ↦ false ]

module _ (e : Engine) where
  unfoldable pub normalize_match_text : Bool → Text → Text
  normalize_match_text case_sensitive value = if case_sensitive then value else e.lower value

  abbrev compiled : Option (Text → Bool) → Result (Option (Text → Bool))
  compiled none = err (public_error validation)
  compiled (some test) = ok (some test)

  unfoldable pub compile_safe_filter_regex : Option Text → Bool → Result (Option (Text → Bool))
  compile_safe_filter_regex none case_sensitive = ok none
  compile_safe_filter_regex (some []) case_sensitive = ok none
  compile_safe_filter_regex (some (c ∷ s)) case_sensitive =
      assert_safe_regex_pattern e.safe_regex (c ∷ s) >> compiled (e.regexp case_sensitive (c ∷ s))

  -- One of the names is the name of the candidate or an alias of it.
  unfoldable pub is_named : Bool → List Text → FilterCandidate → Bool
  unfolding normalize_match_text
  is_named case_sensitive names c =
      any (λ n. any (text_eq n) names)
        (map (normalize_match_text case_sensitive) (c.name ∷ c.aliases))

  abbrev pub by_names : Bool → List Text → FilterCandidate → Bool
  by_names case_sensitive [] c = true
  by_names case_sensitive (n ∷ ns) c = is_named case_sensitive (n ∷ ns) c

  abbrev pub by_regex : Option (Text → Bool) → FilterCandidate → Bool
  by_regex none c = true
  by_regex (some test) c = any test (c.name ∷ c.aliases)

  unfoldable pub build_point_predicate : PointFilterOptions → Result (FilterCandidate → Bool)
  unfolding compile_safe_filter_regex is_named normalize_match_text
  build_point_predicate o = do
    guard (not (has_names o && has_filter o)) (public_error validation)
    let names = map (normalize_match_text (is_case_sensitive o)) (given_names o)
    regex ← compile_safe_filter_regex o.filter (is_case_sensitive o)
    ok (λ c. by_names (is_case_sensitive o) names c && by_regex regex c)

  unfoldable pub filter_candidates {ℓ} :
      {T : Type ℓ} → List T → PointFilterOptions → (T → FilterCandidate) → Result (List T)
  unfolding build_point_predicate
  filter_candidates entries o to_candidate =
      build_point_predicate o >>= λ predicate. ok (keep (λ t. predicate (to_candidate t)) entries)
