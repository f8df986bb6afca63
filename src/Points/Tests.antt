-- ===== src/Points/Tests.antt =====
-- src/mcp/tools/pointFiltering.ts: filters of points on small inputs.
use nodel_mcp.Base.{
  ◌≡◌, refl, Bool, true, false, ◌&&◌, none, some, List, [], ◌∷◌, codes, includes, to_lower, ok, err,
  public_error, validation,
}
use nodel_mcp.Values.{Value, object, Fields, end, field, text, null}
use nodel_mcp.Points.{
  Engine, PointFilterOptions, FilterCandidate, build_point_predicate, compile_safe_filter_regex,
  by_names, by_regex,
}
use nodel_mcp.Points.Patterns.{
  has_quantified_group, has_backreference, scan, is_quantifier, after_digit, after_comma,
}
use nodel_mcp.Points.Filters.{FilteredBindings, filter_bindings}
use nodel_mcp.Points.Filters.Selected.{IsSelection, filter_bindings_selects}

-- Patterns are texts to look for.
abbrev engine : Engine
engine = record {
  lower = to_lower;
  regexp = λ sensitive p. some (λ s. includes s p);
  safe_regex = λ p. true;
}

abbrev lamp_only : PointFilterOptions
lamp_only = record { names = some (codes "LAMP" ∷ []); filter = none; case_sensitive = none }

abbrev both : PointFilterOptions
both = record { names = some (codes "LAMP" ∷ []); filter = some (codes "x"); case_sensitive = none }

both_refused : build_point_predicate engine both ≡ err (public_error validation)
unfolding build_point_predicate
both_refused = refl

group_star : has_quantified_group (codes "(a+)+") ≡ true
unfolding has_quantified_group scan is_quantifier
group_star = refl

group_count : has_quantified_group (codes "(ab){2,}") ≡ true
unfolding has_quantified_group scan is_quantifier after_digit after_comma
group_count = refl

class_star : has_quantified_group (codes "[)]*") ≡ false
unfolding has_quantified_group scan is_quantifier
class_star = refl

reference : has_backreference (codes "(a)\\1") ≡ true
unfolding has_backreference
reference = refl

abbrev group : Fields
group = field (codes "Lamp") (text (codes "on")) (field (codes "Fan") null end)

abbrev bindings : Value
bindings = object (field (codes "actions") (object group) end)

abbrev statuses : List Value
statuses =
    object
      (field (codes "type") (text (codes "action")) (field (codes "name") (text (codes "Fan")) end))
    ∷ null
    ∷ []

abbrev takes_lamp : FilterCandidate → Bool
takes_lamp c = by_names engine false (codes "lamp" ∷ []) c && by_regex engine none c

filter_bindings_selects_example :
    (r : FilteredBindings) × (filter_bindings engine null bindings (some statuses) lamp_only ≡ ok r)
    × IsSelection to_lower null bindings (some statuses) takes_lamp r
unfolding build_point_predicate compile_safe_filter_regex
filter_bindings_selects_example =
    filter_bindings_selects engine null bindings (some statuses) lamp_only takes_lamp refl
