-- ===== src/Points/Definitions.antt =====
-- src/mcp/tools/pointFiltering.ts: the definitions of actions and events, as a list or by name.
use nodel_mcp.Base.{
  ℕ, suc, Option, none, some, ◌<|>◌, or_else, List, [], ◌∷◌, Text, codes, Result, ok, ◌>>=◌, map,
  length, ◌++◌,
}
use nodel_mcp.Values.{
  Value, array, object, Items, nil, cons, Fields, end, field, get, read_string, null, undefined,
  not_finite, integer, fraction, from_items, from_entries, pos,
}
use nodel_mcp.Canonical.{integer_text}
use nodel_mcp.Points.{Engine, PointFilterOptions, FilterCandidate, filter_candidates}

pub record DefinitionEntry : Type 0 where
  pub name : Text
  pub definition : Fields
  pub raw : Value

-- `isRecord(definition) ? definition : { value: definition }`
abbrev as_record : Value → Fields
as_record (object fs) = fs
as_record v = field (codes "value") v end

abbrev read : Text → Value → Option Text
read k (object fs) = read_string (get k fs)
read k _ = none

unfoldable pub entries_from : ℕ → Items → List DefinitionEntry
unfolding get integer_text
entries_from index nil = []
entries_from index (cons d ds) =
    record {
      name = or_else (read (codes "name") d <|> read (codes "title") d) (integer_text (pos index));
      definition = as_record d;
      raw = d;
    }
    ∷ entries_from (suc index) ds

unfoldable pub entries_of : Fields → List DefinitionEntry
entries_of end = []
entries_of (field name d fs) =
    record { name = name; definition = as_record d; raw = d } ∷ entries_of fs

unfoldable pub normalize_definitions : Value → List DefinitionEntry
unfolding entries_from entries_of
normalize_definitions (array ds) = entries_from 0 ds
normalize_definitions (object fs) = entries_of fs
normalize_definitions _ = []

pub record DefinitionSummary : Type 0 where
  pub name : Text
  pub title : Option Text
  pub group : Option Text
  pub order : Value
  pub schema : Value

-- `typeof v === "number" ? v : undefined`
abbrev number_or_undefined : Value → Value
number_or_undefined (integer n) = integer n
number_or_undefined (fraction t) = fraction t
number_or_undefined not_finite = not_finite
number_or_undefined _ = undefined

-- `v ?? d`
abbrev pub or_value : Value → Value → Value
or_value null d = d
or_value undefined d = d
or_value v d = v

unfoldable pub summarize_definition_entry : DefinitionEntry → DefinitionSummary
unfolding get
summarize_definition_entry e =
    let d = e.definition in
    record {
      name = e.name;
      title = read_string (get (codes "title") d) <|> read_string (get (codes "label") d);
      group = read_string (get (codes "group") d);
      order = number_or_undefined (get (codes "order") d);
      schema =
          or_value (or_value (get (codes "schema") d) (get (codes "params") d))
            (get (codes "arguments") d);
    }

unfoldable pub summarize_definitions : Value → List DefinitionSummary
unfolding summarize_definition_entry normalize_definitions
summarize_definitions value = map summarize_definition_entry (normalize_definitions value)

abbrev entry_of : DefinitionEntry → Text × Value
entry_of e = (e.name, e.raw)

unfoldable pub rebuild_definitions : Value → List DefinitionEntry → Value
unfolding from_items from_entries
rebuild_definitions (array ds) entries = array (from_items (map (λ e. e.raw) entries))
rebuild_definitions (object fs) entries = object (from_entries (map entry_of entries))
rebuild_definitions source entries = source

abbrev listed : Option Text → List Text
listed none = []
listed (some s) = s ∷ []

unfoldable pub definition_candidate : DefinitionEntry → FilterCandidate
unfolding get
definition_candidate e =
    let d = e.definition in
    record {
      name = e.name;
      aliases =
          listed (read_string (get (codes "name") d))
          ++ (listed (read_string (get (codes "title") d))
              ++ listed (read_string (get (codes "label") d)));
    }

pub record FilteredDefinitions : Type 0 where
  pub value : Value
  pub total_count : ℕ
  pub matched_count : ℕ
  pub summaries : List DefinitionSummary

unfoldable pub filter_definitions : Engine → Value → PointFilterOptions → Result FilteredDefinitions
unfolding filter_candidates definition_candidate rebuild_definitions normalize_definitions
    summarize_definition_entry
filter_definitions e value o = do
  let entries = normalize_definitions value
  matched ← filter_candidates e entries o definition_candidate
  ok (record {
    value = rebuild_definitions value matched;
    total_count = length entries;
    matched_count = length matched;
    summaries = map summarize_definition_entry matched;
  })
