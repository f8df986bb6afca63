-- ===== src/Points/Filters.antt =====
-- src/mcp/tools/pointFiltering.ts: the schema, the configuration and the statuses, cut down to the
-- binding points that match, and the summaries of these points.
pub mod Groups
pub mod Selected
use nodel_mcp.Base.{
  ℕ, Bool, true, false, Option, none, some, List, [], ◌∷◌, ◌++◌, Text, codes, text_eq, map,
  if◌then◌else◌, any, keep, length, Result, ok, ◌>>=◌,
}
use nodel_mcp.Values.{
  Value, object, Fields, end, field, undefined, get, put, put_all, is_undefined, entries,
  from_entries, is_record,
}
use nodel_mcp.Points.{Engine, PointFilterOptions, filter_candidates}
use nodel_mcp.Points.Names.{
  BindingKind, actions, events, kind_text, binding_key, normalize_binding_status_entry,
}
use nodel_mcp.Points.Bindings.{BindingPoint, has_key, binding_candidate, normalize_binding_points}

-- `Object.fromEntries(Object.entries(group).filter(([name]) => matchedKeys.has(…)))`
unfoldable pub matching_fields : List Text → BindingKind → Fields → Fields
unfolding has_key binding_key entries from_entries
matching_fields keys kind fs =
    from_entries (keep (λ e. has_key keys (binding_key kind e.0)) (entries fs))

abbrev pub filter_properties : List Text → BindingKind → Fields → Value → Fields
filter_properties keys kind group (object ps) =
    put (codes "properties") (object (matching_fields keys kind ps)) group
filter_properties keys kind group _ = group

-- The loop over the kinds, for one kind.
abbrev pub filter_group : List Text → BindingKind → Fields → Value → Fields
filter_group keys kind properties (object group) =
    put (kind_text kind)
      (object (filter_properties keys kind group (get (codes "properties") group))) properties
filter_group keys kind properties _ = properties

abbrev pub filter_kind : List Text → BindingKind → Fields → Fields
filter_kind keys kind properties =
    filter_group keys kind properties (get (kind_text kind) properties)

abbrev pub filter_schema_properties : List Text → Fields → Value → Fields
filter_schema_properties keys schema (object properties) =
    put (codes "properties")
      (object (filter_kind keys events (filter_kind keys actions properties))) schema
filter_schema_properties keys schema _ = schema

unfoldable pub filter_binding_schema : Value → List Text → Value
unfolding matching_fields get put
filter_binding_schema (object schema) keys =
    object (filter_schema_properties keys schema (get (codes "properties") schema))
filter_binding_schema schema keys = schema

abbrev pub config_kind : List Text → BindingKind → Fields → Value → Fields
config_kind keys kind next (object group) =
    put (kind_text kind) (object (matching_fields keys kind group)) next
config_kind keys kind next _ = next

-- Each group is read from the configuration and written to the copy.
unfoldable pub filter_binding_config : Value → List Text → Value
unfolding matching_fields get put
filter_binding_config (object bs) keys = object (
    config_kind keys events (config_kind keys actions bs (get (kind_text actions) bs))
      (get (kind_text events) bs))
filter_binding_config bindings keys = bindings

abbrev pub is_matched : List Text → Option (BindingKind × Text) → Bool
is_matched keys none = false
is_matched keys (some (kind, name)) = has_key keys (binding_key kind name)

unfoldable pub filter_binding_status : (Text → Text) → List Value → List Text → List Value
unfolding has_key binding_key normalize_binding_status_entry
filter_binding_status lower binding_status keys =
    keep (λ entry. is_matched keys (normalize_binding_status_entry lower entry)) binding_status

-- `pickKeys(record, keys)`
unfoldable pub pick_from : Fields → List Text → Fields → Fields
unfolding get put
pick_from fs [] result = result
pick_from fs (k ∷ ks) result =
    let v = get k fs in pick_from fs ks (if is_undefined v then result else put k v result)

unfoldable pub pick_keys : Fields → List Text → Fields
unfolding pick_from
pick_keys fs keys = pick_from fs keys end

abbrev or_default : Fields → Value → Value
or_default end d = d
or_default (field k v fs) d = object (field k v fs)

unfoldable pub summarize_binding_schema : Value → Value
unfolding pick_keys
summarize_binding_schema (object fs) =
    or_default
      (pick_keys fs (
        codes "title"
        ∷ codes "description"
        ∷ codes "type"
        ∷ codes "required"
        ∷ codes "default"
        ∷ codes "enum"
        ∷ []))
      undefined
summarize_binding_schema v = v

abbrev preferred_keys : BindingKind → List Text
preferred_keys actions =
    codes "node" ∷ codes "action" ∷ codes "args" ∷ codes "arguments" ∷ codes "enabled" ∷ []
preferred_keys events =
    codes "node"
    ∷ codes "event"
    ∷ codes "signal"
    ∷ codes "args"
    ∷ codes "arguments"
    ∷ codes "enabled"
    ∷ []

unfoldable pub summarize_binding_config : Value → BindingKind → Value
unfolding pick_keys
summarize_binding_config (object fs) kind =
    or_default (pick_keys fs (preferred_keys kind)) (object fs)
summarize_binding_config v kind = v

unfoldable pub summarize_binding_status : Value → Value
unfolding pick_keys
summarize_binding_status (object fs) =
    or_default
      (pick_keys fs (
        codes "source"
        ∷ codes "type"
        ∷ codes "name"
        ∷ codes "binding"
        ∷ codes "bindingName"
        ∷ codes "node"
        ∷ codes "action"
        ∷ codes "event"
        ∷ codes "signal"
        ∷ codes "status"
        ∷ codes "state"
        ∷ codes "connected"
        ∷ codes "error"
        ∷ codes "message"
        ∷ codes "comment"
        ∷ []))
      (object fs)
summarize_binding_status v = v

pub record BindingSummary : Type 0 where
  pub kind : BindingKind
  pub name : Text
  pub title : Option Text
  pub in_schema : Bool
  pub configured : Bool
  pub status_count : ℕ
  pub schema : Value
  pub config : Value
  pub status : Option (List Value)

abbrev status_summaries : List Value → Option (List Value)
status_summaries [] = none
status_summaries (s ∷ ss) = some (map summarize_binding_status (s ∷ ss))

unfoldable pub summarize_binding_point : BindingPoint → BindingSummary
unfolding summarize_binding_schema summarize_binding_config summarize_binding_status
summarize_binding_point p = record {
  kind = p.kind;
  name = p.name;
  title = p.title;
  in_schema = p.has_schema;
  configured = p.has_config;
  status_count = length p.statuses;
  schema = summarize_binding_schema p.schema;
  config = summarize_binding_config p.config p.kind;
  status = status_summaries p.statuses;
}

pub record FilteredBindings : Type 0 where
  pub schema : Value
  pub bindings : Value
  pub binding_status : Option (List Value)
  pub total_count : ℕ
  pub matched_count : ℕ
  pub summaries : List BindingSummary

abbrev pub status_of : (Text → Text) → Option (List Value) → List Text → Option (List Value)
status_of lower none keys = none
status_of lower (some es) keys = some (filter_binding_status lower es keys)

-- What filterBindings returns for the points that match.
unfoldable pub filtered_bindings :
    (Text → Text)
    → Value
    → Value
    → Option (List Value)
    → List BindingPoint
    → List BindingPoint
    → FilteredBindings
unfolding filter_binding_schema filter_binding_config filter_binding_status summarize_binding_point
filtered_bindings lower schema bindings binding_status points matched =
    let matched_keys = map (λ (p : BindingPoint). p.key) matched in
    record {
      schema = filter_binding_schema schema matched_keys;
      bindings = filter_binding_config bindings matched_keys;
      binding_status = status_of lower binding_status matched_keys;
      total_count = length points;
      matched_count = length matched;
      summaries = map summarize_binding_point matched;
    }

unfoldable pub filter_bindings :
    Engine → Value → Value → Option (List Value) → PointFilterOptions → Result FilteredBindings
unfolding filter_candidates binding_candidate normalize_binding_points filtered_bindings
filter_bindings e schema bindings binding_status o = do
  let points = normalize_binding_points e.lower schema bindings binding_status
  matched ← filter_candidates e points o binding_candidate
  ok (filtered_bindings e.lower schema bindings binding_status points matched)
