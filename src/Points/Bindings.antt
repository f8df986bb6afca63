-- ===== src/Points/Bindings.antt =====
-- src/mcp/tools/pointFiltering.ts: the binding points that a schema, a configuration and the
-- statuses name.
pub mod Keyed
pub mod Known
use nodel_mcp.Base.{
  Bool, true, false, Option, none, some, ◌<|>◌, List, [], ◌∷◌, ◌++◌, Text, codes, text_eq, map,
  if◌then◌else◌, any,
}
use nodel_mcp.Values.{Value, object, Fields, end, undefined, get, prop, read_string, entries}
use nodel_mcp.Points.{FilterCandidate}
use nodel_mcp.Points.Names.{
  BindingKind, actions, events, kind_text, binding_key, binding_name_aliases,
  normalize_binding_status_entry,
}

pub record BindingPoint : Type 0 where
  pub key : Text
  pub kind : BindingKind
  pub name : Text
  pub title : Option Text
  pub has_schema : Bool
  pub schema : Value
  pub has_config : Bool
  pub config : Value
  pub statuses : List Value

abbrev pub new_point : BindingKind → Text → BindingPoint
new_point kind name = record {
  key = binding_key kind name;
  kind = kind;
  name = name;
  title = none;
  has_schema = false;
  schema = undefined;
  has_config = false;
  config = undefined;
  statuses = [];
}

-- `matchedKeys.has(key)`
unfoldable pub has_key : List Text → Text → Bool
unfolding text_eq
has_key keys key = any (λ k. text_eq k key) keys

-- `ensureBindingPoint(points, kind, name)`, and the change of the point that it returns.
unfoldable pub with_binding_point :
    BindingKind → Text → (BindingPoint → BindingPoint) → List BindingPoint → List BindingPoint
unfolding binding_key
with_binding_point kind name change [] = change (new_point kind name) ∷ []
with_binding_point kind name change (p ∷ ps) =
    let rest = with_binding_point kind name change ps in
    if text_eq p.key (binding_key kind name) then change p ∷ ps else p ∷ rest

-- `isRecord(value) ? value : {}`
abbrev pub fields_of : Value → Fields
fields_of (object fs) = fs
fields_of _ = end

abbrev pub of_kind : BindingKind → List (Text × Value) → List (BindingKind × Text × Value)
of_kind kind [] = []
of_kind kind ((name, v) ∷ es) = (kind, name, v) ∷ of_kind kind es

-- The group of one kind in `schema.properties`, and its `properties`.
abbrev pub schema_group : Value → BindingKind → Fields
schema_group schema kind =
    fields_of (prop (codes "properties") (prop (kind_text kind) (prop (codes "properties") schema)))

abbrev pub config_group : Value → BindingKind → Fields
config_group bindings kind = fields_of (prop (kind_text kind) bindings)

unfoldable pub extract_schema_binding_entries : Value → List (BindingKind × Text × Value)
unfolding prop entries
extract_schema_binding_entries schema =
    of_kind actions (entries (schema_group schema actions))
    ++ of_kind events (entries (schema_group schema events))

unfoldable pub extract_config_binding_entries : Value → List (BindingKind × Text × Value)
unfolding prop entries
extract_config_binding_entries bindings =
    of_kind actions (entries (config_group bindings actions))
    ++ of_kind events (entries (config_group bindings events))

-- The three loops of `normalizeBindingPoints`.
unfoldable pub set_schema : Value → BindingPoint → BindingPoint
unfolding prop
set_schema definition p = record p {
  has_schema = true;
  schema = definition;
  title = read_string (prop (codes "title") definition) <|> p.title;
}

abbrev pub set_config : Value → BindingPoint → BindingPoint
set_config config p = record p { has_config = true; config = config }

abbrev pub add_status : Value → BindingPoint → BindingPoint
add_status entry p = record p { statuses = p.statuses ++ entry ∷ [] }

unfoldable pub add_points :
    (Value → BindingPoint → BindingPoint)
    → List (BindingKind × Text × Value)
    → List BindingPoint
    → List BindingPoint
unfolding with_binding_point
add_points set [] ps = ps
add_points set ((kind, name, v) ∷ es) ps =
    add_points set es (with_binding_point kind name (set v) ps)

-- `bindingStatus ?? []`
abbrev pub listed : Option (List Value) → List Value
listed none = []
listed (some es) = es

abbrev pub with_status : Value → Option (BindingKind × Text) → List BindingPoint → List BindingPoint
with_status entry none ps = ps
with_status entry (some (kind, name)) ps = with_binding_point kind name (add_status entry) ps

module _ (lower : Text → Text) where
  unfoldable pub add_statuses : List Value → List BindingPoint → List BindingPoint
  unfolding with_binding_point normalize_binding_status_entry
  add_statuses [] ps = ps
  add_statuses (entry ∷ es) ps =
      add_statuses es (with_status entry (normalize_binding_status_entry lower entry) ps)

  unfoldable pub normalize_binding_points : Value → Value → Option (List Value) → List BindingPoint
  unfolding add_points set_schema add_statuses extract_schema_binding_entries
      extract_config_binding_entries
  normalize_binding_points schema bindings binding_status = add_statuses (listed binding_status) (
      add_points set_config (extract_config_binding_entries bindings)
        (add_points set_schema (extract_schema_binding_entries schema) []))

unfoldable pub binding_candidate : BindingPoint → FilterCandidate
unfolding binding_name_aliases
binding_candidate p = record { name = p.name; aliases = binding_name_aliases p.kind p.name }
