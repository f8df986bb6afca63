-- ===== src/Points/Filters/Groups.antt =====
-- src/mcp/tools/pointFiltering.ts: the groups of a filtered schema and of a filtered configuration.
use nodel_mcp.Base.{
  ◌≡◌, refl, Bool, true, false, List, Text, text_eq, text_eq_refl, if◌then◌else◌, codes,
}
use nodel_mcp.Values.{Value, object, Fields, end, undefined, get, prop}
use nodel_mcp.Values.Keys.{HasDistinctKeys, get-put, get-from_entries}
use nodel_mcp.Points.Names.{BindingKind, actions, events, kind_text, binding_key}
use nodel_mcp.Points.Bindings.{has_key, config_group, schema_group, fields_of}
use nodel_mcp.Points.Filters.{
  filter_binding_config, filter_binding_schema, matching_fields, config_kind, filter_kind,
  filter_group, filter_properties, filter_schema_properties,
}

get-matching_fields :
    (keys : List Text) (j : BindingKind) (n : Text) (fs : Fields)
    → HasDistinctKeys fs
    → get n (matching_fields keys j fs)
      ≡ (if has_key keys (binding_key j n) then get n fs else undefined)
unfolding matching_fields
get-matching_fields keys j n fs h = get-from_entries (λ k. has_key keys (binding_key j k)) n fs h

if_same : (b : Bool) (n : Text) → get n end ≡ (if b then get n end else undefined)
unfolding get
if_same true n = refl
if_same false n = refl

-- The group of a kind in a copy of the configuration, where the copy had `w` there.
config_kind_own :
    (keys : List Text) (j : BindingKind) (n : Text) (next : Fields) (w : Value)
    → get (kind_text j) next ≡ w
    → HasDistinctKeys (fields_of w)
    → get n (fields_of (get (kind_text j) (config_kind keys j next w)))
      ≡ (if has_key keys (binding_key j n) then get n (fields_of w) else undefined)
config_kind_own keys j n next (object group) e h =
    rw
      (
        get-put (kind_text j) (kind_text j) (object (matching_fields keys j group)) next,
        text_eq_refl (kind_text j),
      )
      (get-matching_fields keys j n group h)
config_kind_own keys j n next w e h = rw e (if_same (has_key keys (binding_key j n)) n)

config_kind_other :
    (keys : List Text) (k : BindingKind) (t : Text) (next : Fields) (w : Value)
    → text_eq (kind_text k) t ≡ false
    → get t (config_kind keys k next w) ≡ get t next
config_kind_other keys k t next (object group) e =
    rw (get-put (kind_text k) t (object (matching_fields keys k group)) next, e) refl
config_kind_other keys k t next w e = refl

-- The group of one kind in the filtered configuration.
pub config_group-filtered :
    (keys : List Text) (j : BindingKind) (n : Text) (bindings : Value)
    → HasDistinctKeys (config_group bindings j)
    → get n (config_group (filter_binding_config bindings keys) j)
      ≡ (if has_key keys (binding_key j n) then get n (config_group bindings j) else undefined)
unfolding filter_binding_config prop text_eq
config_group-filtered keys actions n (object bs) h =
    let a = get (kind_text actions) bs in
    rw
      (config_kind_other keys events (kind_text actions) (config_kind keys actions bs a)
        (get (kind_text events) bs) refl)
      (config_kind_own keys actions n bs a refl h)
config_group-filtered keys events n (object bs) h =
    let a = get (kind_text actions) bs in
    config_kind_own keys events n (config_kind keys actions bs a) (get (kind_text events) bs)
      (config_kind_other keys actions (kind_text events) bs a refl) h
config_group-filtered keys j n v h = if_same (has_key keys (binding_key j n)) n

properties_own :
    (keys : List Text) (j : BindingKind) (n : Text) (group : Fields) (w : Value)
    → get (codes "properties") group ≡ w
    → HasDistinctKeys (fields_of w)
    → get n (fields_of (get (codes "properties") (filter_properties keys j group w)))
      ≡ (if has_key keys (binding_key j n) then get n (fields_of w) else undefined)
properties_own keys j n group (object ps) e h =
    rw
      (
        get-put (codes "properties") (codes "properties") (object (matching_fields keys j ps))
            group,
        text_eq_refl (codes "properties"),
      )
      (get-matching_fields keys j n ps h)
properties_own keys j n group w e h = rw e (if_same (has_key keys (binding_key j n)) n)

-- The properties of the group of a kind, where the copy had `w` for the group.
filter_group_own :
    (keys : List Text) (j : BindingKind) (n : Text) (next : Fields) (w : Value)
    → get (kind_text j) next ≡ w
    → HasDistinctKeys (fields_of (prop (codes "properties") w))
    → get n (fields_of (prop (codes "properties") (get (kind_text j) (filter_group keys j next w))))
      ≡ (if has_key keys (binding_key j n)
          then get n (fields_of (prop (codes "properties") w))
          else undefined)
unfolding prop
filter_group_own keys j n next (object group) e h =
    let w = get (codes "properties") group in
    rw
      (
        get-put (kind_text j) (kind_text j) (object (filter_properties keys j group w)) next,
        text_eq_refl (kind_text j),
      )
      (properties_own keys j n group w refl h)
filter_group_own keys j n next w e h = rw e (if_same (has_key keys (binding_key j n)) n)

filter_group_other :
    (keys : List Text) (k : BindingKind) (t : Text) (next : Fields) (w : Value)
    → text_eq (kind_text k) t ≡ false
    → get t (filter_group keys k next w) ≡ get t next
filter_group_other keys k t next (object group) e =
    rw
      (
        get-put (kind_text k) t
            (object (filter_properties keys k group (get (codes "properties") group))) next,
        e,
      )
      refl
filter_group_other keys k t next w e = refl

filter_kind_both :
    (keys : List Text) (j : BindingKind) (n : Text) (ps : Fields)
    → HasDistinctKeys (fields_of (prop (codes "properties") (get (kind_text j) ps)))
    → get n (
        fields_of (
          prop
            (codes "properties")
            (get (kind_text j) (filter_kind keys events (filter_kind keys actions ps)))))
      ≡ (if has_key keys (binding_key j n)
          then get n (fields_of (prop (codes "properties") (get (kind_text j) ps)))
          else undefined)
unfolding text_eq
filter_kind_both keys actions n ps h =
    let next = filter_kind keys actions ps in
    rw (filter_group_other keys events (kind_text actions) next (get (kind_text events) next) refl)
      (filter_group_own keys actions n ps (get (kind_text actions) ps) refl h)
filter_kind_both keys events n ps h =
    let next = filter_kind keys actions ps in
    let same : get (kind_text events) next ≡ get (kind_text events) ps =
      filter_group_other keys actions (kind_text events) ps (get (kind_text actions) ps) refl in
    rw same (filter_group_own keys events n next (get (kind_text events) ps) same h)

schema_properties :
    (keys : List Text) (j : BindingKind) (n : Text) (schema : Fields) (w : Value)
    → get (codes "properties") schema ≡ w
    → HasDistinctKeys (fields_of (prop (codes "properties") (prop (kind_text j) w)))
    → get n (schema_group (object (filter_schema_properties keys schema w)) j) ≡ (
        if has_key keys (binding_key j n)
        then get n (fields_of (prop (codes "properties") (prop (kind_text j) w)))
        else undefined)
unfolding prop
schema_properties keys j n schema (object ps) e h =
    rw
      (
        get-put (codes "properties") (codes "properties")
            (object (filter_kind keys events (filter_kind keys actions ps))) schema,
        text_eq_refl (codes "properties"),
      )
      (filter_kind_both keys j n ps h)
schema_properties keys j n schema w e h = rw e (if_same (has_key keys (binding_key j n)) n)

-- The properties of one kind in the filtered schema.
pub schema_group-filtered :
    (keys : List Text) (j : BindingKind) (n : Text) (schema : Value)
    → HasDistinctKeys (schema_group schema j)
    → get n (schema_group (filter_binding_schema schema keys) j)
      ≡ (if has_key keys (binding_key j n) then get n (schema_group schema j) else undefined)
unfolding filter_binding_schema prop
schema_group-filtered keys j n (object fs) h =
    schema_properties keys j n fs (get (codes "properties") fs) refl h
schema_group-filtered keys j n v h = if_same (has_key keys (binding_key j n)) n
