-- ===== src/Points/Bindings/Known.antt =====
-- src/mcp/tools/pointFiltering.ts: the map of points, as a function of the key.
use nodel_mcp.Base.{
  ◌≡◌, refl, Bool, false, ◌&&◌, ◌||◌, Option, none, some, Option-cases, List, [], ◌∷◌, ◌++◌, Text,
  text_eq, map, any, arith, All, inl, inr,
}
use nodel_mcp.Values.{Value, Fields, end, field, has_own, entries}
use nodel_mcp.Points.Names.{
  BindingKind, actions, events, binding_key, normalize_binding_status_entry,
}
use nodel_mcp.Points.Bindings.{
  BindingPoint, has_key, with_binding_point, add_points, add_statuses, of_kind, set_schema,
  set_config, add_status, config_group, schema_group, extract_schema_binding_entries,
  extract_config_binding_entries, normalize_binding_points, listed,
}
use nodel_mcp.Points.Bindings.Keyed.{
  HasKey, HasKey-add_points, add_status-Renames, has_key-add_points, key_named, key_of, same_kind,
  set_config-Renames, set_schema-Renames, text_eq-binding_key,
}

-- The statuses of a list that name a point, with its kind and name.
abbrev with_name :
    Value
    → Option (BindingKind × Text)
    → List (BindingKind × Text × Value)
    → List (BindingKind × Text × Value)
with_name v none es = es
with_name v (some (k, n)) es = (k, n, v) ∷ es

module _ (lower : Text → Text) where
  unfoldable pub named_statuses : List Value → List (BindingKind × Text × Value)
  named_statuses [] = []
  named_statuses (v ∷ vs) = with_name v (normalize_binding_status_entry lower v) (named_statuses vs)

  add_statuses_lem :
      (vs : List Value) (ps : List BindingPoint)
      → add_statuses lower vs ps ≡ add_points add_status (named_statuses vs) ps
  unfolding add_statuses add_points named_statuses
  add_statuses_lem [] ps = refl
  add_statuses_lem (v ∷ vs) ps = elim (Option-cases (normalize_binding_status_entry lower v)) [
    | inl e ↦ rw (e, add_statuses_lem vs ps) refl
    | inr (kn, e) ↦ rw (e) (add_statuses_lem vs (with_binding_point kn.0 kn.1 (add_status v) ps))
  ]

  -- Every point has the key of its kind and name.
  pub normalize_binding_points-HasKey :
      (schema bindings : Value) (status : Option (List Value))
      → All HasKey (normalize_binding_points lower schema bindings status)
  unfolding normalize_binding_points
  normalize_binding_points-HasKey schema bindings status =
      let ss = extract_schema_binding_entries schema in
      let cs = extract_config_binding_entries bindings in
      let first = add_points set_schema ss [] in
      let second = add_points set_config cs first in
      rw (add_statuses_lem (listed status) second) (
        HasKey-add_points add_status add_status-Renames (named_statuses (listed status)) second (
          HasKey-add_points set_config set_config-Renames cs first
            (HasKey-add_points set_schema set_schema-Renames ss [] tt)))

  -- The keys are those that the schema, the configuration and the statuses name.
  pub has_key-normalize_binding_points :
      (key : Text) (schema bindings : Value) (status : Option (List Value))
      → has_key (map key_of (normalize_binding_points lower schema bindings status)) key ≡ (
          has_key (map key_named (named_statuses (listed status))) key
          || (has_key (map key_named (extract_config_binding_entries bindings)) key
              || has_key (map key_named (extract_schema_binding_entries schema)) key))
  unfolding normalize_binding_points has_key
  has_key-normalize_binding_points key schema bindings status =
      rw
        (
          add_statuses_lem (listed status) _,
          has_key-add_points add_status add_status-Renames key _ _,
          has_key-add_points set_config set_config-Renames key _ _,
          has_key-add_points set_schema set_schema-Renames key _ [],
        )
        (ground arith)

has_key-of_kind :
    (k j : BindingKind) (n : Text) (fs : Fields)
    → has_key (map key_named (of_kind k (entries fs))) (binding_key j n)
      ≡ (same_kind k j && has_own n fs)
unfolding has_key entries has_own
has_key-of_kind k j n end = ground arith
has_key-of_kind k j n (field m v fs) =
    rw (text_eq-binding_key k j m n, has_key-of_kind k j n fs) (ground arith)

has_key-append :
    (key : Text) (xs ys : List Text) → has_key (xs ++ ys) key ≡ (has_key xs key || has_key ys key)
unfolding has_key
has_key-append key [] ys = refl
has_key-append key (x ∷ xs) ys = ground (arith, has_key-append key xs ys)

map-append :
    (xs ys : List (BindingKind × Text × Value))
    → map key_named (xs ++ ys) ≡ map key_named xs ++ map key_named ys
map-append [] ys = refl
map-append (x ∷ xs) ys = rw (map-append xs ys) refl

-- What the groups of a schema, or of a configuration, name.
has_key-groups :
    (j : BindingKind) (n : Text) (fs gs : Fields)
    → has_key
        (map key_named (of_kind actions (entries fs) ++ of_kind events (entries gs)))
        (binding_key j n)
      ≡ (elim j [ actions ↦ has_own n fs | events ↦ has_own n gs ])
has_key-groups j n fs gs =
    rw
      (
        map-append (of_kind actions (entries fs)) (of_kind events (entries gs)),
        has_key-append (binding_key j n) (map key_named (of_kind actions (entries fs)))
            (map key_named (of_kind events (entries gs))),
        has_key-of_kind actions j n fs,
        has_key-of_kind events j n gs,
      )
      (ground arith)

has_key-schema :
    (j : BindingKind) (n : Text) (schema : Value)
    → has_key (map key_named (extract_schema_binding_entries schema)) (binding_key j n)
      ≡ has_own n (schema_group schema j)
unfolding extract_schema_binding_entries
has_key-schema actions n schema =
    has_key-groups actions n (schema_group schema actions) (schema_group schema events)
has_key-schema events n schema =
    has_key-groups events n (schema_group schema actions) (schema_group schema events)

has_key-config :
    (j : BindingKind) (n : Text) (bindings : Value)
    → has_key (map key_named (extract_config_binding_entries bindings)) (binding_key j n)
      ≡ has_own n (config_group bindings j)
unfolding extract_config_binding_entries
has_key-config actions n bindings =
    has_key-groups actions n (config_group bindings actions) (config_group bindings events)
has_key-config events n bindings =
    has_key-groups events n (config_group bindings actions) (config_group bindings events)

-- A status names a point of this kind and name.
abbrev pub names_point : Option (BindingKind × Text) → BindingKind → Text → Bool
names_point none j n = false
names_point (some (k, m)) j n = same_kind k j && text_eq m n

has_key-named_statuses :
    (lower : Text → Text) (j : BindingKind) (n : Text) (vs : List Value)
    → has_key (map key_named (named_statuses lower vs)) (binding_key j n)
      ≡ any (λ v. names_point (normalize_binding_status_entry lower v) j n) vs
unfolding has_key named_statuses
has_key-named_statuses lower j n [] = refl
has_key-named_statuses lower j n (v ∷ vs) =
    elim (Option-cases (normalize_binding_status_entry lower v)) [
      | inl e ↦ rw (e, has_key-named_statuses lower j n vs) refl
      | inr (kn, e) ↦
          rw (e, text_eq-binding_key kn.0 j kn.1 n, has_key-named_statuses lower j n vs) (refl)
    ]

-- The points are exactly those that the schema, the configuration or a status names.
pub has_point :
    (lower : Text → Text) (j : BindingKind) (n : Text) (schema bindings : Value)
    (status : Option (List Value))
    → has_key (map key_of (normalize_binding_points lower schema bindings status)) (binding_key j n)
      ≡ (any (λ v. names_point (normalize_binding_status_entry lower v) j n) (listed status)
          || (has_own n (config_group bindings j) || has_own n (schema_group schema j)))
has_point lower j n schema bindings status =
    rw
      (
        has_key-normalize_binding_points lower (binding_key j n) schema bindings status,
        has_key-named_statuses lower j n (listed status),
        has_key-config j n bindings,
        has_key-schema j n schema,
      )
      refl
