-- ===== src/Points/Filters/Selected.antt =====
-- src/mcp/tools/pointFiltering.ts: what a filter of bindings leaves.
use nodel_mcp.Base.{
  ◌≡◌, refl, Bool, true, false, ◌&&◌, ◌||◌, Option, none, some, List, [], ◌∷◌, Text, text_eq,
  text_eq_iff, text_eq_refl, map, any, arith, if◌then◌else◌, keep, All, Bool-cases, inl, inr, ok,
  Option-cases, All-weaken, ap, text_eq_refl,
}
use nodel_mcp.Values.{Value, Fields, has_own, undefined, get}
use nodel_mcp.Values.Keys.{HasDistinctKeys, get_of_not_own}
use nodel_mcp.Points.{
  Engine, PointFilterOptions, FilterCandidate, build_point_predicate, filter_candidates,
}
use nodel_mcp.Points.Names.{
  BindingKind, actions, events, binding_key, normalize_binding_status_entry, binding_name_aliases,
}
use nodel_mcp.Points.Bindings.{
  BindingPoint, has_key, config_group, schema_group, normalize_binding_points, binding_candidate,
  listed,
}
use nodel_mcp.Points.Bindings.Keyed.{key_of, HasKey, same_kind, text_eq-binding_key}
use nodel_mcp.Points.Bindings.Known.{has_point, normalize_binding_points-HasKey, names_point}
use nodel_mcp.Points.Filters.Groups.{config_group-filtered, schema_group-filtered}
use nodel_mcp.Points.Filters.{
  FilteredBindings, filter_bindings, filter_binding_config, filter_binding_schema,
  filter_binding_status, is_matched, status_of, filtered_bindings,
}

-- What a selector sees of the point of this kind and name.
abbrev pub candidate_of : BindingKind → Text → FilterCandidate
candidate_of kind name = record { name = name; aliases = binding_name_aliases kind name }

same_kind-eq : (k j : BindingKind) → same_kind k j ≡ true → k ≡ j
same_kind-eq actions actions h = refl
same_kind-eq actions events h = ground arith
same_kind-eq events actions h = ground arith
same_kind-eq events events h = refl

-- A key is matched where there is a point of its kind and name, and the selector takes it.
has_key-matched :
    (pred : FilterCandidate → Bool) (j : BindingKind) (n : Text) (ps : List BindingPoint)
    → All HasKey ps
    → has_key (map key_of (keep (λ p. pred (binding_candidate p)) ps)) (binding_key j n)
      ≡ (has_key (map key_of ps) (binding_key j n) && pred (candidate_of j n))
unfolding has_key binding_candidate
has_key-matched pred j n [] h = refl
has_key-matched pred j n (p ∷ ps) (hp, h) = elim (Bool-cases (text_eq p.key (binding_key j n))) [
  | inl e ↦
      let both : (same_kind p.kind j && text_eq p.name n) ≡ true =
        rw (hp, text_eq-binding_key p.kind j p.name n) at e in
      let kinds : p.kind ≡ j = same_kind-eq p.kind j (ground arith) in
      let names : p.name ≡ n = (text_eq_iff p.name n).0 (ground arith) in
      let agree : pred (binding_candidate p) ≡ pred (candidate_of j n) = rw (kinds, names) refl in
      elim (Bool-cases (pred (candidate_of j n))) [
        | inl t ↦ rw (agree, t) (ground (arith, e))
        | inr f ↦ rw (agree, f) (ground (arith, has_key-matched pred j n ps h))
      ]
  | inr e ↦ elim (Bool-cases (pred (binding_candidate p))) [
    | inl t ↦ rw (t, e) (has_key-matched pred j n ps h)
    | inr f ↦ rw (f, e) (has_key-matched pred j n ps h)
  ]
]

-- A status is kept where the selector takes its point.
abbrev pub takes : (FilterCandidate → Bool) → Option (BindingKind × Text) → Bool
takes pred none = false
takes pred (some (kind, name)) = pred (candidate_of kind name)

abbrev pub keep_taken :
    (Text → Text) → (FilterCandidate → Bool) → Option (List Value) → Option (List Value)
keep_taken lower pred none = none
keep_taken lower pred (some es) =
    some (keep (λ v. takes pred (normalize_binding_status_entry lower v)) es)

-- Where there is a property, its point exists.
choice_lem :
    (known own b : Bool) (n : Text) (fs : Fields)
    → has_own n fs ≡ own
    → (own ≡ true → known ≡ true)
    → (if known && b then get n fs else undefined) ≡ (if b then get n fs else undefined)
choice_lem known own b n fs e h = ground (arith, get_of_not_own n fs)

keep-eq : (p q : Value → Bool) (vs : List Value) → All (λ v. p v ≡ q v) vs → keep p vs ≡ keep q vs
keep-eq p q [] h = refl
keep-eq p q (v ∷ vs) h = rw (h.0, keep-eq p q vs h.1) refl

-- Among statuses, each is one that names its own point.
abbrev IsAmong : (Value → Option (BindingKind × Text)) → List Value → Value → Type 0
IsAmong point_of es v =
    (j : BindingKind) (n : Text)
    → point_of v ≡ some (j, n)
    → any (λ u. names_point (point_of u) j n) es ≡ true

same_kind_refl : (j : BindingKind) → same_kind j j ≡ true
same_kind_refl actions = refl
same_kind_refl events = refl

IsAmong-All :
    (point_of : Value → Option (BindingKind × Text)) (es : List Value)
    → All (IsAmong point_of es) es
IsAmong-All point_of [] = tt
IsAmong-All point_of (v ∷ es) = (
  λ j n e. rw (e, same_kind_refl j, text_eq_refl n) refl,
  All-weaken (IsAmong point_of es) (IsAmong point_of (v ∷ es)) es
      (λ u h j n e. ground (arith, h j n e)) (IsAmong-All point_of es),
)

module _ (e : Engine) (schema bindings : Value) (status : Option (List Value))
    (pred : FilterCandidate → Bool) where
  points : List BindingPoint
  points = normalize_binding_points e.lower schema bindings status

  matched_keys : List Text
  unfolding points
  matched_keys = map key_of (keep (λ p. pred (binding_candidate p)) points)

  has_matched_key :
      (j : BindingKind) (n : Text)
      → has_key matched_keys (binding_key j n) ≡ (
          (any (λ v. names_point (normalize_binding_status_entry e.lower v) j n) (listed status)
            || (has_own n (config_group bindings j) || has_own n (schema_group schema j)))
          && pred (candidate_of j n))
  unfolding matched_keys points
  has_matched_key j n =
      rw
        (
          has_key-matched pred j n (normalize_binding_points e.lower schema bindings status)
              (normalize_binding_points-HasKey e.lower schema bindings status),
          has_point e.lower j n schema bindings status,
        )
        refl

  status_matched :
      (v : Value)
      → IsAmong (normalize_binding_status_entry e.lower) (listed status) v
      → is_matched matched_keys (normalize_binding_status_entry e.lower v)
        ≡ takes pred (normalize_binding_status_entry e.lower v)
  status_matched v h = elim (Option-cases (normalize_binding_status_entry e.lower v)) [
    | inl none_there ↦ rw none_there refl
    | inr (jn, found) ↦ rw (found, has_matched_key jn.0 jn.1, h jn.0 jn.1 found) refl
  ]

  status_of-matched :
      (es : Option (List Value))
      → All (IsAmong (normalize_binding_status_entry e.lower) (listed status)) (listed es)
      → status_of e.lower es matched_keys ≡ keep_taken e.lower pred es
  unfolding filter_binding_status
  status_of-matched none h = refl
  status_of-matched (some es) h = ap some (
      keep-eq (λ v. is_matched matched_keys (normalize_binding_status_entry e.lower v))
        (λ v. takes pred (normalize_binding_status_entry e.lower v)) es
        (All-weaken _ _ es status_matched h))

  config_matched :
      (j : BindingKind) (n : Text)
      → HasDistinctKeys (config_group bindings j)
      → get n (config_group (filter_binding_config bindings matched_keys) j)
        ≡ (if pred (candidate_of j n) then get n (config_group bindings j) else undefined)
  config_matched j n h =
      rw (config_group-filtered matched_keys j n bindings h, has_matched_key j n)
        (choice_lem _ _ (pred (candidate_of j n)) n (config_group bindings j) refl
          (λ t. ground (arith, t)))

  schema_matched :
      (j : BindingKind) (n : Text)
      → HasDistinctKeys (schema_group schema j)
      → get n (schema_group (filter_binding_schema schema matched_keys) j)
        ≡ (if pred (candidate_of j n) then get n (schema_group schema j) else undefined)
  schema_matched j n h =
      rw (schema_group-filtered matched_keys j n schema h, has_matched_key j n)
        (choice_lem _ _ (pred (candidate_of j n)) n (schema_group schema j) refl
          (λ t. ground (arith, t)))

-- The effect of a selector, point by point.
pub record IsSelection (lower : Text → Text) (schema bindings : Value)
    (status : Option (List Value)) (pred : FilterCandidate → Bool) (r : FilteredBindings)
    : Type 0 where
  pub config_selected :
      (j : BindingKind) (n : Text)
      → HasDistinctKeys (config_group bindings j)
      → get n (config_group r.bindings j)
        ≡ (if pred (candidate_of j n) then get n (config_group bindings j) else undefined)
  pub schema_selected :
      (j : BindingKind) (n : Text)
      → HasDistinctKeys (schema_group schema j)
      → get n (schema_group r.schema j)
        ≡ (if pred (candidate_of j n) then get n (schema_group schema j) else undefined)
  pub status_selected : r.binding_status ≡ keep_taken lower pred status

-- Where the selector is accepted, filterBindings returns, and what it returns has, in each group of
-- the schema and of the configuration whose keys are distinct, exactly the entries whose kind and
-- name the selector takes, as they were, and exactly the statuses that name a point it takes.
pub filter_bindings_selects :
    (e : Engine) (schema bindings : Value) (status : Option (List Value)) (o : PointFilterOptions)
    (pred : FilterCandidate → Bool)
    → build_point_predicate e o ≡ ok pred
    → (r : FilteredBindings) × (filter_bindings e schema bindings status o ≡ ok r)
      × IsSelection e.lower schema bindings status pred r
unfolding filter_bindings filter_candidates points matched_keys filtered_bindings
filter_bindings_selects e schema bindings status o pred h = (
  filtered_bindings e.lower schema bindings status (points e schema bindings status pred)
      (keep (λ p. pred (binding_candidate p)) (points e schema bindings status pred)),
  rw h refl,
  record {
    config_selected = config_matched e schema bindings status pred;
    schema_selected = schema_matched e schema bindings status pred;
    status_selected =
        status_of-matched e schema bindings status pred status
          (IsAmong-All (normalize_binding_status_entry e.lower) (listed status));
  },
)
