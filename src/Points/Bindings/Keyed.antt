-- ===== src/Points/Bindings/Keyed.antt =====
-- src/mcp/tools/pointFiltering.ts: changes of the map of points at their keys.
use nodel_mcp.Base.{
  ◌≡◌, refl, Bool, true, false, ◌&&◌, ◌||◌, List, [], ◌∷◌, Text, text_eq, text_eq_iff, map, arith,
  All, Bool-cases, inl, inr,
}
use nodel_mcp.Values.{Value}
use nodel_mcp.Points.Names.{BindingKind, actions, events, binding_key}
use nodel_mcp.Points.Bindings.{
  BindingPoint, has_key, new_point, with_binding_point, add_points, set_schema, set_config,
  add_status,
}

abbrev pub same_kind : BindingKind → BindingKind → Bool
same_kind actions actions = true
same_kind events events = true
same_kind _ _ = false

-- A key names one kind and one name.
pub text_eq-binding_key :
    (k j : BindingKind) (n m : Text)
    → text_eq (binding_key k n) (binding_key j m) ≡ (same_kind k j && text_eq n m)
unfolding binding_key text_eq
text_eq-binding_key actions actions n m = refl
text_eq-binding_key actions events n m = refl
text_eq-binding_key events actions n m = refl
text_eq-binding_key events events n m = refl

abbrev pub key_of : BindingPoint → Text
key_of p = p.key

abbrev pub HasKey : BindingPoint → Type 0
HasKey p = p.key ≡ binding_key p.kind p.name

-- A change that keeps the name of a point.
abbrev Renames : (BindingPoint → BindingPoint) → Type 0
Renames f = (p : BindingPoint) → ((f p).key ≡ p.key) × ((f p).kind ≡ p.kind) × ((f p).name ≡ p.name)

module _ (k : BindingKind) (n : Text) (f : BindingPoint → BindingPoint) (r : Renames f) where
  HasKey-with_binding_point :
      (ps : List BindingPoint) → All HasKey ps → All HasKey (with_binding_point k n f ps)
  unfolding with_binding_point
  HasKey-with_binding_point [] h = (ground (arith, r (new_point k n)), tt)
  HasKey-with_binding_point (p ∷ ps) h = elim (Bool-cases (text_eq p.key (binding_key k n))) [
    | inl e ↦ rw e (ground (arith, r p, h.0), h.1)
    | inr e ↦ rw e (h.0, HasKey-with_binding_point ps h.1)
  ]

  has_key-with_binding_point :
      (key : Text) (ps : List BindingPoint)
      → has_key (map key_of (with_binding_point k n f ps)) key
        ≡ (text_eq (binding_key k n) key || has_key (map key_of ps) key)
  unfolding has_key with_binding_point
  has_key-with_binding_point key [] = ground (arith, r (new_point k n))
  has_key-with_binding_point key (p ∷ ps) = elim (Bool-cases (text_eq p.key (binding_key k n))) [
    | inl e ↦
        let same : p.key ≡ binding_key k n = (text_eq_iff p.key (binding_key k n)).0 e in
        rw (e, (r p).0, same) (ground arith)
    | inr e ↦ rw (e, has_key-with_binding_point key ps) (ground arith)
  ]

abbrev pub key_named : BindingKind × Text × Value → Text
key_named (k, n, v) = binding_key k n

-- A loop over entries whose changes keep the names of points.
module _ (set : Value → BindingPoint → BindingPoint) (r : (v : Value) → Renames (set v)) where
  pub HasKey-add_points :
      (es : List (BindingKind × Text × Value)) (ps : List BindingPoint)
      → All HasKey ps
      → All HasKey (add_points set es ps)
  unfolding add_points
  HasKey-add_points [] ps h = h
  HasKey-add_points ((k, n, v) ∷ es) ps h =
      HasKey-add_points es (with_binding_point k n (set v) ps)
        (HasKey-with_binding_point k n (set v) (r v) ps h)

  pub has_key-add_points :
      (key : Text) (es : List (BindingKind × Text × Value)) (ps : List BindingPoint)
      → has_key (map key_of (add_points set es ps)) key
        ≡ (has_key (map key_named es) key || has_key (map key_of ps) key)
  unfolding add_points has_key
  has_key-add_points key [] ps = refl
  has_key-add_points key ((k, n, v) ∷ es) ps =
      rw
        (
          has_key-add_points key es (with_binding_point k n (set v) ps),
          has_key-with_binding_point k n (set v) (r v) key ps,
        )
        (ground arith)

pub set_schema-Renames : (v : Value) → Renames (set_schema v)
unfolding set_schema
set_schema-Renames v p = (refl, refl, refl)

pub set_config-Renames : (v : Value) → Renames (set_config v)
set_config-Renames v p = (refl, refl, refl)

pub add_status-Renames : (v : Value) → Renames (add_status v)
add_status-Renames v p = (refl, refl, refl)
