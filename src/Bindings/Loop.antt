-- ===== src/Bindings/Loop.antt =====
-- src/domain/bindings/directPlanner.ts: what the loop over the bindings of a node keeps.
use nodel_mcp.Base.{
  ◌≡◌, refl, false, not, ◌&&◌, Bool-cases, inl, inr, Option, none, some, is_some, List, [], ◌∷◌,
  Text, ltb, All, All-weaken, true,
}
use mathlib.Core.List.{Memᴰ}
use mathlib.Core.List.Memᴰ.{head, tail}
use nodel_mcp.Values.{Value, Fields, end, field, entries}
use nodel_mcp.Points.Names.{BindingKind}
use nodel_mcp.Bindings.{BindingMatch, best_binding_target}
use nodel_mcp.Bindings.Definitions.{
  BindingPlanInput, BindingDefinition, Draft, read_binding, extract_remote_binding_names, title_of,
  binding_group, definitions_in, initial_draft,
}
use nodel_mcp.Bindings.Direct.{
  matched, place, plan_binding, plan_bindings, plan_kinds, drafted, with_proposal, proposal,
  left_open, skip, is_requested, requested_kinds, targets_of,
}

-- A point that stands in a group of the schema, with the title that its definition has.
pub record IsIn (group : Fields) (b : BindingDefinition) : Type 0 where
  pub stands : Memᴰ (b.name, b.definition) (entries group)
  pub is_titled : b.title ≡ title_of b.name b.definition

IsIn-later :
    (name : Text) (d : Value) (fs : Fields) (b : BindingDefinition)
    → IsIn fs b
    → IsIn (field name d fs) b
unfolding entries
IsIn-later name d fs b h = record { stands = tail (h.stands); is_titled = h.is_titled }

definitions_in-IsIn : (fs : Fields) → All (IsIn fs) (definitions_in fs)
unfolding definitions_in entries
definitions_in-IsIn end = tt
definitions_in-IsIn (field name d fs) = (
  record { stands = head refl; is_titled = refl },
  All-weaken (IsIn fs) (IsIn (field name d fs)) (definitions_in fs) (IsIn-later name d fs)
      (definitions_in-IsIn fs),
)

module _ (lower : Text → Text) (input : BindingPlanInput) (current : Fields) where
  -- What a binding that is proposed for has passed.
  pub record IsAllowed (kind : BindingKind) (b : BindingDefinition) (existing : Option Value)
      (m : BindingMatch) : Type 0 where
    pub is_known : IsIn (binding_group input.schema kind) b
    pub is_asked : is_requested lower input current b.name ≡ true
    pub is_read : existing ≡ read_binding current kind b.name
    pub is_free : (is_some existing && not input.overwrite) ≡ false
    pub is_scored : ltb m.score input.min_score ≡ false
    pub is_best :
        best_binding_target lower b.name (some b.title) (targets_of lower input current kind)
        ≡ some m

  module _ (Inv : Draft → Type 0)
      (on_open : (d : Draft) (kind : BindingKind) (b : BindingDefinition) (m : Option BindingMatch)
        → Inv d
        → Inv (left_open lower input current d kind b m))
      (on_skip : (d : Draft) (kind : BindingKind) (b : BindingDefinition) (v : Value)
        → Inv d
        → Inv (skip lower input current d kind b v))
      (on_proposed : (d : Draft) (kind : BindingKind) (b : BindingDefinition)
          (existing : Option Value) (m : BindingMatch)
        → IsAllowed kind b existing m
        → Inv d
        → Inv (
            with_proposal lower input current d
              (proposal lower input current kind b existing m))) where
    matched-Inv :
        (d : Draft) (kind : BindingKind) (b : BindingDefinition) (existing : Option Value)
        (o : Option BindingMatch)
        → IsIn (binding_group input.schema kind) b
        → is_requested lower input current b.name ≡ true
        → existing ≡ read_binding current kind b.name
        → (is_some existing && not input.overwrite) ≡ false
        → best_binding_target lower b.name (some b.title) (targets_of lower input current kind) ≡ o
        → Inv d
        → Inv (matched lower input current d kind b existing o)
    unfolding matched
    matched-Inv d kind b existing none ei eq er ef eb h = on_open d kind b none h
    matched-Inv d kind b existing (some m) ei eq er ef eb h =
        elim (Bool-cases (ltb m.score input.min_score)) [
          | inl e ↦ rw e (on_open d kind b (some m) h)
          | inr e ↦ rw e (
              on_proposed d kind b existing m
                (record {
                  is_known = ei;
                  is_asked = eq;
                  is_read = er;
                  is_free = ef;
                  is_scored = e;
                  is_best = eb;
                })
                h)
        ]

    place-Inv :
        (d : Draft) (kind : BindingKind) (b : BindingDefinition) (existing : Option Value)
        → IsIn (binding_group input.schema kind) b
        → is_requested lower input current b.name ≡ true
        → existing ≡ read_binding current kind b.name
        → Inv d
        → Inv (place lower input current d kind b existing)
    unfolding place
    place-Inv d kind b none ei eq er h = matched-Inv d kind b none _ ei eq er refl refl h
    place-Inv d kind b (some v) ei eq er h = elim (Bool-cases input.overwrite) [
      | inl e ↦ rw e (matched-Inv d kind b (some v) _ ei eq er (rw e refl) refl h)
      | inr e ↦ rw e (on_skip d kind b v h)
    ]

    plan_binding-Inv :
        (kind : BindingKind) (d : Draft) (b : BindingDefinition)
        → IsIn (binding_group input.schema kind) b
        → Inv d
        → Inv (plan_binding lower input current kind d b)
    unfolding plan_binding
    plan_binding-Inv kind d b ei h = elim (Bool-cases (is_requested lower input current b.name)) [
      | inl e ↦ rw e (place-Inv d kind b (read_binding current kind b.name) ei e refl h)
      | inr e ↦ rw e h
    ]

    plan_bindings-Inv :
        (kind : BindingKind) (bs : List BindingDefinition) (d : Draft)
        → All (IsIn (binding_group input.schema kind)) bs
        → Inv d
        → Inv (plan_bindings lower input current kind bs d)
    unfolding plan_bindings
    plan_bindings-Inv kind [] d k h = h
    plan_bindings-Inv kind (b ∷ bs) d k h =
        plan_bindings-Inv kind bs (plan_binding lower input current kind d b) k.1
          (plan_binding-Inv kind d b k.0 h)

    plan_kinds-Inv :
        (ks : List BindingKind) (d : Draft) → Inv d → Inv (plan_kinds lower input current ks d)
    unfolding plan_kinds extract_remote_binding_names
    plan_kinds-Inv [] d h = h
    plan_kinds-Inv (kind ∷ ks) d h = plan_kinds-Inv ks _ (
        plan_bindings-Inv kind (extract_remote_binding_names input.schema kind) d
          (definitions_in-IsIn (binding_group input.schema kind)) h)

    pub drafted-Inv :
        (next : Fields) → Inv (initial_draft next) → Inv (drafted lower input current next)
    unfolding drafted
    drafted-Inv next h =
        plan_kinds-Inv (requested_kinds lower input current input.kinds) (initial_draft next) h
