-- ===== src/Bindings/Direct.antt =====
-- src/domain/bindings/directPlanner.ts: the plan that binds the points of one node to another node.
-- A plan holds what the code computes,
-- not the nodes, the summaries and the message that are passed through.
use nodel_mcp.Base.{
  Bool, true, false, not, ◌||◌, Option, none, some, or_else, List, [], ◌∷◌, ◌++◌, any, ltb,
  if◌then◌else◌, Text, codes, text_eq, Result, ok, ◌>>=◌,
}
use nodel_mcp.Values.{Value, object, Fields, prop, read_string}
use nodel_mcp.Canonical.{stable_json_hash}
use nodel_mcp.Platform.{Platform}
use nodel_mcp.Plans.{or_throw}
use nodel_mcp.Points.Names.{BindingKind, actions, events}
use nodel_mcp.Bindings.{BindingTarget, BindingMatch, normalize_text, best_binding_target}
use nodel_mcp.Bindings.Definitions.{
  one_kind, both, BindingDefinition, BindingPlanInput, BindingProposal, Draft, Kinds, binding_value,
  bindings_patch_from_proposals, clone_record, extract_remote_binding_names, initial_draft,
  normalize_bindings, normalize_targets, read_binding, set_in, target_field_of,
}

abbrev pub is_none_given : List Text → Bool
is_none_given [] = true
is_none_given (n ∷ ns) = false

module _ (lower : Text → Text) (input : BindingPlanInput) (current : Fields) where
  abbrev pub node_name : Text
  node_name = or_else (read_string (prop (codes "name") input.target_node)) []

  -- `requestedNames.size > 0 && !requestedNames.has(...)` is its negation.
  abbrev pub is_requested : Text → Bool
  is_requested name =
      is_none_given input.binding_names
      || any (λ n. text_eq (normalize_text lower n) (normalize_text lower name)) input.binding_names

  abbrev pub targets_of : BindingKind → List BindingTarget
  targets_of actions = normalize_targets input.target_actions
  targets_of events = normalize_targets input.target_signals

  abbrev pub proposal :
      BindingKind → BindingDefinition → Option Value → BindingMatch → BindingProposal
  proposal kind b existing m = record {
    kind = kind;
    binding_name = b.name;
    target_node = node_name;
    target_name = m.target.name;
    target_field = target_field_of kind;
    score = m.score;
    existing = existing;
  }

  abbrev pub with_proposal : Draft → BindingProposal → Draft
  with_proposal d p = record d {
    next_bindings =
        set_in p.kind p.binding_name (binding_value p.target_node p.target_field p.target_name)
          d.next_bindings;
    proposals = d.proposals ++ p ∷ [];
  }

  abbrev pub left_open : Draft → BindingKind → BindingDefinition → Option BindingMatch → Draft
  left_open d kind b m = record d {
    unresolved =
        d.unresolved ++ record { kind = kind; binding_name = b.name; best_candidate = m } ∷ [];
  }

  unfoldable pub matched :
      Draft → BindingKind → BindingDefinition → Option Value → Option BindingMatch → Draft
  unfolding set_in binding_value prop
  matched d kind b existing none = left_open d kind b none
  matched d kind b existing (some m) =
      if ltb m.score input.min_score
      then left_open d kind b (some m)
      else with_proposal d (proposal kind b existing m)

  abbrev pub skip : Draft → BindingKind → BindingDefinition → Value → Draft
  skip d kind b v = record d {
    skipped = d.skipped ++ record { kind = kind; binding_name = b.name; existing = v } ∷ [];
  }

  unfoldable pub place : Draft → BindingKind → BindingDefinition → Option Value → Draft
  unfolding matched best_binding_target normalize_targets
  place d kind b none =
      matched d kind b none (best_binding_target lower b.name (some b.title) (targets_of kind))
  place d kind b (some v) =
      if input.overwrite
      then matched d kind b (some v)
          (best_binding_target lower b.name (some b.title) (targets_of kind))
      else skip d kind b v

  unfoldable pub plan_binding : BindingKind → Draft → BindingDefinition → Draft
  unfolding place read_binding normalize_text text_eq
  plan_binding kind d b =
      if is_requested b.name then place d kind b (read_binding current kind b.name) else d

  unfoldable pub plan_bindings : BindingKind → List BindingDefinition → Draft → Draft
  unfolding plan_binding
  plan_bindings kind [] d = d
  plan_bindings kind (b ∷ bs) d = plan_bindings kind bs (plan_binding kind d b)

  abbrev pub requested_kinds : Kinds → List BindingKind
  requested_kinds (one_kind kind) = kind ∷ []
  requested_kinds both = actions ∷ events ∷ []

  unfoldable pub plan_kinds : List BindingKind → Draft → Draft
  unfolding plan_bindings extract_remote_binding_names
  plan_kinds [] d = d
  plan_kinds (kind ∷ ks) d =
      plan_kinds ks (plan_bindings kind (extract_remote_binding_names input.schema kind) d)

  -- The loop, from `next`, the clone of the current bindings that it changes.
  unfoldable pub drafted : Fields → Draft
  unfolding plan_kinds
  drafted next = plan_kinds (requested_kinds input.kinds) (initial_draft next)

pub record BindingPlan : Type 0 where
  pub current : Fields
  pub current_hash : Text
  pub next_hash : Text
  pub changed : Bool
  pub draft : Draft
  pub binding_patch : Fields

unfoldable pub build_direct_binding_plan :
    Platform → (Text → Text) → BindingPlanInput → Result BindingPlan
unfolding normalize_bindings drafted stable_json_hash bindings_patch_from_proposals text_eq
build_direct_binding_plan p lower input = do
  current ← normalize_bindings input.current_bindings
  next ← clone_record (object current)
  let draft = drafted lower input current next
  current_hash ← or_throw (stable_json_hash p (object current))
  next_hash ← or_throw (stable_json_hash p (object draft.next_bindings))
  ok (record {
    current = current;
    current_hash = current_hash;
    next_hash = next_hash;
    changed = not (text_eq current_hash next_hash);
    draft = draft;
    binding_patch = bindings_patch_from_proposals draft.proposals;
  })
