-- ===== src/Bindings/Tests.antt =====
-- A plan of src/domain/bindings/directPlanner.ts on a small node.
use nodel_mcp.Base.{
  ◌≡◌, refl, false, none, some, [], ◌∷◌, Text, codes, Result, ok, err, ◌≤◌, map, to_lower, is_space,
  trim, text_eq,
}
use nodel_mcp.Values.{Value, null, text, object, end, field}
use nodel_mcp.Platform.{plain}
use nodel_mcp.Points.Names.{actions}
use nodel_mcp.Bindings.{binding_score, normalize_text, simple_text}
use nodel_mcp.Bindings.Definitions.{both, BindingPlanInput, read_binding, initial_draft}
use nodel_mcp.Bindings.Direct.{BindingPlan, build_direct_binding_plan}
use nodel_mcp.Bindings.Patch.{Patches}
use nodel_mcp.Bindings.Kept.{plan_keeps, plan-Patches}
use nodel_mcp.Bindings.Scores.{unlettered_matches}

abbrev one : Text → Value → Value
one key v = object (field key v end)

abbrev amp_power : Value
amp_power =
    object
      (field (codes "node") (text (codes "Amp")) (field (codes "action") (text (codes "On")) end))

abbrev input : BindingPlanInput
input = record {
  target_node = one (codes "name") (text (codes "Lamp"));
  schema = one (codes "properties") (
      one (codes "actions") (
        one (codes "properties")
          (object (field (codes "Power") null (field (codes "Level") null end)))));
  current_bindings = one (codes "actions") (one (codes "Power") amp_power);
  target_actions = object (field (codes "level") null (field (codes "power") null end));
  target_signals = null;
  kinds = both;
  binding_names = [];
  overwrite = false;
  min_score = 45;
}

abbrev planned : Result BindingPlan → BindingPlan
planned (ok plan) = plan
planned (err e) = record {
  current = end;
  current_hash = [];
  next_hash = [];
  changed = false;
  draft = initial_draft end;
  binding_patch = end;
}

abbrev plan : BindingPlan
plan = planned (build_direct_binding_plan plain to_lower input)

proposed_names : map (λ q. q.target_name) plan.draft.proposals ≡ codes "level" ∷ []
unfolding build_direct_binding_plan is_space
proposed_names = refl

made : build_direct_binding_plan plain to_lower input ≡ ok plan
unfolding build_direct_binding_plan is_space
made = refl

kept : read_binding plan.current actions (codes "Power") ≡ some amp_power
unfolding build_direct_binding_plan is_space
kept = refl

plan_keeps_example : read_binding plan.draft.next_bindings actions (codes "Power") ≡ some amp_power
unfolding text_eq
plan_keeps_example =
    plan_keeps plain to_lower input plan actions (codes "Power") amp_power made refl refl kept

plan-Patches_example : Patches plan.current plan.binding_patch plan.draft.next_bindings
plan-Patches_example = plan-Patches plain to_lower input plan made

-- The binding is named in Latin letters, the point in Greek ones.
unlettered_matches_example : 85 ≤ binding_score to_lower (codes "Power") none (0x3b1 ∷ 0x3b2 ∷ [])
unfolding normalize_text simple_text trim is_space
unlettered_matches_example =
    unlettered_matches to_lower (codes "Power") none (0x3b1 ∷ 0x3b2 ∷ []) refl refl
