-- ===== src/Writes/Tools.antt =====
-- src/domain/config/writes.ts: `callAction` and `setParameters`. Of what they return the status is
-- kept; the reason that a caller gives is not.
use nodel_mcp.Base.{
  ℕ, Bool, false, ◌&&◌, Option, none, some, List, ◌∷◌, ◌++◌, Text, codes, text_eq, map,
  if◌then◌else◌, Result, ok, err, system, inr,
}
use nodel_mcp.Values.{Value, text, array, object, Fields, end, field, from_items}
use nodel_mcp.Config.{AppConfig}
use nodel_mcp.Platform.{Platform}
use nodel_mcp.Files.{World, random_uuid}
use nodel_mcp.Policy.{assert_writes_enabled}
use nodel_mcp.Canonical.{stable_json_hash}
use nodel_mcp.Plans.{Mode, merge, replace, ConfigPlan, plan_config_write}
use nodel_mcp.Approvals.{ApprovalDetails}
use nodel_mcp.Approvals.Effects.{assert_write_approved}
use nodel_mcp.Audit.Log.{Measure}
use nodel_mcp.Audit.Mutation.{audited_mutation}
use nodel_mcp.Audit.Backups.{Encoding, backup_parameter_state}
use nodel_mcp.Writes.{Remote, Tool, pure, ◌>>=◌, lift, run, ask, audited, try_ask}
use nodel_mcp.Writes.Requests.{
  WebText, Method, method_text, ActionRequest, action_request, resolve_definition_name,
  activity_contains_action, keys_of,
}

pub record Node : Type 0 where
  pub name : Text
  pub node_base_url : Text

-- What the tools ask of the host. The changes are `save_params` and `send`.
pub record Reads : Type 0 where
  pub resolve_node : Text → Remote Node
  pub get_params : Node → Remote Value
  pub get_actions : Node → Remote Value
  pub get_activity : Node → ℕ → Remote Value
  pub wait_ready : Node → World → Bool × World

pub record Changes : Type 0 where
  pub save_params : Node → Value → Remote Value
  pub send : Node → ActionRequest → Remote Value

pub record Services : Type 0 where
  pub platform : Platform
  pub measure : Measure
  pub encoding : Encoding
  pub web : WebText
  pub request_id : Option Text
  -- the properties of the prototype of every object
  pub builtins : List Text

pub data Status : Type 0 where
  no_change dry_run succeeded_verified succeeded_verification_pending : Status

pub record ParametersInput : Type 0 where
  pub operation : Text
  pub node : Text
  pub values : Fields
  pub mode : Mode
  pub remove_paths : List (List Text)
  pub expected_hash : Option Text
  pub is_dry_run : Bool
  pub approval_id : Option Text

pub record ActionInput : Type 0 where
  pub node : Text
  pub action : Text
  pub args : Value
  pub method : Method
  pub is_dry_run : Bool
  pub approval_id : Option Text

unfoldable pub write_key : Node → Text → Text
write_key node resource = node.node_base_url ++ (b':' ∷ (node.name ++ (b':' ∷ resource)))

abbrev text_array : List Text → Value
text_array ss = array (from_items (map text ss))

abbrev mode_text : Mode → Text
mode_text merge = codes "merge"
mode_text replace = codes "replace"

abbrev verified : Bool → Status
verified b = if b then succeeded_verified else succeeded_verification_pending

module _ (env : Services) (config : AppConfig) where
  abbrev proposed : Text → Text → Option Text → Result ApprovalDetails
  proposed operation target none = err system
  proposed operation target (some h) =
      ok (record { operation = operation; target = target; proposal_hash = h })

  -- `writeApproval`, its `details`
  unfoldable pub write_approval : Text → Text → Value → Result ApprovalDetails
  unfolding stable_json_hash
  write_approval operation target payload = proposed operation target (
      stable_json_hash env.platform (
        object (
          field (codes "operation") (text operation)
            (field (codes "target") (text target) (field (codes "payload") payload end)))))

  unfoldable pub parameters_payload : ParametersInput → ConfigPlan → Value
  unfolding from_items
  parameters_payload input planned = object (
      field (codes "mode") (text (mode_text input.mode)) (
        field (codes "currentHash") (text planned.current_hash) (
          field (codes "nextHash") (text planned.next_hash) (
            field (codes "values") (object input.values) (
              field (codes "removePaths") (array (from_items (map text_array planned.remove_paths)))
                end)))))

  unfoldable pub parameters_event : ParametersInput → Node → ConfigPlan → Text → Text → Fields
  unfolding from_items keys_of
  parameters_event input node planned operation_id backup_path =
      field (codes "operation") (text input.operation) (
        field (codes "operationId") (text operation_id) (
          field (codes "node") (text node.name) (
            field (codes "mode") (text (mode_text input.mode)) (
              field (codes "currentHash") (text planned.current_hash) (
                field (codes "nextHash") (text planned.next_hash) (
                  field (codes "names") (text_array (keys_of env.web input.values)) (
                    field (codes "removePaths")
                      (array (from_items (map text_array planned.remove_paths)))
                      (field (codes "missingRemovePaths")
                        (array (from_items (map text_array planned.missing_remove_paths)))
                        (field (codes "backupPath") (text backup_path) end)))))))))

  abbrev is_expected : Text → Option Text → Bool
  is_expected expected none = false
  is_expected expected (some h) = text_eq h expected

  -- A hash that cannot be computed throws within the `try`.
  unfoldable pub verify_parameters : Reads → Node → Text → Tool Bool
  unfolding try_ask stable_json_hash text_eq
  verify_parameters reads node expected_hash =
      try_ask (λ v. is_expected expected_hash (stable_json_hash env.platform v)) false
        (reads.get_params node)

  abbrev settle : Reads → Node → Tool Bool
  settle reads node w = let (ready, v) = reads.wait_ready node w in (inr ready, v)

  -- What `setParameters` does once the plan is more than a dry run.
  unfoldable pub commit_parameters :
      Reads → Changes → ParametersInput → Node → Value → ConfigPlan → ApprovalDetails → Tool Status
  unfolding run audited verify_parameters assert_writes_enabled assert_write_approved
      backup_parameter_state parameters_event audited_mutation
  commit_parameters reads changes input node current planned details = do
    _ ← lift (assert_writes_enabled config)
    _ ← run (assert_write_approved env.platform config details input.approval_id)
    operation_id ← run random_uuid
    backup_path ← run (backup_parameter_state env.encoding config node.name current operation_id)
    _ ← audited (
        audited_mutation env.measure config env.request_id
          (parameters_event input node planned operation_id backup_path)
          (changes.save_params node planned.next))
    ready ← settle reads node
    matches ← verify_parameters reads node planned.next_hash
    pure (verified (matches && ready))

  unfoldable pub set_parameters : Reads → Changes → ParametersInput → Tool Status
  unfolding ask plan_config_write write_approval parameters_payload commit_parameters text_eq
  set_parameters reads changes input = do
    node ← ask (reads.resolve_node input.node)
    current ← ask (reads.get_params node)
    planned ← lift (
        plan_config_write env.platform env.builtins current (object input.values) input.mode
          input.expected_hash input.remove_paths)
    details ← lift (write_approval input.operation node.name (parameters_payload input planned))
    (if text_eq planned.current_hash planned.next_hash
        then pure no_change
        else if input.is_dry_run
        then pure dry_run
        else commit_parameters reads changes input node current planned details)

  abbrev action_payload : ActionInput → Value
  action_payload input = object (
      field (codes "method") (text (method_text input.method))
        (field (codes "args") input.args end))

  abbrev action_event : ActionInput → Node → Text → Fields
  action_event input node action = field (codes "operation") (text (codes "call_action")) (
      field (codes "node") (text node.name) (
        field (codes "action") (text action)
          (field (codes "method") (text (method_text input.method)) end)))

  abbrev clock_of : Tool ℕ
  clock_of w = (inr w.clock, w)

  unfoldable pub verify_action_activity : Reads → Node → Text → ℕ → Tool Bool
  unfolding try_ask activity_contains_action
  verify_action_activity reads node action from =
      try_ask (λ v. activity_contains_action v action) false (reads.get_activity node from)

  -- What `callAction` does once the request is more than a dry run.
  unfoldable pub commit_action :
      Reads → Changes → ActionInput → Node → Text → ActionRequest → ApprovalDetails → Tool Status
  unfolding run audited verify_action_activity assert_writes_enabled assert_write_approved
      audited_mutation
  commit_action reads changes input node action request details = do
    _ ← lift (assert_writes_enabled config)
    _ ← run (assert_write_approved env.platform config details input.approval_id)
    from ← clock_of
    _ ← audited (
        audited_mutation env.measure config env.request_id (action_event input node action)
          (changes.send node request))
    ok_ ← verify_action_activity reads node action from
    pure (verified ok_)

  unfoldable pub call_action : Reads → Changes → ActionInput → Tool Status
  unfolding ask resolve_definition_name action_request write_approval commit_action
  call_action reads changes input = do
    node ← ask (reads.resolve_node input.node)
    actions ← ask (reads.get_actions node)
    action ← lift (resolve_definition_name env.web actions input.action)
    request ← lift (action_request env.web action input.method input.args)
    details ←
        lift (
          write_approval (codes "call_action") (node.name ++ (b':' ∷ action))
            (action_payload input))
    (if input.is_dry_run
        then pure dry_run
        else commit_action reads changes input node action request details)
