-- ===== src/Policy/Gates.antt =====
-- The gates under a configuration that `loadConfig` returned.
use nodel_mcp.Base.{◌≡◌, refl, true, none, Text, codes, ok, err, is_ok}
use nodel_mcp.Base.{public_error, approval_required, arith}
use nodel_mcp.Platform.{Platform}
use nodel_mcp.Files.{World}
use nodel_mcp.Config.{AppConfig}
use nodel_mcp.Config.Load.{Host, Environment, value, boolean_value, load_config}
use nodel_mcp.Config.Validity.{load_config-IsValid}
use nodel_mcp.Policy.{assert_node_lifecycle_enabled, assert_deletes_enabled}
use nodel_mcp.Approvals.{ApprovalDetails}
use nodel_mcp.Approvals.Effects.{assert_write_approved}

-- Under a loaded configuration each gate passes exactly when its own setting is on.
pub gates_match :
    (host : Host) (env : Environment) (cwd : Text) {c : AppConfig}
    → load_config host env cwd ≡ ok c
    → (is_ok (assert_node_lifecycle_enabled c) ≡ c.node_lifecycle_enabled)
      × (is_ok (assert_deletes_enabled c) ≡ c.deletes_enabled)
unfolding assert_deletes_enabled
gates_match host env cwd h =
    let v = load_config-IsValid host env cwd h in
    let lifecycle = v.lifecycle_needs_writes in
    let deletes = v.deletes_need_lifecycle in (ground arith, ground arith)

-- Where the environment does not say otherwise, a write without an approval id is refused under a
-- loaded configuration, and touches no file.
pub approval_by_default :
    (host : Host) (env : Environment) (cwd : Text) (p : Platform) (d : ApprovalDetails) (w : World)
    {c : AppConfig}
    → value env (codes "NODEL_REQUIRE_WRITE_APPROVAL") ≡ none
    → load_config host env cwd ≡ ok c
    → assert_write_approved p c d none w ≡ (err (public_error approval_required), w)
unfolding assert_write_approved boolean_value
approval_by_default host env cwd p d w {c} unset h =
    let v = load_config-IsValid host env cwd h in
    let needed : c.write_approval_required ≡ true = let read = v.approval_is_read in ground arith in
    rw needed refl
