-- ===== src/Policy.antt =====
-- src/safety/policy.ts: the gates of the tools that change nodes.
pub mod Gates
pub mod Allowlist
mod Tests
use nodel_mcp.Base.{
  ◌≡◌, Bool, true, false, List, [], ◌∷◌, Text, starts_with, any, Result, guard, ◌>>◌,
}
use nodel_mcp.Base.{public_error, policy}
use nodel_mcp.Config.{AppConfig}

unfoldable pub is_node_allowed : Text → List Text → Bool
is_node_allowed node_name [] = true
is_node_allowed node_name (p ∷ ps) = any (starts_with node_name) (p ∷ ps)

unfoldable pub assert_node_allowed : Text → List Text → Result (Unit {0})
assert_node_allowed node_name allowed_prefixes =
    guard (is_node_allowed node_name allowed_prefixes) (public_error policy)

unfoldable pub assert_writes_enabled : AppConfig → Result (Unit {0})
assert_writes_enabled config = guard config.writes_enabled (public_error policy)

unfoldable pub assert_node_lifecycle_enabled : AppConfig → Result (Unit {0})
unfolding assert_writes_enabled
assert_node_lifecycle_enabled config =
    assert_writes_enabled config >> guard config.node_lifecycle_enabled (public_error policy)

unfoldable pub assert_deletes_enabled : AppConfig → Result (Unit {0})
unfolding assert_node_lifecycle_enabled
assert_deletes_enabled config =
    assert_node_lifecycle_enabled config >> guard config.deletes_enabled (public_error policy)
