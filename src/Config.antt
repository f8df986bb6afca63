-- ===== src/Config.antt =====
-- src/config.ts: the configuration of the sidecar.
pub mod Load
pub mod Bounds
pub mod Validity
pub mod Samples
mod Tests
use nodel_mcp.Base.{ℕ, Bool, true, false, Option, none, List, [], Text, codes}

-- `AppConfig`; of a warning the code is kept, and there is one code.
pub record AppConfig : Type 0 where
  pub nodel_base_url : Text
  pub mcp_port : ℕ
  pub mcp_bind_address : Text
  pub mcp_token : Option Text
  pub allowed_origins : List Text
  pub trust_inbound_request_id : Bool
  pub allowed_runtime_origins : List Text
  pub request_body_limit_bytes : ℕ
  pub shutdown_timeout_ms : ℕ
  pub allowed_node_prefixes : List Text
  pub state_dir : Text
  pub writes_enabled : Bool
  pub node_lifecycle_enabled : Bool
  pub deletes_enabled : Bool
  pub write_approval_required : Bool
  pub unsafe_write_mode : Bool
  pub config_warnings : List Text
  pub write_approval_ttl_seconds : ℕ
  pub post_write_settle_ms : ℕ
  pub post_write_ready_timeout_seconds : ℕ
  pub nodel_request_timeout_ms : ℕ
  pub public_recipe_request_timeout_ms : ℕ
  pub audit_max_bytes : ℕ
  pub audit_retention_files : ℕ
  pub backup_retention_days : ℕ
  pub backup_retention_per_node_kind : ℕ

-- The defaults of `DEFAULTS`, with writes enabled.
abbrev pub sample : AppConfig
sample = record {
  nodel_base_url = codes "http://127.0.0.1:8085";
  mcp_port = 8765;
  mcp_bind_address = codes "127.0.0.1";
  mcp_token = none;
  allowed_origins = [];
  trust_inbound_request_id = false;
  allowed_runtime_origins = [];
  request_body_limit_bytes = 1048576;
  shutdown_timeout_ms = 10000;
  allowed_node_prefixes = [];
  state_dir = codes ".state";
  writes_enabled = true;
  node_lifecycle_enabled = false;
  deletes_enabled = false;
  write_approval_required = true;
  unsafe_write_mode = false;
  config_warnings = [];
  write_approval_ttl_seconds = 600;
  post_write_settle_ms = 3000;
  post_write_ready_timeout_seconds = 20;
  nodel_request_timeout_ms = 10000;
  public_recipe_request_timeout_ms = 15000;
  audit_max_bytes = 10485760;
  audit_retention_files = 5;
  backup_retention_days = 30;
  backup_retention_per_node_kind = 50;
}
