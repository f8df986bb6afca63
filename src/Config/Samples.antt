-- ===== src/Config/Samples.antt =====
-- A host and the configuration that it loads from an empty environment, for the tests.
use nodel_mcp.Base.{traverse}
use nodel_mcp.Base.{◌≡◌, refl, true, false, none, some, [], codes, ok, text_eq, split}
use nodel_mcp.Base.{if◌then◌else◌, trim, trim_start, is_space, starts_with}
use nodel_mcp.Values.{pos}
use nodel_mcp.Config.{AppConfig}
use nodel_mcp.Config.Load.{
  Host, Environment, load_config, value, boolean_value, integer_value, normalize_http_url,
  origin_list,
}
use nodel_mcp.Config.Load.{comma_list, is_loopback_address, validate_token, strip_end}

-- Every text is an http address that is written as it is; no text is a number but "8".
abbrev pub sample_host : Host
sample_host = record {
  parse_url = λ s. some (record {
    protocol = codes "http:";
    username = [];
    password = [];
    pathname = codes "/";
    search = [];
    hash = [];
    origin = s;
    href = s;
  });
  is_ip = λ s. if starts_with s (codes "127.") then 4 else 0;
  resolve = λ folder s. s;
  to_integer = λ s. if text_eq s (codes "8") then some (pos 8) else none;
}

abbrev pub bare : Environment
bare name = none

abbrev pub loaded : AppConfig
loaded = record {
  nodel_base_url = codes "http://127.0.0.1:8085";
  mcp_port = 8765;
  mcp_bind_address = codes "127.0.0.1";
  mcp_token = none;
  allowed_origins = [];
  trust_inbound_request_id = false;
  allowed_runtime_origins = [];
  request_body_limit_bytes = 1048576;
  shutdown_timeout_ms = 10000;
  allowed_node_prefixes = [];
  state_dir = codes ".state";
  writes_enabled = false;
  node_lifecycle_enabled = false;
  deletes_enabled = false;
  write_approval_required = true;
  unsafe_write_mode = false;
  config_warnings = [];
  write_approval_ttl_seconds = 600;
  post_write_settle_ms = 3000;
  post_write_ready_timeout_seconds = 20;
  nodel_request_timeout_ms = 10000;
  public_recipe_request_timeout_ms = 15000;
  audit_max_bytes = 10485760;
  audit_retention_files = 5;
  backup_retention_days = 30;
  backup_retention_per_node_kind = 50;
}

pub loads : load_config sample_host bare [] ≡ ok loaded
unfolding load_config value boolean_value integer_value normalize_http_url origin_list traverse
    comma_list is_loopback_address validate_token strip_end text_eq trim trim_start is_space
    starts_with split
loads = refl
