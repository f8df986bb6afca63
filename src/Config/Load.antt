-- ===== src/Config/Load.antt =====
-- src/config.ts: `loadConfig`, from the environment.
-- Of the platform it takes `new URL`, `isIP`, `resolve`, and `Number` of a text as an integer, all
-- as parameters. Every error that it throws is a plain one; messages are not kept.
use nodel_mcp.Base.{
  ℕ, ◌*◌, Bool, true, false, not, ◌&&◌, ◌||◌, Option, none, some, or_else, List, [], ◌∷◌, Text,
}
use nodel_mcp.Base.{
  codes, trim, is_empty, text_eq, to_lower, starts_with, split, code_points, leb, ltb, ◌==◌,
}
use nodel_mcp.Base.{
  if◌then◌else◌, length, any, keep, map, reverse, Result, ok, err, system, guard, ◌>>=◌, ◌>>◌,
}
use nodel_mcp.Base.{traverse}
use nodel_mcp.Values.{Integer, pos}
use nodel_mcp.Config.{AppConfig}

-- What the code reads of a `URL`.
pub record Url : Type 0 where
  pub protocol : Text
  pub username : Text
  pub password : Text
  pub pathname : Text
  pub search : Text
  pub hash : Text
  pub origin : Text
  pub href : Text

pub record Host : Type 0 where
  pub parse_url : Text → Option Url
  pub is_ip : Text → ℕ
  pub resolve : Text → Text → Text
  -- none where `Number` gives no integer
  pub to_integer : Text → Option Integer

abbrev pub Environment : Type 0
Environment = Text → Option Text

abbrev non_blank : Option Text → Option Text
non_blank none = none
non_blank (some s) = if is_empty (trim s) then none else some (trim s)

unfoldable pub value : Environment → Text → Option Text
value env name = non_blank (env name)

abbrev is_one_of : Text → List Text → Bool
is_one_of s names = any (text_eq s) names

abbrev pub read_boolean : Bool → Option Text → Result Bool
read_boolean fallback none = ok fallback
read_boolean fallback (some s) =
    if is_one_of (to_lower s) (codes "true" ∷ codes "1" ∷ codes "yes" ∷ [])
    then ok true
    else if is_one_of (to_lower s) (codes "false" ∷ codes "0" ∷ codes "no" ∷ [])
    then ok false
    else err system

unfoldable pub boolean_value : Environment → Text → Bool → Result Bool
boolean_value env name fallback = read_boolean fallback (value env name)

-- Every lower bound in use is a natural number.
abbrev pub in_range : ℕ → ℕ → Option Integer → Result ℕ
in_range low high (some (pos n)) = if leb low n && leb n high then ok n else err system
in_range low high _ = err system

abbrev parsed : (Text → Option Integer) → ℕ → Option Text → Option Integer
parsed to_integer fallback none = some (pos fallback)
parsed to_integer fallback (some s) = to_integer s

unfoldable pub strip_end : Text → Text
strip_end [] = []
strip_end (c ∷ s) = if c == b'/' then strip_end s else c ∷ s

-- `.replace(/\/+$/, "")`
abbrev without_slashes : Text → Text
without_slashes s = reverse (strip_end (reverse s))

abbrev pub check_url : Bool → Option Url → Result Text
check_url require_origin none = err system
check_url require_origin (some url) = do
  guard (is_one_of url.protocol (codes "http:" ∷ codes "https:" ∷ [])) system
  guard (is_empty url.username && is_empty url.password) system
  guard
      (not (
        require_origin
        && (not (text_eq url.pathname (codes "/"))
            || not (is_empty url.search)
            || not (is_empty url.hash))))
      system
  ok (if require_origin then url.origin else without_slashes url.href)

unfoldable pub comma_list : Environment → Text → List Text
comma_list env name =
    keep (λ s. not (is_empty s)) (map trim (split b',' (or_else (value env name) [])))

-- The number of the distinct elements, the size of a `Set`.
unfoldable pub distinct : List ℕ → ℕ
distinct [] = 0
distinct (c ∷ s) = let rest = distinct s in if any (λ d. d == c) s then rest else ℕ.suc rest

module _ (host : Host) where
  unfoldable pub integer_value : Environment → Text → ℕ → ℕ → ℕ → Result ℕ
  integer_value env name fallback low high =
      in_range low high (parsed host.to_integer fallback (value env name))

  unfoldable pub normalize_http_url : Bool → Text → Result Text
  normalize_http_url require_origin raw = check_url require_origin (host.parse_url raw)

  unfoldable pub origin_list : Environment → Text → Result (List Text)
  origin_list env name = traverse (normalize_http_url true) (comma_list env name)

  unfoldable pub is_loopback_address : Text → Bool
  is_loopback_address address =
      let normalized = to_lower (trim address) in
      text_eq normalized (codes "localhost")
      || text_eq normalized (codes "::1")
      || (host.is_ip normalized == 4 && starts_with normalized (codes "127."))

  unfoldable pub validate_token : Option Text → Text → Result (Unit {0})
  validate_token token bind_address = if is_loopback_address bind_address then ok tt else do
    guard (not (is_empty (or_else token []))) system
    guard
        (not (
          ltb (length (or_else token [])) 32 || ltb (distinct (code_points (or_else token []))) 16))
        system

unfoldable pub validate_gates : Bool → Bool → Bool → Result (Unit {0})
validate_gates writes lifecycle deletes =
    guard (not ((lifecycle && not writes) || (deletes && not lifecycle) || (deletes && not writes)))
      system

-- What `loadConfig` reads before it builds its result.
pub record Gates : Type 0 where
  pub nodel_base_url : Text
  pub mcp_bind_address : Text
  pub writes_enabled : Bool
  pub node_lifecycle_enabled : Bool
  pub deletes_enabled : Bool
  pub mcp_token : Option Text
  pub write_approval_required : Bool

unfoldable pub load_gates : Host → Environment → Result Gates
unfolding validate_gates validate_token
load_gates host env = do
  nodel_base_url ←
      normalize_http_url host false
        (or_else (value env (codes "NODEL_BASE_URL")) (codes "http://127.0.0.1:8085"))
  let mcp_bind_address = or_else (value env (codes "MCP_BIND_ADDRESS")) (codes "127.0.0.1")
  writes_enabled ← boolean_value env (codes "NODEL_ENABLE_WRITES") false
  node_lifecycle_enabled ← boolean_value env (codes "NODEL_ENABLE_NODE_LIFECYCLE") false
  deletes_enabled ← boolean_value env (codes "NODEL_ENABLE_DELETES") false
  validate_gates writes_enabled node_lifecycle_enabled deletes_enabled
  let mcp_token = value env (codes "NODEL_MCP_TOKEN")
  validate_token host mcp_token mcp_bind_address
  write_approval_required ← boolean_value env (codes "NODEL_REQUIRE_WRITE_APPROVAL") true
  ok (record {
    nodel_base_url = nodel_base_url;
    mcp_bind_address = mcp_bind_address;
    writes_enabled = writes_enabled;
    node_lifecycle_enabled = node_lifecycle_enabled;
    deletes_enabled = deletes_enabled;
    mcp_token = mcp_token;
    write_approval_required = write_approval_required;
  })

unfoldable pub config_with : Host → Environment → Text → Gates → Result AppConfig
config_with host env cwd gates = do
  let unsafe_write_mode = gates.writes_enabled && not gates.write_approval_required
  mcp_port ← integer_value host env (codes "MCP_PORT") 8765 1 65535
  allowed_origins ← origin_list host env (codes "MCP_ALLOWED_ORIGINS")
  trust_inbound_request_id ← boolean_value env (codes "MCP_TRUST_REQUEST_ID_HEADER") false
  allowed_runtime_origins ← origin_list host env (codes "NODEL_ALLOWED_RUNTIME_ORIGINS")
  request_body_limit_bytes ←
      integer_value host env (codes "MCP_REQUEST_BODY_LIMIT_BYTES") (1024 * 1024) 1024
        (50 * 1024 * 1024)
  shutdown_timeout_ms ← integer_value host env (codes "MCP_SHUTDOWN_TIMEOUT_MS") 10000 1000 60000
  write_approval_ttl_seconds ←
      integer_value host env (codes "NODEL_WRITE_APPROVAL_TTL_SECONDS") 600 30 3600
  post_write_settle_ms ← integer_value host env (codes "NODEL_POST_WRITE_SETTLE_MS") 3000 0 30000
  post_write_ready_timeout_seconds ←
      integer_value host env (codes "NODEL_POST_WRITE_READY_TIMEOUT_SECONDS") 20 1 120
  nodel_request_timeout_ms ←
      integer_value host env (codes "NODEL_REQUEST_TIMEOUT_MS") 10000 1000 120000
  public_recipe_request_timeout_ms ←
      integer_value host env (codes "PUBLIC_RECIPE_REQUEST_TIMEOUT_MS") 15000 1000 120000
  audit_max_bytes ←
      integer_value host env (codes "NODEL_AUDIT_MAX_BYTES") (10 * 1024 * 1024) 1024
        (1024 * 1024 * 1024)
  audit_retention_files ← integer_value host env (codes "NODEL_AUDIT_RETENTION_FILES") 5 1 100
  backup_retention_days ← integer_value host env (codes "NODEL_BACKUP_RETENTION_DAYS") 30 1 3650
  backup_retention_per_node_kind ←
      integer_value host env (codes "NODEL_BACKUP_RETENTION_PER_NODE_KIND") 50 1 10000
  ok (record {
    nodel_base_url = gates.nodel_base_url;
    mcp_port = mcp_port;
    mcp_bind_address = gates.mcp_bind_address;
    mcp_token = gates.mcp_token;
    allowed_origins = allowed_origins;
    trust_inbound_request_id = trust_inbound_request_id;
    allowed_runtime_origins = allowed_runtime_origins;
    request_body_limit_bytes = request_body_limit_bytes;
    shutdown_timeout_ms = shutdown_timeout_ms;
    allowed_node_prefixes = comma_list env (codes "NODEL_ALLOWED_NODE_PREFIXES");
    state_dir = host.resolve cwd (or_else (value env (codes "NODEL_STATE_DIR")) (codes ".state"));
    writes_enabled = gates.writes_enabled;
    node_lifecycle_enabled = gates.node_lifecycle_enabled;
    deletes_enabled = gates.deletes_enabled;
    write_approval_required = gates.write_approval_required;
    unsafe_write_mode = unsafe_write_mode;
    config_warnings = if unsafe_write_mode then codes "UNSAFE_WRITE_MODE" ∷ [] else [];
    write_approval_ttl_seconds = write_approval_ttl_seconds;
    post_write_settle_ms = post_write_settle_ms;
    post_write_ready_timeout_seconds = post_write_ready_timeout_seconds;
    nodel_request_timeout_ms = nodel_request_timeout_ms;
    public_recipe_request_timeout_ms = public_recipe_request_timeout_ms;
    audit_max_bytes = audit_max_bytes;
    audit_retention_files = audit_retention_files;
    backup_retention_days = backup_retention_days;
    backup_retention_per_node_kind = backup_retention_per_node_kind;
  })

unfoldable pub load_config : Host → Environment → Text → Result AppConfig
unfolding load_gates config_with
load_config host env cwd = load_gates host env >>= config_with host env cwd
