-- ===== src/Config/Validity.antt =====
-- What `loadConfig` of src/config.ts guarantees of the configuration that it returns.
use nodel_mcp.Base.{◌≡◌, refl, true, false, not, ◌&&◌, ◌||◌, [], ◌∷◌, Text}
use nodel_mcp.Base.{codes, if◌then◌else◌, ok}
use nodel_mcp.Config.{AppConfig}
use nodel_mcp.Config.Load.{Host, Environment, boolean_value}
use nodel_mcp.Config.Load.{origin_list, is_loopback_address}
use nodel_mcp.Config.Load.{load_config}
use nodel_mcp.Config.Load.{Gates, load_gates, config_with}
use nodel_mcp.Config.Bounds.{
  Ensures, Ensures-bind, Ensures-ok, IsWithin, is_strong, IsGated, after_any, after_boolean,
  after_integer, load_gates_lem,
}
use mathlib.Core.Bool.{and-eq-true_iff}

-- What holds of a configuration that was loaded.
pub record IsValid (host : Host) (env : Environment) (c : AppConfig) : Type 0 where
  pub writes_are_read : boolean_value env (codes "NODEL_ENABLE_WRITES") false ≡ ok c.writes_enabled
  pub approval_is_read :
      boolean_value env (codes "NODEL_REQUIRE_WRITE_APPROVAL") true ≡ ok c.write_approval_required
  pub lifecycle_needs_writes : (not c.node_lifecycle_enabled || c.writes_enabled) ≡ true
  pub deletes_need_lifecycle : (not c.deletes_enabled || c.node_lifecycle_enabled) ≡ true
  pub is_warned : c.config_warnings ≡ (
      if c.writes_enabled && not c.write_approval_required
      then codes "UNSAFE_WRITE_MODE" ∷ []
      else [])
  pub is_guarded : (is_loopback_address host c.mcp_bind_address || is_strong c.mcp_token) ≡ true
  pub port : IsWithin 1 65535 c.mcp_port
  pub body_limit : IsWithin 1024 52428800 c.request_body_limit_bytes
  pub shutdown : IsWithin 1000 60000 c.shutdown_timeout_ms
  pub approval_ttl : IsWithin 30 3600 c.write_approval_ttl_seconds
  pub settle : IsWithin 0 30000 c.post_write_settle_ms
  pub ready_timeout : IsWithin 1 120 c.post_write_ready_timeout_seconds
  pub request_timeout : IsWithin 1000 120000 c.nodel_request_timeout_ms
  pub recipe_timeout : IsWithin 1000 120000 c.public_recipe_request_timeout_ms
  pub audit_size : IsWithin 1024 1073741824 c.audit_max_bytes
  pub audit_files : IsWithin 1 100 c.audit_retention_files
  pub backup_days : IsWithin 1 3650 c.backup_retention_days
  pub backup_count : IsWithin 1 10000 c.backup_retention_per_node_kind

module _ (host : Host) (env : Environment) where
  config_with_lem :
      (cwd : Text) (gates : Gates)
      → IsGated host env gates
      → Ensures (IsValid host env) (config_with host env cwd gates)
  unfolding config_with
  config_with_lem cwd gates g =
      let fit = (and-eq-true_iff _ _).0 g.gates_fit in
      after_integer host env _ _ _ _ λ port port_fits.
        after_any host env (origin_list host env (codes "MCP_ALLOWED_ORIGINS")) λ origins.
          after_boolean host env _ _ λ trust _.
            after_any host env (origin_list host env (codes "NODEL_ALLOWED_RUNTIME_ORIGINS"))
              λ runtime_origins. after_integer host env _ _ _ _ λ body body_fits.
                after_integer host env _ _ _ _ λ shutdown shutdown_fits.
                  after_integer host env _ _ _ _ λ ttl ttl_fits.
                    after_integer host env _ _ _ _ λ settle settle_fits.
                      after_integer host env _ _ _ _ λ ready ready_fits.
                        after_integer host env _ _ _ _ λ request request_fits.
                          after_integer host env _ _ _ _ λ recipe recipe_fits.
                            after_integer host env _ _ _ _ λ size size_fits.
                              after_integer host env _ _ _ _ λ files files_fit.
                                after_integer host env _ _ _ _ λ days days_fit.
                                  after_integer host env _ _ _ _ λ count count_fits. record {
                                    meets = record {
                                      writes_are_read = g.writes_are_read;
                                      approval_is_read = g.approval_is_read;
                                      lifecycle_needs_writes = fit.0;
                                      deletes_need_lifecycle = fit.1;
                                      is_warned = refl;
                                      is_guarded = g.is_guarded;
                                      port = port_fits;
                                      body_limit = body_fits;
                                      shutdown = shutdown_fits;
                                      approval_ttl = ttl_fits;
                                      settle = settle_fits;
                                      ready_timeout = ready_fits;
                                      request_timeout = request_fits;
                                      recipe_timeout = recipe_fits;
                                      audit_size = size_fits;
                                      audit_files = files_fit;
                                      backup_days = days_fit;
                                      backup_count = count_fits;
                                    };
                                  }

  load_config_lem : (cwd : Text) → Ensures (IsValid host env) (load_config host env cwd)
  unfolding load_config
  load_config_lem cwd =
      Ensures-bind (load_gates host env) (load_gates_lem host env) (config_with_lem cwd)

  -- A configuration that `loadConfig` returns has its gates in order (deletes only with lifecycle
  -- tools, these only with writes), warns of writes without approval, listens on another address than
  -- a loopback one only with a strong token, and has every number within its bounds.
  pub load_config-IsValid :
      (cwd : Text) {c : AppConfig} → load_config host env cwd ≡ ok c → IsValid host env c
  load_config-IsValid cwd h = Ensures-ok (load_config_lem cwd) h
