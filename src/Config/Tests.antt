-- ===== src/Config/Tests.antt =====
-- An environment that is refused, and an instance of the theorem about loaded configurations.
use nodel_mcp.Base.{traverse}
use nodel_mcp.Base.{◌≡◌, refl, none, some, [], codes, err, system, text_eq, split}
use nodel_mcp.Base.{if◌then◌else◌, trim, trim_start, is_space, starts_with}
use nodel_mcp.Config.Load.{
  Environment, load_config, value, boolean_value, integer_value, normalize_http_url, origin_list,
}
use nodel_mcp.Config.Load.{comma_list, is_loopback_address, validate_token, strip_end}
use nodel_mcp.Config.Validity.{IsValid, load_config-IsValid}
use nodel_mcp.Config.Samples.{sample_host, bare, loaded, loads}

abbrev with_deletes : Environment
with_deletes name =
    if text_eq name (codes "NODEL_ENABLE_DELETES") then some (codes "Yes ") else none

-- Deletes alone are refused.
deletes_alone : load_config sample_host with_deletes [] ≡ err system
unfolding load_config value boolean_value integer_value normalize_http_url origin_list traverse
    comma_list is_loopback_address validate_token strip_end text_eq trim trim_start is_space
    starts_with split
deletes_alone = refl

load_config-IsValid_example : IsValid sample_host bare loaded
load_config-IsValid_example = load_config-IsValid sample_host bare [] loads
