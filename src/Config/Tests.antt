-- ===== src/Config/Tests.antt =====
-- The check of a concrete configuration.
use aperture_router.Prelude.{
  ◌≡◌, ◌↔◌, true, false, Option, none, some, [], ◌∷◌, if◌then◌else◌, ◌==◌,
}
use aperture_router.Net.{IpAddr, ok}
use aperture_router.Text.{Text, utf8, text_eq}
use aperture_router.Config.{EndpointStyle, Config, Provider, validate}
use aperture_router.Config.Validation.{validate_iff, IsAccepted}

abbrev local : Provider
local = record {
  name = utf8 "p";
  base_url = utf8 "http://p";
  api_key = none;
  endpoint_style = EndpointStyle.openai_v1;
  models = utf8 "m" ∷ [];
  enabled = true;
}

abbrev config : Config
config = record {
  port = 8080;
  aperture = record { base_url = utf8 "http://gateway"; api_key = none };
  http = record { upstream_retry_attempts = 2; upstream_retry_base_delay_ms = 500 };
  rate_limit = record { requests_per_second = 10; burst_size = 20 };
  security = record {
    api_keys = utf8 "abcdefghijklmnopqrstuvwxyz012345" ∷ [];
    admin_api_keys = [];
    max_body_size_bytes = 1024;
    max_auth_attempts = 5;
    auth_window_secs = 60;
    ban_duration_secs = 300;
    require_auth_in_prod = true;
    max_json_depth = 64;
    max_streaming_size_bytes = 1024;
    max_messages = 100;
  };
  model_aliases = [];
  providers = local ∷ [];
}

abbrev host_only : Text → Option Text
host_only url = if url == utf8 "http://p" then some (utf8 "p") else none

abbrev no_ip : Text → Option IpAddr
no_ip s = none

validate_iff_example :
    (validate false host_only no_ip config ≡ ok tt) ↔ IsAccepted false host_only no_ip config
validate_iff_example = validate_iff false host_only no_ip config
