-- ===== src/Config.antt =====
-- src/config.rs: the settings that `Config::validate` looks at, and the check itself, which `load`
-- runs before the server starts. A message is one value for each `return Err`; warnings are not
-- modelled.
pub mod Accepted
pub mod Validation
mod Tests
use aperture_router.Prelude.{
  ℕ, suc, ◌+◌, ◌*◌, Bool, true, false, not, ◌&&◌, ◌||◌, Option, none, some, List, [], ◌∷◌, any,
  if◌then◌else◌, leb, ltb, ◌==◌, nat_eq, is_empty, length, contains, unwrap_or,
}
use aperture_router.Maps
use aperture_router.Maps.{Map}
use aperture_router.Net.{IpAddr, Result, ok, err, ◌>>◌}
use aperture_router.Text.{Text, text_eq, utf8, starts_with, contains_text}
use aperture_router.Security.{is_internal_ip_strict_host, is_metadata_endpoint}

pub record ApertureConfig : Type 0 where
  pub base_url : Text
  pub api_key : Option Text

pub record HttpConfig : Type 0 where
  pub upstream_retry_attempts : ℕ
  pub upstream_retry_base_delay_ms : ℕ

pub record RateLimitConfig : Type 0 where
  pub requests_per_second : ℕ
  pub burst_size : ℕ

pub record SecurityConfig : Type 0 where
  pub api_keys : List Text
  pub admin_api_keys : List Text
  pub max_body_size_bytes : ℕ
  pub max_auth_attempts : ℕ
  pub auth_window_secs : ℕ
  pub ban_duration_secs : ℕ
  pub require_auth_in_prod : Bool
  pub max_json_depth : ℕ
  pub max_streaming_size_bytes : ℕ
  pub max_messages : ℕ

pub data EndpointStyle : Type 0 where
  openai_v1 openai_direct anthropic : EndpointStyle

pub record Provider : Type 0 where
  pub name : Text
  pub base_url : Text
  pub api_key : Option Text
  pub endpoint_style : EndpointStyle
  pub models : List Text
  pub enabled : Bool

pub record Config : Type 0 where
  pub port : ℕ
  pub aperture : ApertureConfig
  pub http : HttpConfig
  pub rate_limit : RateLimitConfig
  pub security : SecurityConfig
  pub model_aliases : Map Text Text
  pub providers : List Provider

pub data ConfigError : Type 0 where
  port_zero no_base_url placeholder_key : ConfigError
  key_short key_weak key_placeholder admin_short admin_weak admin_placeholder : ConfigError
  no_rate no_burst no_attempts no_window no_ban : ConfigError
  no_body body_large depth_small depth_large no_stream stream_large no_messages : ConfigError
  many_retries no_delay delay_large auth_required : ConfigError
  name_empty duplicate_name url_empty no_models bad_scheme blocked_url : ConfigError

unfoldable pub resolve_model_alias : Config → Text → Text
resolve_model_alias config model = unwrap_or (Maps.get model config.model_aliases) model

-- `if test { return Err(e) }`
abbrev pub reject_if : Bool → ConfigError → Result ConfigError Unit
reject_if true e = err e
reject_if false e = ok tt

-- The characters of a UTF-8 text, each as its bytes: a byte from 128 to 191 goes on with the one
-- before.
abbrev join_char : ℕ → List Text → List Text
join_char c [] = (c ∷ []) ∷ []
join_char c ([] ∷ chars) = (c ∷ []) ∷ chars
join_char c ((d ∷ bytes) ∷ chars) =
    if leb 128 d && leb d 191 then (c ∷ d ∷ bytes) ∷ chars else (c ∷ []) ∷ (d ∷ bytes) ∷ chars

unfoldable pub chars : Text → List Text
chars [] = []
chars (c ∷ s) = join_char c (chars s)

-- The size of the `HashSet` of a list's elements.
unfoldable pub unique_count : List Text → ℕ
unique_count [] = 0
unique_count (c ∷ cs) = let rest = unique_count cs in if contains cs c then rest else suc rest

unfoldable pub check_keys : ConfigError → ConfigError → List Text → Result ConfigError Unit
check_keys short weak [] = ok tt
check_keys short weak (key ∷ keys) =
    reject_if (ltb (length key) 32) short
    >> reject_if (ltb (unique_count (chars key)) 20) weak
    >> check_keys short weak keys

abbrev check_api_key : Option Text → Result ConfigError Unit
check_api_key none = ok tt
check_api_key (some api_key) =
    reject_if (contains_text (utf8 "your-api-key-here") api_key || is_empty api_key) placeholder_key

unfoldable pub check_aperture : Config → Result ConfigError Unit
check_aperture config =
    reject_if (config.port == 0) port_zero
    >> reject_if (is_empty config.aperture.base_url) no_base_url
    >> check_api_key config.aperture.api_key

unfoldable pub check_security_keys : SecurityConfig → Result ConfigError Unit
check_security_keys security =
    check_keys key_short key_weak security.api_keys
    >> reject_if (contains security.api_keys (utf8 "your-api-key-here")) key_placeholder
    >> check_keys admin_short admin_weak security.admin_api_keys
    >> reject_if
        (contains security.admin_api_keys (utf8 "your-admin-api-key-here")
          || contains security.admin_api_keys (utf8 "your-api-key-here"))
        admin_placeholder

unfoldable pub check_rates : RateLimitConfig → Result ConfigError Unit
check_rates rate_limit =
    reject_if (rate_limit.requests_per_second == 0) no_rate
    >> reject_if (rate_limit.burst_size == 0) no_burst

unfoldable pub check_limits : SecurityConfig → Result ConfigError Unit
check_limits security =
    reject_if (security.max_auth_attempts == 0) no_attempts
    >> reject_if (security.auth_window_secs == 0) no_window
    >> reject_if (security.ban_duration_secs == 0) no_ban
    >> reject_if (security.max_body_size_bytes == 0) no_body
    >> reject_if (ltb (100 * 1024 * 1024) security.max_body_size_bytes) body_large
    >> reject_if (ltb security.max_json_depth 16) depth_small
    >> reject_if (ltb 4096 security.max_json_depth) depth_large
    >> reject_if (security.max_streaming_size_bytes == 0) no_stream
    >> reject_if (ltb (1024 * 1024 * 1024) security.max_streaming_size_bytes) stream_large
    >> reject_if (security.max_messages == 0) no_messages

unfoldable pub check_retries : HttpConfig → Result ConfigError Unit
check_retries http =
    reject_if (ltb 5 http.upstream_retry_attempts) many_retries
    >> reject_if (http.upstream_retry_base_delay_ms == 0) no_delay
    >> reject_if (ltb 10000 http.upstream_retry_base_delay_ms) delay_large

-- `debug_assertions` is the build's; `url_host` is `url::Url::parse` with `host_str`, and
-- `parse_ip` is std's `parse::<IpAddr>`.
module _ (debug_assertions : Bool) (url_host : Text → Option Text)
    (parse_ip : Text → Option IpAddr) where
  abbrev is_blocked_url : Option Text → Bool
  is_blocked_url none = false
  is_blocked_url (some host) = is_internal_ip_strict_host parse_ip host || is_metadata_endpoint host

  -- The loop over the providers, with the names that it has met.
  unfoldable pub check_providers : List Text → List Provider → Result ConfigError Unit
  check_providers provider_names [] = ok tt
  check_providers provider_names (provider ∷ providers) =
      reject_if (is_empty provider.name) name_empty
      >> reject_if (contains provider_names provider.name) duplicate_name
      >> reject_if (is_empty provider.base_url) url_empty
      >> reject_if (is_empty provider.models) no_models
      >> reject_if
          (not (starts_with (utf8 "http://") provider.base_url)
            && not (starts_with (utf8 "https://") provider.base_url))
          bad_scheme
      >> reject_if (is_blocked_url (url_host provider.base_url)) blocked_url
      >> check_providers (provider.name ∷ provider_names) providers

  unfoldable pub validate : Config → Result ConfigError Unit
  validate config =
      check_aperture config
      >> check_security_keys config.security
      >> check_rates config.rate_limit
      >> check_limits config.security
      >> check_retries config.http
      >> reject_if
          (config.security.require_auth_in_prod
            && is_empty config.security.api_keys
            && not debug_assertions)
          auth_required
      >> check_providers [] config.providers
