-- ===== src/Config/Accepted.antt =====
-- Which configurations `validate` accepts.
use aperture_router.Prelude.{
  ◌≤◌, ◌≡◌, ◌↔◌, Bool, true, false, ◌||◌, Option, none, some, List, [], ◌∷◌, All, ltb, nat_eq,
  is_empty, length, contains, arith,
}
use aperture_router.Net.{IpAddr, Result, ok, err, ◌>>◌}
use aperture_router.Text.{Text, text_eq, utf8, starts_with, contains_text}
use aperture_router.Config.{
  Config, SecurityConfig, Provider, ConfigError, reject_if, chars, unique_count, check_keys,
  check_api_key, check_aperture, check_security_keys, check_rates, check_limits, check_retries,
  check_providers, is_blocked_url, RateLimitConfig, HttpConfig,
}

pub reject_if_iff : (b : Bool) (e : ConfigError) → (reject_if b e ≡ ok tt) ↔ (b ≡ false)
reject_if_iff true e = ground arith
reject_if_iff false e = ground arith

pub then_iff : (m k : Result ConfigError Unit) → (m >> k ≡ ok tt) ↔ ((m ≡ ok tt) × (k ≡ ok tt))
then_iff (ok u) k = ground arith
then_iff (err e) k = ground arith

-- A key of at least 32 bytes with at least 20 different characters.
abbrev pub IsStrong : Text → Type 0
IsStrong key = (32 ≤ length key) × (20 ≤ unique_count (chars key))

check_keys_iff :
    (short weak : ConfigError) (keys : List Text)
    → (check_keys short weak keys ≡ ok tt) ↔ All IsStrong keys
unfolding check_keys
check_keys_iff short weak [] = ground arith
check_keys_iff short weak (key ∷ keys) = ground (
  arith,
  then_iff (reject_if (ltb (length key) 32) short)
      (reject_if (ltb (unique_count (chars key)) 20) weak >> check_keys short weak keys),
  then_iff (reject_if (ltb (unique_count (chars key)) 20) weak) (check_keys short weak keys),
  reject_if_iff (ltb (length key) 32) short,
  reject_if_iff (ltb (unique_count (chars key)) 20) weak,
  check_keys_iff short weak keys,
)

abbrev pub IsWithinLimits : SecurityConfig → Type 0
IsWithinLimits security =
    (1 ≤ security.max_auth_attempts)
    × (1 ≤ security.auth_window_secs)
    × (1 ≤ security.ban_duration_secs)
    × (1 ≤ security.max_body_size_bytes)
    × (security.max_body_size_bytes ≤ 104857600)
    × (16 ≤ security.max_json_depth)
    × (security.max_json_depth ≤ 4096)
    × (1 ≤ security.max_streaming_size_bytes)
    × (security.max_streaming_size_bytes ≤ 1073741824)
    × (1 ≤ security.max_messages)

pub check_limits_iff :
    (security : SecurityConfig) → (check_limits security ≡ ok tt) ↔ IsWithinLimits security
unfolding check_limits
check_limits_iff security = ground arith

-- No placeholder stands for a key.
abbrev pub HasRealKeys : SecurityConfig → Type 0
HasRealKeys security =
    All IsStrong security.api_keys
    × (contains security.api_keys (utf8 "your-api-key-here") ≡ false)
    × All IsStrong security.admin_api_keys
    × (contains security.admin_api_keys (utf8 "your-admin-api-key-here") ≡ false)
    × (contains security.admin_api_keys (utf8 "your-api-key-here") ≡ false)

pub check_security_keys_iff :
    (security : SecurityConfig) → (check_security_keys security ≡ ok tt) ↔ HasRealKeys security
unfolding check_security_keys
check_security_keys_iff security =
    let admin =
      contains security.admin_api_keys (utf8 "your-admin-api-key-here")
      || contains security.admin_api_keys (utf8 "your-api-key-here") in
    let last_step = reject_if admin ConfigError.admin_placeholder in
    let third = check_keys ConfigError.admin_short ConfigError.admin_weak security.admin_api_keys in
    let second =
      reject_if (contains security.api_keys (utf8 "your-api-key-here"))
        ConfigError.key_placeholder in
    ground (
      arith,
      then_iff (check_keys ConfigError.key_short ConfigError.key_weak security.api_keys)
          (second >> third >> last_step),
      then_iff second (third >> last_step),
      then_iff third last_step,
      reject_if_iff admin ConfigError.admin_placeholder,
      reject_if_iff (contains security.api_keys (utf8 "your-api-key-here"))
          ConfigError.key_placeholder,
      check_keys_iff ConfigError.key_short ConfigError.key_weak security.api_keys,
      check_keys_iff ConfigError.admin_short ConfigError.admin_weak security.admin_api_keys,
    )

abbrev pub IsRealKey : Option Text → Type 0
IsRealKey none = Unit
IsRealKey (some key) =
    (contains_text (utf8 "your-api-key-here") key ≡ false) × (is_empty key ≡ false)

check_api_key_iff : (key : Option Text) → (check_api_key key ≡ ok tt) ↔ IsRealKey key
check_api_key_iff none = ground arith
check_api_key_iff (some key) = ground arith

abbrev pub HasGateway : Config → Type 0
HasGateway config =
    (1 ≤ config.port)
    × (is_empty config.aperture.base_url ≡ false)
    × IsRealKey config.aperture.api_key

pub check_aperture_iff : (config : Config) → (check_aperture config ≡ ok tt) ↔ HasGateway config
unfolding check_aperture
check_aperture_iff config = ground (arith, check_api_key_iff config.aperture.api_key)

pub check_rates_iff :
    (rates : RateLimitConfig)
    → (check_rates rates ≡ ok tt) ↔ ((1 ≤ rates.requests_per_second) × (1 ≤ rates.burst_size))
unfolding check_rates
check_rates_iff rates = ground arith

pub check_retries_iff :
    (http : HttpConfig)
    → (check_retries http ≡ ok tt) ↔ (
        (http.upstream_retry_attempts ≤ 5)
        × (1 ≤ http.upstream_retry_base_delay_ms)
        × (http.upstream_retry_base_delay_ms ≤ 10000))
unfolding check_retries
check_retries_iff http = ground arith

module _ (debug_assertions : Bool) (url_host : Text → Option Text)
    (parse_ip : Text → Option IpAddr) where
  -- A name, a URL of the web that names no internal host, and a model.
  abbrev pub IsUsable : Provider → Type 0
  IsUsable provider =
      (is_empty provider.name ≡ false)
      × (is_empty provider.base_url ≡ false)
      × (is_empty provider.models ≡ false)
      × (starts_with (utf8 "http://") provider.base_url
            || starts_with (utf8 "https://") provider.base_url
          ≡ true)
      × (is_blocked_url debug_assertions url_host parse_ip (url_host provider.base_url) ≡ false)

  -- No name is one of these, or comes twice.
  abbrev pub HasNewNames : List Text → List Provider → Type 0
  HasNewNames names [] = Unit
  HasNewNames names (provider ∷ providers) =
      (contains names provider.name ≡ false) × HasNewNames (provider.name ∷ names) providers

  pub check_providers_iff :
      (names : List Text) (providers : List Provider)
      → (check_providers debug_assertions url_host parse_ip names providers ≡ ok tt)
        ↔ (All IsUsable providers × HasNewNames names providers)
  unfolding check_providers
  check_providers_iff names [] = ground arith
  check_providers_iff names (provider ∷ providers) =
      ground (arith, check_providers_iff (provider.name ∷ names) providers)
