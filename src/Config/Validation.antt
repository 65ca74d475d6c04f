-- ===== src/Config/Validation.antt =====
-- The whole check of a configuration.
use aperture_router.Prelude.{
  ◌≤◌, ◌≡◌, ◌↔◌, Bool, true, false, not, ◌&&◌, Option, [], All, nat_eq, is_empty, arith,
}
use aperture_router.Net.{IpAddr, Result, ok, ◌>>◌}
use aperture_router.Text.{Text, text_eq}
use aperture_router.Config.{
  Config, SecurityConfig, ConfigError, reject_if, check_aperture, check_security_keys, check_rates,
  check_limits, check_retries, check_providers, validate,
}
use aperture_router.Config.Accepted.{
  IsWithinLimits, HasRealKeys, HasGateway, IsUsable, HasNewNames, then_iff, reject_if_iff,
  check_aperture_iff, check_security_keys_iff, check_rates_iff, check_limits_iff, check_retries_iff,
  check_providers_iff,
}

all_iff :
    (a b c d e f g : Result ConfigError Unit)
    → (a >> b >> c >> d >> e >> f >> g ≡ ok tt) ↔ (
        (a ≡ ok tt)
        × (b ≡ ok tt)
        × (c ≡ ok tt)
        × (d ≡ ok tt)
        × (e ≡ ok tt)
        × (f ≡ ok tt)
        × (g ≡ ok tt))
all_iff a b c d e f g = ground (
  arith,
  then_iff (a >> b >> c >> d >> e >> f) g,
  then_iff (a >> b >> c >> d >> e) f,
  then_iff (a >> b >> c >> d) e,
  then_iff (a >> b >> c) d,
  then_iff (a >> b) c,
  then_iff a b,
)

module _ (debug_assertions : Bool) (url_host : Text → Option Text)
    (parse_ip : Text → Option IpAddr) where
  -- A release build has keys where the settings require them.
  abbrev pub IsGuarded : SecurityConfig → Type 0
  IsGuarded security =
      debug_assertions ≡ false
      → security.require_auth_in_prod ≡ true
      → is_empty security.api_keys ≡ false

  abbrev pub IsAccepted : Config → Type 0
  IsAccepted config =
      HasGateway config
      × HasRealKeys config.security
      × ((1 ≤ config.rate_limit.requests_per_second) × (1 ≤ config.rate_limit.burst_size))
      × IsWithinLimits config.security
      × ((config.http.upstream_retry_attempts ≤ 5)
          × (1 ≤ config.http.upstream_retry_base_delay_ms)
          × (config.http.upstream_retry_base_delay_ms ≤ 10000))
      × IsGuarded config.security
      × (All (IsUsable debug_assertions url_host parse_ip) config.providers
          × HasNewNames debug_assertions url_host parse_ip [] config.providers)

  guarded_iff : (a b d : Bool) → (a && b && not d ≡ false) ↔ (d ≡ false → a ≡ true → b ≡ false)
  guarded_iff true true true = ground arith
  guarded_iff true true false = ground arith
  guarded_iff true false d = ground arith
  guarded_iff false b d = ground arith

  -- A configuration is accepted exactly if it has a port, a gateway and keys that are no
  -- placeholders, client and admin keys of 32 bytes and 20 different characters, a positive
  -- requests_per_second and burst_size, every limit within its range, keys where a release build
  -- requires them, and providers with different names, a model and a web address that is not
  -- internal. Nothing is asked of the health_ rates, nor HTTPS of a gateway with a key.
  pub validate_iff :
      (config : Config)
      → (validate debug_assertions url_host parse_ip config ≡ ok tt) ↔ IsAccepted config
  unfolding validate
  validate_iff config =
      let providers = check_providers debug_assertions url_host parse_ip [] config.providers in
      let required =
        config.security.require_auth_in_prod
        && is_empty config.security.api_keys
        && not debug_assertions in
      let steps =
        all_iff (check_aperture config) (check_security_keys config.security)
          (check_rates config.rate_limit) (check_limits config.security) (check_retries config.http)
          (reject_if required ConfigError.auth_required) providers in
      let r = reject_if_iff required ConfigError.auth_required in
      let g =
        guarded_iff config.security.require_auth_in_prod (is_empty config.security.api_keys)
          debug_assertions in
      let p1 = check_aperture_iff config in
      let p2 = check_security_keys_iff config.security in
      let p3 = check_rates_iff config.rate_limit in
      let p4 = check_limits_iff config.security in
      let p5 = check_retries_iff config.http in
      let p7 = check_providers_iff debug_assertions url_host parse_ip [] config.providers in
      (
        λ h.
            let (a, b, c, d, e, f, i) = steps.0 h in
            (p1.0 a, p2.0 b, p3.0 c, p4.0 d, p5.0 e, g.0 (r.0 f), p7.0 i),
        λ h.
            let (a, b, c, d, e, f, i) = h in
            steps.1 (p1.1 a, p2.1 b, p3.1 c, p4.1 d, p5.1 e, r.1 (g.1 f), p7.1 i),
      )
