-- ===== src/Auth/Middleware.antt =====
-- The two middleware functions of src/middleware/auth.rs. The state is that of `AuthState` and of
-- the `RateLimiter` which they share; a request runs through without another between its steps.
use aperture_router.Prelude.{
  ℕ, Bool, false, not, Option, none, some, List, if◌then◌else◌, ltb, contains, and_then, unwrap_or,
}
use aperture_router.Net.{
  IpAddr, ip_eq, Result, ok, err, unauthorized, payload_too_large, too_many_requests,
  internal_server_error,
}
use aperture_router.Text.{Text, utf8, strip_prefix, split_first, trim, parse_u64}
use aperture_router.RateLimit.{RateLimiter, check_rate_limit}
use aperture_router.Auth.{
  AuthState, ConstantTimeEq, is_enabled, is_admin_enabled, is_banned, record_failure,
  record_success, validate_api_key, validate_admin_key,
}

-- `header name` is `headers().get(name).and_then(|h| h.to_str().ok())`.
pub record Request : Type 0 where
  pub connect_info : Option IpAddr
  pub header : Text → Option Text

-- The instants that one request reads from the clock, in the order of the code.
pub record Clock : Type 0 where
  pub limit_at : ℕ
  pub ban_at : ℕ
  pub fail_at : ℕ
  pub until_at : ℕ

pub record Gate : Type 0 where
  pub auth : AuthState
  pub limiter : RateLimiter

or_else : {A : Type 0} → Option A → Option A → Option A
or_else none b = b
or_else (some a) b = some a

-- What the server needs of the standard library's `str::parse::<IpAddr>`, which stays a parameter.
module _ (parse_ip : Text → Option IpAddr) where
  abbrev pub forwarded_ip : Option Text → Option IpAddr
  forwarded_ip none = none
  forwarded_ip (some forwarded) = parse_ip (trim (split_first b',' forwarded))

  unfoldable pub extract_client_ip : Request → List IpAddr → Result ℕ IpAddr
  extract_client_ip req trusted_proxies = elim req.connect_info [
    | none ↦ err internal_server_error
    | some peer_ip ↦
        if contains trusted_proxies peer_ip
        then ok (unwrap_or (forwarded_ip (req.header (utf8 "x-forwarded-for"))) peer_ip)
        else ok peer_ip
  ]

-- The key of `Authorization: Bearer …`, or else of `x-api-key`.
unfoldable pub presented_key : Request → Option Text
unfolding or_else
presented_key req =
    or_else (and_then (req.header (utf8 "Authorization")) (strip_prefix (utf8 "Bearer ")))
      (req.header (utf8 "x-api-key"))

-- A declared length above the limit.
unfoldable pub is_oversized : Request → ℕ → Bool
is_oversized req max_body_size_bytes =
    elim (and_then (req.header (utf8 "content-length")) parse_u64) [
      | none ↦ false
      | some len ↦ ltb max_body_size_bytes len
    ]

unfoldable pub is_valid : (Text → Bool) → Option Text → Bool
is_valid validate none = false
is_valid validate (some key) = validate key

abbrev pub refuse : Result ℕ Unit × AuthState → RateLimiter → Result ℕ Unit × Gate
refuse (err e, auth) limiter = (err e, record { auth = auth; limiter = limiter })
refuse (ok u, auth) limiter = (err unauthorized, record { auth = auth; limiter = limiter })

-- The end that both functions share: the ban, the key, and what is recorded. `ok tt` stands for
-- `next.run(request)`.
unfoldable pub authenticate :
    (Text → Bool) → AuthState → RateLimiter → Clock → IpAddr → Request → Result ℕ Unit × Gate
unfolding is_valid
authenticate validate auth limiter clock ip req =
    if is_banned auth clock.ban_at ip
    then (err too_many_requests, record { auth = auth; limiter = limiter })
    else if is_valid validate (presented_key req)
    then (ok tt, record { auth = record_success auth ip; limiter = limiter })
    else refuse (record_failure auth clock.fail_at clock.until_at ip) limiter

-- `check_rate_limit(client_ip).await?`, and what follows it.
abbrev pub throttle :
    Result ℕ Unit × RateLimiter
    → AuthState
    → (RateLimiter → Result ℕ Unit × Gate)
    → Result ℕ Unit × Gate
throttle (err e, limiter) auth k = (err e, record { auth = auth; limiter = limiter })
throttle (ok u, limiter) auth k = k limiter

-- `Err(status) => return Err(status)` on the address.
abbrev pub with_ip : Result ℕ IpAddr → Gate → (IpAddr → Result ℕ Unit × Gate) → Result ℕ Unit × Gate
with_ip (err status) gate k = (err status, gate)
with_ip (ok client_ip) gate k = k client_ip

module _ (parse_ip : Text → Option IpAddr) (crypto : ConstantTimeEq) where
  -- The part of `auth_middleware` behind the rate limit.
  abbrev pub after_limit : Gate → Clock → Request → IpAddr → RateLimiter → Result ℕ Unit × Gate
  after_limit gate clock req client_ip limiter =
      if not (is_enabled gate.auth)
      then (ok tt, record { auth = gate.auth; limiter = limiter })
      else authenticate (validate_api_key crypto gate.auth) gate.auth limiter clock client_ip req

  -- The part of `auth_middleware` behind `extract_client_ip`.
  abbrev pub after_ip : ℕ → Gate → Clock → Request → IpAddr → Result ℕ Unit × Gate
  after_ip max_body_size_bytes gate clock req client_ip =
      if is_oversized req max_body_size_bytes
      then (err payload_too_large, gate)
      else throttle (check_rate_limit gate.limiter clock.limit_at client_ip) gate.auth
          (after_limit gate clock req client_ip)

  unfoldable pub auth_middleware : ℕ → Gate → Clock → Request → Result ℕ Unit × Gate
  auth_middleware max_body_size_bytes gate clock req =
      with_ip (extract_client_ip parse_ip req gate.auth.trusted_proxies) gate
        (after_ip max_body_size_bytes gate clock req)

  unfoldable pub admin_auth_middleware : Gate → Clock → Request → Result ℕ Unit × Gate
  admin_auth_middleware gate clock req =
      if not (is_admin_enabled gate.auth)
      then (err unauthorized, gate)
      else with_ip (extract_client_ip parse_ip req gate.auth.trusted_proxies) gate (λ client_ip.
        throttle (check_rate_limit gate.limiter clock.limit_at client_ip) gate.auth (λ limiter.
          authenticate (validate_admin_key crypto gate.auth) gate.auth limiter clock client_ip req))
