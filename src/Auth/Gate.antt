-- ===== src/Auth/Gate.antt =====
-- Which requests the middleware lets through.
use aperture_router.Prelude.{
  ℕ, ◌≡◌, ◌≢◌, ◌↔◌, refl, ◌⊎◌, inl, inr, Bool, true, false, Option, none, some, arith, Bool-cases,
}
use aperture_router.Net.{IpAddr, ip_eq, Result, ok, err, is_ok}
use aperture_router.Text.{Text}
use aperture_router.RateLimit.{RateLimiter, check_rate_limit}
use aperture_router.Auth.{
  validate_admin_key, is_admin_enabled, validate_api_key, AuthState, ConstantTimeEq, is_enabled,
  is_banned, record_failure,
}
use aperture_router.Auth.Keys.{validate_admin_key_iff, validate_api_key_iff, IsOneOf}
use aperture_router.Auth.Middleware.{
  after_limit, after_ip, throttle, admin_auth_middleware, with_ip, auth_middleware, Request, Clock,
  Gate, extract_client_ip, presented_key, is_oversized, is_valid, authenticate, refuse,
}

-- The request shows a key with the property, and its address is not banned.
pub record Shows (P : Text → Type 0) (auth : AuthState) (clock : Clock) (ip : IpAddr)
    (req : Request) : Type 0 where
  pub free : is_banned auth clock.ban_at ip ≡ false
  pub key : Text
  pub presented : presented_key req ≡ some key
  pub valid : P key

module _ (validate : Text → Bool) (P : Text → Type 0)
    (spec : (key : Text) → (validate key ≡ true) ↔ P key) where
  is_valid_iff :
      (o : Option Text) → (is_valid validate o ≡ true) ↔ ((key : Text) × (o ≡ some key) × P key)
  unfolding is_valid
  is_valid_iff none = (λ e. absurd (cc), λ (key, e, p). absurd (cc))
  is_valid_iff (some k) = (
    λ e. (k, refl, (spec k).0 e),
    λ (key, e, p). let same : k ≡ key = cc in rw same ((spec key).1 p),
  )

  refuse-ne-ok :
      (r : Result ℕ Unit × AuthState) (limiter : RateLimiter) → (refuse r limiter).0 ≢ ok tt
  refuse-ne-ok (ok u, auth) limiter e = cc
  refuse-ne-ok (err c, auth) limiter e = cc

  module _ (auth : AuthState) (limiter : RateLimiter) (clock : Clock) (ip : IpAddr)
      (req : Request) where
    authenticate_sound :
        (authenticate validate auth limiter clock ip req).0 ≡ ok tt → Shows P auth clock ip req
    unfolding authenticate
    authenticate_sound e = elim (Bool-cases (is_banned auth clock.ban_at ip)) [
      | inl banned ↦ absurd (ground arith)
      | inr free ↦ elim (Bool-cases (is_valid validate (presented_key req))) [
        | inl good ↦
            let (key, presented, valid) = (is_valid_iff (presented_key req)).0 good in
            record { free = free; key = key; presented = presented; valid = valid }
        | inr bad ↦ absurd (
            refuse-ne-ok (record_failure auth clock.fail_at clock.until_at ip) limiter
              (ground arith))
      ]
    ]

    authenticate_complete :
        Shows P auth clock ip req → (authenticate validate auth limiter clock ip req).0 ≡ ok tt
    unfolding authenticate
    authenticate_complete s =
        rw (s.free, (is_valid_iff (presented_key req)).1 (s.key, s.presented, s.valid))

with_ip-ok :
    (r : Result ℕ IpAddr) (gate : Gate) (k : IpAddr → Result ℕ Unit × Gate)
    → (with_ip r gate k).0 ≡ ok tt
    → (ip : IpAddr) × (r ≡ ok ip) × ((k ip).0 ≡ ok tt)
with_ip-ok (ok ip) gate k e = (ip, refl, e)
with_ip-ok (err c) gate k e = absurd (cc)

throttle-ok :
    (r : Result ℕ Unit × RateLimiter) (auth : AuthState) (k : RateLimiter → Result ℕ Unit × Gate)
    → (throttle r auth k).0 ≡ ok tt
    → (is_ok r.0 ≡ true) × ((k r.1).0 ≡ ok tt)
throttle-ok (ok u, limiter) auth k e = (refl, e)
throttle-ok (err c, limiter) auth k e = absurd (cc)

throttle_of_ok :
    (r : Result ℕ Unit × RateLimiter) (auth : AuthState) (k : RateLimiter → Result ℕ Unit × Gate)
    → is_ok r.0 ≡ true
    → (k r.1).0 ≡ ok tt
    → (throttle r auth k).0 ≡ ok tt
throttle_of_ok (ok u, limiter) auth k p e = e
throttle_of_ok (err c, limiter) auth k p e = absurd (cc)

module _ (parse_ip : Text → Option IpAddr) (crypto : ConstantTimeEq) where
  -- What a request needs to reach the handlers of the API.
  pub record PassesAuth (max_body_size_bytes : ℕ) (gate : Gate) (clock : Clock) (req : Request)
      : Type 0 where
    pub client_ip : IpAddr
    pub located : extract_client_ip parse_ip req gate.auth.trusted_proxies ≡ ok client_ip
    pub small : is_oversized req max_body_size_bytes ≡ false
    pub slow : is_ok (check_rate_limit gate.limiter clock.limit_at client_ip).0 ≡ true
    pub entitled :
        (is_enabled gate.auth ≡ false)
        ⊎ Shows
            (λ key. IsOneOf key gate.auth.api_keys ⊎ IsOneOf key gate.auth.admin_api_keys)
            gate.auth
            clock
            client_ip
            req

  -- What a request needs to reach the handlers of the administration.
  pub record PassesAdmin (gate : Gate) (clock : Clock) (req : Request) : Type 0 where
    pub client_ip : IpAddr
    pub located : extract_client_ip parse_ip req gate.auth.trusted_proxies ≡ ok client_ip
    pub slow : is_ok (check_rate_limit gate.limiter clock.limit_at client_ip).0 ≡ true
    pub entitled : Shows (λ key. IsOneOf key gate.auth.admin_api_keys) gate.auth clock client_ip req

  module _ (max_body_size_bytes : ℕ) (gate : Gate) (clock : Clock) (req : Request) where
    auth_middleware_sound :
        (auth_middleware parse_ip crypto max_body_size_bytes gate clock req).0 ≡ ok tt
        → PassesAuth max_body_size_bytes gate clock req
    unfolding auth_middleware
    auth_middleware_sound e =
        let (ip, located, e₁) =
          with_ip-ok _ gate (after_ip parse_ip crypto max_body_size_bytes gate clock req) e in
        elim (Bool-cases (is_oversized req max_body_size_bytes)) [
          | inl large ↦ absurd (cc (rw large at e₁))
          | inr small ↦
              let (slow, e₂) =
                throttle-ok (check_rate_limit gate.limiter clock.limit_at ip) gate.auth
                  (after_limit parse_ip crypto gate clock req ip) (rw small at e₁) in
              record {
                client_ip = ip;
                located = located;
                small = small;
                slow = slow;
                entitled = elim (Bool-cases (is_enabled gate.auth)) [
                  | inr off ↦ inl off
                  | inl on ↦ inr (
                      authenticate_sound (validate_api_key crypto gate.auth) _
                        (validate_api_key_iff crypto gate.auth) gate.auth
                        (check_rate_limit gate.limiter clock.limit_at ip).1 clock ip req
                        (rw on at e₂))
                ];
              }
        ]

    auth_middleware_complete :
        PassesAuth max_body_size_bytes gate clock req
        → (auth_middleware parse_ip crypto max_body_size_bytes gate clock req).0 ≡ ok tt
    unfolding auth_middleware
    auth_middleware_complete p =
        rw (p.located, p.small)
          (throttle_of_ok _ gate.auth _ p.slow (elim p.entitled [
            | inl off ↦ rw off
            | inr shows ↦ elim (Bool-cases (is_enabled gate.auth)) [
              | inr off ↦ rw off
              | inl on ↦ rw on (
                  authenticate_complete (validate_api_key crypto gate.auth) _
                    (validate_api_key_iff crypto gate.auth) gate.auth
                    (check_rate_limit gate.limiter clock.limit_at p.client_ip).1 clock p.client_ip
                    req shows)
            ]
          ]))

    -- A request reaches the handlers of the API exactly if its address is known, its declared
    -- length is within the limit, its address has not used up its requests, and either no key is
    -- configured at all, or its address is not banned and it presents an API key or an admin key.
    pub auth_middleware_iff :
        ((auth_middleware parse_ip crypto max_body_size_bytes gate clock req).0 ≡ ok tt)
        ↔ PassesAuth max_body_size_bytes gate clock req
    auth_middleware_iff = (auth_middleware_sound, auth_middleware_complete)

  IsOneOf-is_empty :
      (key : Text) (auth : AuthState)
      → IsOneOf key auth.admin_api_keys
      → is_admin_enabled auth ≡ true
  unfolding is_admin_enabled
  IsOneOf-is_empty key auth m = ground arith

  module _ (gate : Gate) (clock : Clock) (req : Request) where
    admin_auth_middleware_sound :
        (admin_auth_middleware parse_ip crypto gate clock req).0 ≡ ok tt
        → PassesAdmin gate clock req
    unfolding admin_auth_middleware
    admin_auth_middleware_sound e = elim (Bool-cases (is_admin_enabled gate.auth)) [
      | inr off ↦ absurd (cc (rw off at e))
      | inl on ↦
          let (ip, located, e₁) = with_ip-ok _ gate _ (rw on at e) in
          let (slow, e₂) = throttle-ok _ gate.auth _ e₁ in
          record {
            client_ip = ip;
            located = located;
            slow = slow;
            entitled =
                authenticate_sound (validate_admin_key crypto gate.auth) _
                  (validate_admin_key_iff crypto gate.auth) gate.auth
                  (check_rate_limit gate.limiter clock.limit_at ip).1 clock ip req e₂;
          }
    ]

    admin_auth_middleware_complete :
        PassesAdmin gate clock req
        → (admin_auth_middleware parse_ip crypto gate clock req).0 ≡ ok tt
    unfolding admin_auth_middleware
    admin_auth_middleware_complete p =
        rw (IsOneOf-is_empty p.entitled.key gate.auth p.entitled.valid, p.located)
          (throttle_of_ok _ gate.auth _ p.slow (
            authenticate_complete (validate_admin_key crypto gate.auth) _
              (validate_admin_key_iff crypto gate.auth) gate.auth
              (check_rate_limit gate.limiter clock.limit_at p.client_ip).1 clock p.client_ip req
              p.entitled))

    -- A request reaches the handlers of the administration exactly if its address is known, has not
    -- used up its requests and is not banned, and it presents an admin key. An API key that is not
    -- also an admin key never does, and without admin keys no request does.
    pub admin_auth_middleware_iff :
        ((admin_auth_middleware parse_ip crypto gate clock req).0 ≡ ok tt)
        ↔ PassesAdmin gate clock req
    admin_auth_middleware_iff = (admin_auth_middleware_sound, admin_auth_middleware_complete)
