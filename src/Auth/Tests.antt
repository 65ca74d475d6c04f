-- ===== src/Auth/Tests.antt =====
-- The authentication on concrete requests.
use aperture_router.Prelude.{
  ◌+◌, length, ◌≡◌, ◌↔◌, ◌⊎◌, refl, true, Option, none, some, List, [], ◌∷◌, arith, if◌then◌else◌,
  ◌==◌, inr,
}
use aperture_router.Maps.{get, contains_key, insert, remove}
use aperture_router.Net.{IpAddr, v4, ip_eq, ok, err}
use aperture_router.Text.{Text, utf8, same_text, same_text_iff, strip_prefix, text_eq}
use aperture_router.Tracking.{evict}
use aperture_router.RateLimit
use aperture_router.RateLimit.{check_rate_limit}
use aperture_router.Auth.{
  AuthState, ConstantTimeEq, is_enabled, is_admin_enabled, is_banned, record_failure,
  record_success, cleanup, match_keys, validate_api_key, validate_admin_key,
}
use aperture_router.Auth.Keys.{IsOneOf, validate_api_key_iff, validate_admin_key_iff}
use aperture_router.Auth.Growth.{fail_each, length-fail_each}
use aperture_router.Auth.Bans.{
  Event, failure, success, tick, run, IsBounded, run-IsBounded, record_success_lem,
  is_banned-cleanup, is_banned-record_failure_ne,
}
use aperture_router.Auth.Lockout.{fail_all, is_banned-fail_all}
use aperture_router.Auth.Middleware.{
  Request, Clock, Gate, extract_client_ip, presented_key, is_oversized, authenticate,
  auth_middleware, admin_auth_middleware,
}
use aperture_router.Auth.Gate.{
  PassesAuth, PassesAdmin, auth_middleware_iff, admin_auth_middleware_iff,
}

abbrev crypto : ConstantTimeEq
crypto = record { ct_eq = same_text; ct_eq_iff = same_text_iff }

abbrev parse_ip : Text → Option IpAddr
parse_ip s = if s == utf8 "10.0.0.9" then some (v4 167772169) else none

abbrev state : AuthState
state = record {
  api_keys = utf8 "api" ∷ [];
  admin_api_keys = utf8 "root" ∷ [];
  failed_attempts = [];
  banned_until = [];
  max_attempts = 2;
  ban_duration = 300;
  window_duration = 60;
  trusted_proxies = v4 1 ∷ [];
}

abbrev gate : Gate
gate = record { auth = state; limiter = RateLimit.new 5 60 }

abbrev clock : Clock
clock = record { limit_at = 10; ban_at = 11; fail_at = 12; until_at = 13 }

abbrev bearer : Text → Option Text
bearer name = if name == utf8 "Authorization" then some (utf8 "Bearer api") else none

abbrev direct : Request
direct = record { connect_info = some (v4 7); header = bearer }

passes : Unit {0}
unfolding auth_middleware admin_auth_middleware extract_client_ip presented_key is_oversized
    authenticate check_rate_limit is_enabled is_admin_enabled is_banned record_failure
    record_success validate_api_key validate_admin_key match_keys same_text strip_prefix evict get
    insert contains_key remove
passes = tt

direct_passes : (auth_middleware parse_ip crypto 100 gate clock direct).0 ≡ ok tt
unfolding passes
direct_passes = refl

direct_is_no_admin : (admin_auth_middleware parse_ip crypto gate clock direct).0 ≡ err 401
unfolding passes
direct_is_no_admin = refl

validate_api_key_iff_example :
    (validate_api_key crypto state (utf8 "root") ≡ true)
    ↔ (IsOneOf (utf8 "root") (utf8 "api" ∷ []) ⊎ IsOneOf (utf8 "root") (utf8 "root" ∷ []))
validate_api_key_iff_example = validate_api_key_iff crypto state (utf8 "root")

validate_admin_key_iff_example :
    (validate_admin_key crypto state (utf8 "api") ≡ true) ↔ IsOneOf (utf8 "api") (utf8 "root" ∷ [])
validate_admin_key_iff_example = validate_admin_key_iff crypto state (utf8 "api")

auth_middleware_iff_example :
    ((auth_middleware parse_ip crypto 100 gate clock direct).0 ≡ ok tt)
    ↔ PassesAuth parse_ip crypto 100 gate clock direct
auth_middleware_iff_example = auth_middleware_iff parse_ip crypto 100 gate clock direct

admin_auth_middleware_iff_example :
    ((admin_auth_middleware parse_ip crypto gate clock direct).0 ≡ ok tt)
    ↔ PassesAdmin parse_ip crypto gate clock direct
admin_auth_middleware_iff_example = admin_auth_middleware_iff parse_ip crypto gate clock direct

is_banned-fail_all_example :
    is_banned (fail_all state (v4 7) ((10, 11) ∷ (20, 21) ∷ [])) 320 (v4 7) ≡ true
unfolding get
is_banned-fail_all_example =
    is_banned-fail_all 10 state (v4 7) ((10, 11) ∷ (20, 21) ∷ []) 320 (omega arith) refl
      (inr (omega arith)) (omega arith)

record_success_lem_example :
    (is_banned (record_success state (v4 7)) 5 (v4 8) ≡ is_banned state 5 (v4 8))
    × (get (v4 8) (record_success state (v4 7)).failed_attempts ≡ none)
unfolding get
record_success_lem_example = record_success_lem state (v4 7) (v4 8) 5

abbrev banned : AuthState
banned = record state { banned_until = (v4 7, 400) ∷ [] }

is_banned-cleanup_example : is_banned (cleanup banned 20) 30 (v4 7) ≡ is_banned banned 30 (v4 7)
unfolding contains_key
is_banned-cleanup_example = is_banned-cleanup banned 20 30 (v4 7) (refl, tt) (omega arith)

abbrev attack : List Event
attack = failure 1 2 (v4 7) ∷ failure 3 4 (v4 7) ∷ tick 5 ∷ success (v4 7) ∷ failure 6 7 (v4 8) ∷ []

run-IsBounded_example : IsBounded (run state attack)
run-IsBounded_example = run-IsBounded state attack (record {
  allows = omega arith;
  capped = record { tracked = tt; fits = omega arith };
  unique = tt;
})

is_banned-record_failure_ne_example :
    is_banned (record_failure state 1 2 (v4 7)).1 3 (v4 8) ≡ is_banned state 3 (v4 8)
is_banned-record_failure_ne_example =
    is_banned-record_failure_ne state 1 2 3 (v4 7) (v4 8) (λ e. ground (arith, e))

-- Three addresses that fail once where one failure bans.
length-fail_each_example :
    length (fail_each (record state { max_attempts = 1 }) 5 (v4 7 ∷ v4 8 ∷ v4 9 ∷ [])).banned_until
    ≡ 0 + 3
unfolding get
length-fail_each_example =
    length-fail_each (record state { max_attempts = 1 }) 5 (v4 7 ∷ v4 8 ∷ v4 9 ∷ []) (omega arith)
      (refl, refl, (refl, refl, (refl, refl, tt)))
