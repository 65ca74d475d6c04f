-- ===== src/Auth.antt =====
-- src/middleware/auth.rs: API keys, failed attempts and bans for each client address. A method
-- takes the instants that it reads from the clock and returns the new state; each holds its locks
-- from its first access to its last, so it is one step.
pub mod Keys
pub mod Bans
pub mod Growth
pub mod Lockout
pub mod Middleware
pub mod Gate
mod Tests
use aperture_router.Prelude.{
  ℕ, ◌+◌, ◌-◌, ◌≡◌, ◌↔◌, Bool, true, false, not, ◌||◌, Option, none, some, List, [], ◌∷◌, ◌++◌,
  if◌then◌else◌, ltb, leb, length, is_empty, keep, unwrap_or,
}
use aperture_router.Maps.{Map, get, insert, remove, retain, map_values}
use aperture_router.Net.{IpAddr, ip_eq, Result, ok, err, too_many_requests}
use aperture_router.Text.{Text}
use aperture_router.Tracking.{evict}

abbrev pub max_tracked_ips : ℕ
max_tracked_ips = 10000

pub record AuthState : Type 0 where
  pub api_keys : List Text
  pub admin_api_keys : List Text
  pub failed_attempts : Map IpAddr (List ℕ)
  pub banned_until : Map IpAddr ℕ
  pub max_attempts : ℕ
  pub ban_duration : ℕ
  pub window_duration : ℕ
  pub trusted_proxies : List IpAddr

unfoldable pub is_enabled : AuthState → Bool
is_enabled auth = not (is_empty auth.api_keys) || not (is_empty auth.admin_api_keys)

unfoldable pub is_admin_enabled : AuthState → Bool
is_admin_enabled auth = not (is_empty auth.admin_api_keys)

abbrev pub before : ℕ → Option ℕ → Bool
before now none = false
before now (some expires_at) = ltb now expires_at

unfoldable pub is_banned : AuthState → ℕ → IpAddr → Bool
is_banned auth now ip = before now (get ip auth.banned_until)

-- `now.duration_since(timestamp) < window_duration`
abbrev pub is_recent : AuthState → ℕ → ℕ → Bool
is_recent auth now timestamp = ltb (now - timestamp) auth.window_duration

-- The attempts of `ip` that count at `now`, after the eviction.
abbrev pub attempt_times : AuthState → ℕ → IpAddr → List ℕ
attempt_times auth now ip =
    keep (is_recent auth now)
      (unwrap_or (get ip (evict max_tracked_ips ip auth.failed_attempts)) [])

-- `now` is the first reading of the clock, `again` the one at which a ban starts.
unfoldable pub record_failure : AuthState → ℕ → ℕ → IpAddr → Result ℕ Unit × AuthState
record_failure auth now again ip =
    let attempts = evict max_tracked_ips ip auth.failed_attempts in
    let times = attempt_times auth now ip in
    let banned = insert ip (again + auth.ban_duration) auth.banned_until in
    if leb auth.max_attempts (length times)
    then (
      err too_many_requests,
      record auth { failed_attempts = insert ip times attempts; banned_until = banned },
    )
    else (
      ok tt,
      record auth {
        failed_attempts = insert ip (times ++ now ∷ []) attempts;
        banned_until =
            if leb auth.max_attempts (length (times ++ now ∷ []))
            then banned
            else auth.banned_until;
      },
    )

unfoldable pub record_success : AuthState → IpAddr → AuthState
record_success auth ip = record auth {
  failed_attempts = remove ip auth.failed_attempts;
  banned_until = remove ip auth.banned_until;
}

-- One round of the background task.
unfoldable pub cleanup : AuthState → ℕ → AuthState
cleanup auth now = record auth {
  failed_attempts =
      retain (λ _ times. not (is_empty times))
        (map_values (keep (is_recent auth now)) auth.failed_attempts);
  banned_until = retain (λ _ expires_at. ltb now expires_at) auth.banned_until;
}

-- `subtle::ConstantTimeEq` on byte slices: it compares them, in constant time.
pub record ConstantTimeEq : Type 0 where
  pub ct_eq : Text → Text → Bool
  pub ct_eq_iff : (a b : Text) → (ct_eq a b ≡ true) ↔ (a ≡ b)

module _ (crypto : ConstantTimeEq) where
  -- One loop of `validate_api_key`; `found |= matches` on 0 and 1 is `||`, and no comparison is
  -- skipped.
  unfoldable pub match_keys : Text → Bool → List Text → Bool
  match_keys key found [] = found
  match_keys key found (valid_key ∷ keys) =
      match_keys key (found || crypto.ct_eq valid_key key) keys

  unfoldable pub validate_api_key : AuthState → Text → Bool
  validate_api_key auth key =
      let found = match_keys key false auth.api_keys in match_keys key found auth.admin_api_keys

  unfoldable pub validate_admin_key : AuthState → Text → Bool
  validate_admin_key auth key = match_keys key false auth.admin_api_keys
