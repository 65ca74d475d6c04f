-- ===== src/RateLimit.antt =====
-- src/middleware/rate_limit.rs: a sliding window of request times for each client address. A method
-- takes the current instant, in nanoseconds, where the source reads the clock, and returns the new
-- limiter beside its result; the write lock makes each call one step.
pub mod Capacity
pub mod Limit
mod Tests
pub mod Window
use aperture_router.Prelude.{
  ℕ, ◌-◌, Bool, not, List, [], ◌∷◌, ◌++◌, if◌then◌else◌, ltb, leb, length, is_empty, keep,
  unwrap_or,
}
use aperture_router.Maps.{Map, get, insert, retain, map_values}
use aperture_router.Net.{IpAddr, ip_eq, Result, ok, err, too_many_requests}
use aperture_router.Tracking.{evict}

abbrev pub max_tracked_ips : ℕ
max_tracked_ips = 10000

pub record RateLimiter : Type 0 where
  pub requests : Map IpAddr (List ℕ)
  pub max_requests : ℕ
  pub window : ℕ

abbrev pub new : ℕ → ℕ → RateLimiter
new max_requests window = record { requests = []; max_requests = max_requests; window = window }

-- `now.duration_since(time) < window`; `duration_since` is zero for a later time.
abbrev pub within : ℕ → ℕ → ℕ → Bool
within window now time = ltb (now - time) window

-- The times of `ip` that the check keeps, after the eviction.
abbrev pub entry : RateLimiter → ℕ → IpAddr → List ℕ
entry l now ip =
    keep (within l.window now) (unwrap_or (get ip (evict max_tracked_ips ip l.requests)) [])

unfoldable pub check_rate_limit : RateLimiter → ℕ → IpAddr → Result ℕ Unit × RateLimiter
check_rate_limit l now ip =
    let requests = evict max_tracked_ips ip l.requests in
    let times = entry l now ip in
    if leb l.max_requests (length times)
    then (err too_many_requests, record l { requests = insert ip times requests })
    else (ok tt, record l { requests = insert ip (times ++ now ∷ []) requests })

-- One round of the background task (and `cleanup_expired` of the tests).
unfoldable pub cleanup : RateLimiter → ℕ → RateLimiter
cleanup l now = record l {
  requests =
      retain (λ _ times. not (is_empty times)) (map_values (keep (within l.window now)) l.requests);
}

-- What the server does with a limiter: requests, and rounds of the background task.
pub data Event : Type 0 where
  request : ℕ → IpAddr → Event
  tick : ℕ → Event

pub step : RateLimiter → Event → RateLimiter
step l (request now ip) = (check_rate_limit l now ip).1
step l (tick now) = cleanup l now

pub run : RateLimiter → List Event → RateLimiter
run l [] = l
run l (e ∷ es) = run (step l e) es
