-- ===== src/RateLimit/Capacity.antt =====
-- The cap on tracked addresses.
use aperture_router.Prelude.{
  ℕ, ◌≤◌, ◌<◌, ◌≢◌, Bool, not, List, [], ◌∷◌, ◌++◌, arith, tests, leb, leb→le, length, is_empty,
  All, keep, length-keep-le, Bool-cases, inl, inr,
}
use aperture_router.Maps.{Map, retain, map_values}
use aperture_router.Net.{IpAddr, ip_eq}
use aperture_router.Tracking.{IsTracked, IsCapped, insert-evict-IsCapped}
use aperture_router.RateLimit.{
  max_tracked_ips, RateLimiter, new, within, entry, check_rate_limit, cleanup, Event, request, tick,
  step, run,
}

pub record IsBounded (l : RateLimiter) : Type 0 where
  pub allows : 0 < l.max_requests
  pub capped : IsCapped max_tracked_ips l.requests

pub length-ne-nil : (xs : List ℕ) → 0 < length xs → xs ≢ []
length-ne-nil xs h = ground arith

pub append-ne-nil : (xs : List ℕ) (x : ℕ) → xs ++ x ∷ [] ≢ []
append-ne-nil [] x = ground arith
append-ne-nil (y ∷ xs) x = ground arith

check_rate_limit-IsBounded :
    (l : RateLimiter) (now : ℕ) (ip : IpAddr)
    → IsBounded l
    → IsBounded (check_rate_limit l now ip).1
unfolding check_rate_limit
check_rate_limit-IsBounded l now ip b =
    let times = entry l now ip in
    elim (Bool-cases (leb l.max_requests (length times))) [
      | inl full ↦ rw full (record {
        allows = b.allows;
        capped =
            insert-evict-IsCapped max_tracked_ips ip times l.requests (omega arith)
              (length-ne-nil times (omega (tests, b.allows, leb→le _ _ full))) b.capped;
      })
      | inr room ↦ rw room (record {
        allows = b.allows;
        capped =
            insert-evict-IsCapped max_tracked_ips ip (times ++ now ∷ []) l.requests (omega arith)
              (append-ne-nil times now) b.capped;
      })
    ]

pub clean-IsTracked :
    (p : ℕ → Bool) (m : Map IpAddr (List ℕ))
    → All IsTracked (retain (λ _ times. not (is_empty times)) (map_values (keep p) m))
unfolding retain map_values
clean-IsTracked p [] = tt
clean-IsTracked p ((k, times) ∷ m) = ground (arith, clean-IsTracked p m)

pub length-map_values-le :
    (f : List ℕ → List ℕ) (m : Map IpAddr (List ℕ)) → length (map_values f m) ≤ length m
unfolding map_values
length-map_values-le f [] = omega arith
length-map_values-le f (b ∷ m) = omega (arith, length-map_values-le f m)

cleanup-IsBounded : (l : RateLimiter) (now : ℕ) → IsBounded l → IsBounded (cleanup l now)
unfolding cleanup retain
cleanup-IsBounded l now b = record {
  allows = b.allows;
  capped = record {
    tracked = unfold retain in clean-IsTracked (within l.window now) l.requests;
    fits = omega (
      arith,
      b.capped.fits,
      length-map_values-le (keep (within l.window now)) l.requests,
      length-keep-le (λ c. not (is_empty c.1)) (map_values (keep (within l.window now)) l.requests),
    );
  };
}

step-IsBounded : (l : RateLimiter) (e : Event) → IsBounded l → IsBounded (step l e)
unfolding step
step-IsBounded l (request now ip) b = check_rate_limit-IsBounded l now ip b
step-IsBounded l (tick now) b = cleanup-IsBounded l now b

IsBounded-run : (l : RateLimiter) (es : List Event) → IsBounded l → IsBounded (run l es)
unfolding run
IsBounded-run l [] b = b
IsBounded-run l (e ∷ es) b = IsBounded-run (step l e) es (step-IsBounded l e b)

-- However many addresses send requests, and whenever the background task runs, a limiter that
-- allows at least one request tracks at most 10000 of them, each with at least one time.
pub run-new-IsBounded :
    (max_requests window : ℕ) (es : List Event)
    → 0 < max_requests
    → IsBounded (run (new max_requests window) es)
run-new-IsBounded max_requests window es h =
    IsBounded-run (new max_requests window) es
      (record { allows = h; capped = record { tracked = tt; fits = omega arith } })
