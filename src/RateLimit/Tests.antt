-- ===== src/RateLimit/Tests.antt =====
-- The limiter on concrete runs.
use aperture_router.Prelude.{inr, ◌≤◌, ◌≡◌, refl, true, false, List, [], ◌∷◌, arith, length, keep}
use aperture_router.Net.{v4, ip_eq}
use aperture_router.Maps.{get, contains_key, insert, retain, map_values}
use aperture_router.Tracking.{evict}
use aperture_router.RateLimit.{new, Event, request, tick, check_rate_limit, cleanup, step, run}
use aperture_router.RateLimit.Capacity.{IsBounded, run-new-IsBounded}
use aperture_router.RateLimit.Window.{NeverEvicts, decisions, reference, no_history, decisions-new}
use aperture_router.RateLimit.Limit.{accepted, in_window, accepted-new-le}

abbrev burst : List Event
burst =
    request 1 (v4 7)
    ∷ request 2 (v4 7)
    ∷ request 3 (v4 7)
    ∷ request 4 (v4 8)
    ∷ tick 50
    ∷ request 101 (v4 7)
    ∷ request 102 (v4 7)
    ∷ []

burst-decisions : decisions (new 2 100) burst ≡ true ∷ true ∷ false ∷ true ∷ true ∷ true ∷ []
unfolding decisions step check_rate_limit cleanup get insert evict contains_key retain map_values
burst-decisions = refl

burst-NeverEvicts : NeverEvicts (new 2 100) burst
unfolding step check_rate_limit cleanup get insert evict contains_key retain map_values
burst-NeverEvicts = (
  inr (omega arith),
  (
    inr (omega arith),
    (inr (omega arith), (inr (omega arith), (inr (omega arith), (inr (omega arith), tt)))),
  ),
)

run-new-IsBounded_example : IsBounded (run (new 2 100) burst)
run-new-IsBounded_example = run-new-IsBounded 2 100 burst (omega arith)

decisions-new_example : decisions (new 2 100) burst ≡ reference 2 100 no_history burst
decisions-new_example = decisions-new 2 100 burst (omega arith) burst-NeverEvicts

accepted-new-le_example : length (keep (in_window 100 102) (accepted (v4 7) (new 2 100) burst)) ≤ 2
accepted-new-le_example = accepted-new-le 2 100 burst (v4 7) 102 (omega arith) burst-NeverEvicts
