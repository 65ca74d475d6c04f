-- ===== src/Auth/Bans.antt =====
-- What the methods do to the bans and to the attempts that are tracked.
use aperture_router.Prelude.{
  ℕ, ◌+◌, ◌≤◌, ◌<◌, ◌≡◌, ◌≢◌, refl, false, not, Option, none, some, List, [], ◌∷◌, ◌++◌, arith,
  if◌then◌else◌, ltb, leb, ◌==◌, ==_iff, length, is_empty, All-keep, keep, length-keep-le, and_then,
  Bool-cases, inl, inr, leb→le,
}
use aperture_router.Maps.{
  get, remove, retain, map_values, Unique, get-remove, get-retain, get-insert, insert-Unique,
  remove-Unique, retain-Unique,
}
use aperture_router.Net.{IpAddr, ip_eq}
use aperture_router.Tracking.{IsTracked, IsCapped, insert-evict-IsCapped}
use aperture_router.RateLimit.Capacity.{
  length-ne-nil, append-ne-nil, clean-IsTracked, length-map_values-le,
}
use aperture_router.Auth.{
  max_tracked_ips, AuthState, is_banned, is_recent, attempt_times, record_failure, record_success,
  cleanup, before,
}

-- After a success the address is not banned and has no attempts, and the bans and the attempts of
-- every other address are what they were.
pub record_success_lem :
    (auth : AuthState) (ip j : IpAddr) (t : ℕ)
    → (is_banned (record_success auth ip) t j ≡ (if ip == j then false else is_banned auth t j))
      × (get j (record_success auth ip).failed_attempts
          ≡ (if ip == j then none else get j auth.failed_attempts))
unfolding is_banned record_success
record_success_lem auth ip j t =
    (ground (arith, get-remove ip j auth.banned_until), get-remove ip j auth.failed_attempts)

-- A failure of one address does not change whether another is banned.
pub is_banned-record_failure_ne :
    (auth : AuthState) (now again t : ℕ) (ip j : IpAddr)
    → ip ≢ j
    → is_banned (record_failure auth now again ip).1 t j ≡ is_banned auth t j
unfolding is_banned record_failure
is_banned-record_failure_ne auth now again t ip j h =
    ground (arith, get-insert ip j (again + auth.ban_duration) auth.banned_until, ==_iff ip j)

before-and_then :
    (now t : ℕ) (o : Option ℕ)
    → now ≤ t
    → before t (and_then o (λ v. if ltb now v then some v else none)) ≡ before t o
before-and_then now t none h = refl
before-and_then now t (some v) h = ground arith

-- The background task lifts no ban that still runs.
pub is_banned-cleanup :
    (auth : AuthState) (now t : ℕ) (ip : IpAddr)
    → Unique auth.banned_until
    → now ≤ t
    → is_banned (cleanup auth now) t ip ≡ is_banned auth t ip
unfolding is_banned cleanup
is_banned-cleanup auth now t ip u h =
    rw (get-retain (λ _ expires_at. ltb now expires_at) ip auth.banned_until u)
      (before-and_then now t (get ip auth.banned_until) h)

pub record IsBounded (auth : AuthState) : Type 0 where
  pub allows : 0 < auth.max_attempts
  pub capped : IsCapped max_tracked_ips auth.failed_attempts
  pub unique : Unique auth.banned_until

record_failure-IsBounded :
    (auth : AuthState) (now again : ℕ) (ip : IpAddr)
    → IsBounded auth
    → IsBounded (record_failure auth now again ip).1
unfolding record_failure
record_failure-IsBounded auth now again ip b =
    let times = attempt_times auth now ip in
    let unique = insert-Unique ip (again + auth.ban_duration) auth.banned_until b.unique in
    elim (Bool-cases (leb auth.max_attempts (length times))) [
      | inl full ↦ rw full (record {
        allows = b.allows;
        capped =
            insert-evict-IsCapped max_tracked_ips ip times auth.failed_attempts (omega arith)
              (length-ne-nil times (omega (arith, b.allows, leb→le _ _ full))) b.capped;
        unique = unique;
      })
      | inr free ↦ rw free (record {
        allows = b.allows;
        capped =
            insert-evict-IsCapped max_tracked_ips ip (times ++ now ∷ []) auth.failed_attempts
              (omega arith) (append-ne-nil times now) b.capped;
        unique = elim (Bool-cases (leb auth.max_attempts (length (times ++ now ∷ [])))) [
          | inl reached ↦ rw reached unique
          | inr below ↦ rw below b.unique
        ];
      })
    ]

record_success-IsBounded :
    (auth : AuthState) (ip : IpAddr) → IsBounded auth → IsBounded (record_success auth ip)
unfolding record_success
record_success-IsBounded auth ip b = record {
  allows = b.allows;
  capped = record {
    tracked =
        unfold remove in
        All-keep IsTracked (λ e. not (e.0 == ip)) auth.failed_attempts b.capped.tracked;
    fits =
        unfold remove in
        omega (arith, b.capped.fits, length-keep-le (λ e. not (e.0 == ip)) auth.failed_attempts);
  };
  unique = remove-Unique ip auth.banned_until b.unique;
}

cleanup-IsBounded : (auth : AuthState) (now : ℕ) → IsBounded auth → IsBounded (cleanup auth now)
unfolding cleanup
cleanup-IsBounded auth now b = record {
  allows = b.allows;
  capped = record {
    tracked = clean-IsTracked (is_recent auth now) auth.failed_attempts;
    fits =
        unfold retain in
        omega (
          arith,
          b.capped.fits,
          length-map_values-le (keep (is_recent auth now)) auth.failed_attempts,
          length-keep-le (λ c. not (is_empty c.1))
              (map_values (keep (is_recent auth now)) auth.failed_attempts),
        );
  };
  unique = retain-Unique _ auth.banned_until b.unique;
}

pub data Event : Type 0 where
  failure : ℕ → ℕ → IpAddr → Event
  success : IpAddr → Event
  tick : ℕ → Event

unfoldable pub step : AuthState → Event → AuthState
step auth (failure now again ip) = (record_failure auth now again ip).1
step auth (success ip) = record_success auth ip
step auth (tick now) = cleanup auth now

unfoldable pub run : AuthState → List Event → AuthState
run auth [] = auth
run auth (e ∷ es) = run (step auth e) es

step-IsBounded : (auth : AuthState) (e : Event) → IsBounded auth → IsBounded (step auth e)
unfolding step
step-IsBounded auth (failure now again ip) b = record_failure-IsBounded auth now again ip b
step-IsBounded auth (success ip) b = record_success-IsBounded auth ip b
step-IsBounded auth (tick now) b = cleanup-IsBounded auth now b

-- Whatever the order of failures, successes and background rounds, at most 10000 addresses have
-- failed attempts tracked, none with an empty list, and no address has two entries among the bans.
-- The number of the bans is not limited here.
pub run-IsBounded : (auth : AuthState) (es : List Event) → IsBounded auth → IsBounded (run auth es)
unfolding run
run-IsBounded auth [] b = b
run-IsBounded auth (e ∷ es) b = run-IsBounded (step auth e) es (step-IsBounded auth e b)
