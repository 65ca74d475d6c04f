-- ===== src/Auth/Lockout.antt =====
-- When a run of failures of one address ends in a ban, and until when.
use mathlib.Core.Option
use aperture_router.Prelude.{
  ltb, false, Bool, Option, some, none, ◌&&◌, not, is_empty, last, ◌∙◌, ℕ, ◌+◌, ◌≤◌, ◌<◌, ◌≡◌, refl,
  ◌⊎◌, inl, inr, true, some, List, [], ◌∷◌, ◌++◌, arith, if◌then◌else◌, leb, ==_self, length,
  length-append, keep, unwrap_or, All, All-append, Bool-cases,
}
use aperture_router.Maps.{get, contains_key, get-insert, contains_key-insert}
use aperture_router.Net.{IpAddr, ip_eq}
use aperture_router.Tracking.{evict, evict_of_contains_key, evict_of_room}
use aperture_router.Auth.{
  is_banned, max_tracked_ips, AuthState, is_recent, attempt_times, record_failure,
}

-- Failures of `ip`, each with its two readings of the clock.
pub fail_all : AuthState → IpAddr → List (ℕ × ℕ) → AuthState
fail_all auth ip [] = auth
fail_all auth ip ((now, again) ∷ ts) = fail_all (record_failure auth now again ip).1 ip ts

abbrev pub HasRoom : AuthState → IpAddr → Type 0
HasRoom auth ip =
    (contains_key ip auth.failed_attempts ≡ true) ⊎ (length auth.failed_attempts < max_tracked_ips)

-- Every failure comes at `start` or later and less than a window after it.
abbrev pub InWindow : ℕ → ℕ → List (ℕ × ℕ) → Type 0
InWindow start window ts = All (λ p. (start ≤ p.0) × (p.0 < start + window)) ts

-- `xs` are the attempts that `auth` holds of `ip`.
record Holds (start : ℕ) (auth : AuthState) (ip : IpAddr) (xs : List ℕ) : Type 0 where
  held : unwrap_or (get ip auth.failed_attempts) [] ≡ xs
  room : HasRoom auth ip
  since : All (λ x. start ≤ x) xs

keep_recent :
    (auth : AuthState) (start now : ℕ) (xs : List ℕ)
    → All (λ x. start ≤ x) xs
    → start ≤ now
    → now < start + auth.window_duration
    → keep (is_recent auth now) xs ≡ xs
keep_recent auth start now [] a h k = refl
keep_recent auth start now (x ∷ xs) (b, a) h k = ground (arith, keep_recent auth start now xs a h k)

evict_of_HasRoom :
    (auth : AuthState) (ip : IpAddr)
    → HasRoom auth ip
    → evict max_tracked_ips ip auth.failed_attempts ≡ auth.failed_attempts
evict_of_HasRoom auth ip (inl k) = evict_of_contains_key max_tracked_ips ip auth.failed_attempts k
evict_of_HasRoom auth ip (inr r) = evict_of_room max_tracked_ips ip auth.failed_attempts r

module _ (start : ℕ) (auth : AuthState) (ip : IpAddr) (xs : List ℕ)
    (h : Holds start auth ip xs) where
  attempt_times_of_Holds :
      (now : ℕ) → start ≤ now → now < start + auth.window_duration → attempt_times auth now ip ≡ xs
  attempt_times_of_Holds now le lt =
      rw (evict_of_HasRoom auth ip h.room, h.held) (keep_recent auth start now xs h.since le lt)

  -- The attempts after one more failure.
  abbrev after : ℕ → List ℕ
  after now = if leb auth.max_attempts (length xs) then xs else xs ++ now ∷ []

  record_failure-Holds :
      (now again : ℕ)
      → start ≤ now
      → now < start + auth.window_duration
      → Holds start (record_failure auth now again ip).1 ip (after now)
  unfolding record_failure
  record_failure-Holds now again le lt =
      let e = attempt_times_of_Holds now le lt in
      rw (e, evict_of_HasRoom auth ip h.room)
        (elim (Bool-cases (leb auth.max_attempts (length xs))) [
          | inl full ↦ rw full (record {
            held = rw (get-insert, ==_self ip);
            room = inl (rw (contains_key-insert, ==_self ip));
            since = h.since;
          })
          | inr free ↦ rw free (record {
            held = rw (get-insert, ==_self ip);
            room = inl (rw (contains_key-insert, ==_self ip));
            since = All-append (λ x. start ≤ x) xs (now ∷ []) h.since (le, tt);
          })
        ])

  banned_until-record_failure :
      (now again : ℕ)
      → start ≤ now
      → now < start + auth.window_duration
      → get ip (record_failure auth now again ip).1.banned_until ≡ (
          if leb auth.max_attempts (length xs + 1)
          then some (again + auth.ban_duration)
          else get ip auth.banned_until)
  unfolding record_failure
  banned_until-record_failure now again le lt =
      let e = attempt_times_of_Holds now le lt in
      rw (e, evict_of_HasRoom auth ip h.room)
        (ground (
          arith,
          get-insert ip ip (again + auth.ban_duration) auth.banned_until,
          ==_self ip,
          length-append xs (now ∷ []),
        ))

module _ (auth : AuthState) (now again : ℕ) (ip : IpAddr) where
  max_attempts-record_failure :
      (record_failure auth now again ip).1.max_attempts ≡ auth.max_attempts
  unfolding record_failure
  max_attempts-record_failure = ground arith

  ban_duration-record_failure :
      (record_failure auth now again ip).1.ban_duration ≡ auth.ban_duration
  unfolding record_failure
  ban_duration-record_failure = ground arith

  window_duration-record_failure :
      (record_failure auth now again ip).1.window_duration ≡ auth.window_duration
  unfolding record_failure
  window_duration-record_failure = ground arith

-- When the ban that the last of the failures sets runs out.
abbrev pub ban_end : ℕ → List (ℕ × ℕ) → Option ℕ
ban_end ban_duration ts = Option.map (λ p. p.1 + ban_duration) (last ts)

length-after :
    (full : Bool) (xs : List ℕ) (now : ℕ)
    → length (if full then xs else xs ++ now ∷ []) ≡ (if full then length xs else length xs + 1)
length-after true xs now = refl
length-after false xs now = length-append xs (now ∷ [])

-- One more failure in front of `ts`.
ban_end-cons :
    (max_attempts ban_duration n : ℕ) (p : ℕ × ℕ) (ts : List (ℕ × ℕ)) (old : Option ℕ)
    → (if leb max_attempts ((if leb max_attempts n then n else n + 1) + length ts)
          && not (is_empty ts)
        then ban_end ban_duration ts
        else if leb max_attempts (n + 1)
        then some (p.1 + ban_duration)
        else old)
      ≡ (if leb max_attempts (n + length (p ∷ ts)) && not (is_empty (p ∷ ts))
          then ban_end ban_duration (p ∷ ts)
          else old)
ban_end-cons max_attempts ban_duration n p [] old = ground arith
ban_end-cons max_attempts ban_duration n p (q ∷ ts) old = ground arith

fail_all_lem :
    (start : ℕ) (auth : AuthState) (ip : IpAddr) (xs : List ℕ) (ts : List (ℕ × ℕ))
    → Holds start auth ip xs
    → InWindow start auth.window_duration ts
    → get ip (fail_all auth ip ts).banned_until ≡ (
        if leb auth.max_attempts (length xs + length ts) && not (is_empty ts)
        then ban_end auth.ban_duration ts
        else get ip auth.banned_until)
unfolding fail_all
fail_all_lem start auth ip xs [] h w = ground arith
fail_all_lem start auth ip xs ((now, again) ∷ ts) h ((le, lt), w) =
    let auth' = (record_failure auth now again ip).1 in
    fail_all_lem start auth' ip (after start auth ip xs h now) ts
      (record_failure-Holds start auth ip xs h now again le lt)
      (rw (window_duration-record_failure auth now again ip) w)
    ∙ rw
        (
          max_attempts-record_failure auth now again ip,
          ban_duration-record_failure auth now again ip,
          banned_until-record_failure start auth ip xs h now again le lt,
          length-after (leb auth.max_attempts (length xs)) xs now,
        )
        (ban_end-cons auth.max_attempts auth.ban_duration (length xs) (now, again) ts
          (get ip auth.banned_until))

abbrev runs_until : ℕ → Option ℕ → Bool
runs_until t none = false
runs_until t (some expires_at) = ltb t expires_at

-- An address with no recent attempts fails several times within one window, and nobody is evicted.
-- With fewer than `max_attempts` failures it is banned exactly if it was before. From then on it is
-- banned until `ban_duration` after the last failure, and no longer, whatever the window is.
pub is_banned-fail_all :
    (start : ℕ) (auth : AuthState) (ip : IpAddr) (ts : List (ℕ × ℕ)) (t : ℕ)
    → 0 < auth.max_attempts
    → get ip auth.failed_attempts ≡ none
    → HasRoom auth ip
    → InWindow start auth.window_duration ts
    → is_banned (fail_all auth ip ts) t ip ≡ (
        if leb auth.max_attempts (length ts)
        then runs_until t (ban_end auth.ban_duration ts)
        else is_banned auth t ip)
unfolding is_banned
is_banned-fail_all start auth ip ts t pos fresh room w =
    rw (fail_all_lem start auth ip [] ts (record { held = rw fresh; room = room; since = tt }) w)
      (ground arith)
