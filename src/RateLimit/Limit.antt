-- ===== src/RateLimit/Limit.antt =====
-- How many requests of one address the limiter lets through in any window.
use mathlib.Core.List.{append_assoc, append-nil}
use aperture_router.Prelude.{
  ℕ, ◌≤◌, ◌<◌, ◌≡◌, refl, sym, inl, inr, Bool, true, false, ◌&&◌, List, [], ◌∷◌, ◌++◌, arith,
  if◌then◌else◌, leb, ◌==◌, ==_iff, length, length-append, keep, keep-append, Bool-cases,
}
use aperture_router.Maps.{get}
use aperture_router.Net.{IpAddr, ip_eq, is_ok}
use aperture_router.RateLimit.{
  RateLimiter, new, within, check_rate_limit, cleanup, Event, request, tick, step,
}
use aperture_router.RateLimit.Window.{
  History, allowed, accept, Agrees, check_rate_limit-allowed, check_rate_limit-Agrees, Agrees-later,
  cleanup-Agrees, IsOrdered, NeverEvicts, max_requests-step, window-step, no_history,
}

-- The times at which the requests of `ip` were let through.
pub accepted : IpAddr → RateLimiter → List Event → List ℕ
accepted ip l [] = []
accepted ip l (request now j ∷ es) =
    let rest = accepted ip (step l (request now j)) es in
    if is_ok (check_rate_limit l now j).0 && j == ip then now ∷ rest else rest
accepted ip l (tick now ∷ es) = accepted ip (step l (tick now)) es

-- The window of length `window` that ends at `t`.
abbrev pub in_window : ℕ → ℕ → ℕ → Bool
in_window window t s = leb s t && within window t s

abbrev IsLimited : ℕ → ℕ → History → Type 0
IsLimited max_requests window h =
    (ip : IpAddr) (t : ℕ) → length (keep (in_window window t) (h ip)) ≤ max_requests

in_window-le :
    (window now t : ℕ) (xs : List ℕ)
    → now ≤ t
    → length (keep (in_window window t) xs) ≤ length (keep (within window now) xs)
in_window-le window now t [] h = omega arith
in_window-le window now t (x ∷ xs) h = ground (arith, in_window-le window now t xs h)

module _ (max_requests window : ℕ) (h : History) (now : ℕ) (ip : IpAddr) where
  accept-IsLimited :
      allowed max_requests window h now ip ≡ true
      → IsLimited max_requests window h
      → IsLimited max_requests window (accept h now ip)
  accept-IsLimited passed fits j t = elim (Bool-cases (ip == j)) [
    | inl same ↦
        let e : ip ≡ j = (==_iff ip j).0 same in
        rw (same, keep-append, length-append)
          (elim (Bool-cases (leb now t)) [
            | inl after ↦
                let few : length (keep (within window now) (h j)) < max_requests =
                  rw (← e) (ground arith) in
                ground (arith, in_window-le window now t (h j))
            | inr before ↦ ground (arith, fits j t)
          ])
    | inr other ↦ rw other (fits j t)
  ]

-- A time that is let through moves from the rest of the run to the history.
accept-append :
    (h : History) (u : ℕ) (j ip : IpAddr) (passed : Bool) (rest : List ℕ)
    → h ip ++ (if passed && j == ip then u ∷ rest else rest)
      ≡ (if passed then accept h u j else h) ip ++ rest
accept-append h u j ip false rest = refl
accept-append h u j ip true rest = elim (Bool-cases (j == ip)) [
  | inl same ↦ rw same (sym (append_assoc (h ip) (u ∷ []) rest))
  | inr other ↦ rw other
]

accept_if-IsLimited :
    (max_requests window : ℕ) (h : History) (now : ℕ) (ip : IpAddr)
    → IsLimited max_requests window h
    → IsLimited max_requests window
        (if allowed max_requests window h now ip then accept h now ip else h)
accept_if-IsLimited max_requests window h now ip f =
    elim (Bool-cases (allowed max_requests window h now ip)) [
      | inl passed ↦ rw passed (accept-IsLimited max_requests window h now ip passed f)
      | inr refused ↦ rw refused f
    ]

IsLimited-step :
    (l : RateLimiter) (e : Event) (h : History)
    → IsLimited l.max_requests l.window h
    → IsLimited (step l e).max_requests (step l e).window h
IsLimited-step l e h f = rw (max_requests-step l e, window-step l e) f

module _ (ip : IpAddr) (t : ℕ) where
  accepted-le :
      (l : RateLimiter) (h : History) (now : ℕ) (es : List Event)
      → Agrees now l h
      → IsLimited l.max_requests l.window h
      → IsOrdered now es
      → NeverEvicts l es
      → length (keep (in_window l.window t) (h ip ++ accepted ip l es)) ≤ l.max_requests
  unfolding accepted step cleanup
  accepted-le l h now [] a f o n = rw append-nil (f ip t)
  accepted-le l h now (request u j ∷ es) a f (le, o) (r, n) =
      let later = Agrees-later l h now j u le a in
      let passed = allowed l.max_requests l.window h u j in
      let h' : History = if passed then accept h u j else h in
      let rest =
        accepted-le (step l (request u j)) h' u es
          (unfold step in check_rate_limit-Agrees l h u j later r)
          (IsLimited-step l (request u j) h' (accept_if-IsLimited l.max_requests l.window h u j f))
          o n in
      let counted = rw (max_requests-step l (request u j), window-step l (request u j)) at rest in
      rw
        (
          check_rate_limit-allowed l h u j later r,
          accept-append h u j ip passed (accepted ip (step l (request u j)) es),
        )
        counted
  accepted-le l h now (tick u ∷ es) a f (le, o) n =
      let later = Agrees-later l h now ip u le a in
      let rest =
        accepted-le (step l (tick u)) h u es (unfold step in cleanup-Agrees l h u later)
          (IsLimited-step l (tick u) h f) o n in
      rw (max_requests-step l (tick u), window-step l (tick u)) at rest

-- While no address is evicted and the clock does not run backwards, at most `max_requests` requests
-- of an address are let through in any window of the configured length, wherever it ends.
pub accepted-new-le :
    (max_requests window : ℕ) (es : List Event) (ip : IpAddr) (t : ℕ)
    → IsOrdered 0 es
    → NeverEvicts (new max_requests window) es
    → length (keep (in_window window t) (accepted ip (new max_requests window) es)) ≤ max_requests
accepted-new-le max_requests window es ip t o n =
    accepted-le ip t (new max_requests window) no_history 0 es
      (record { unique = tt; recent = λ j u le. unfold get in refl }) (λ j u. omega arith) o n
