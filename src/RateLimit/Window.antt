-- ===== src/RateLimit/Window.antt =====
-- The limiter against a reference that forgets nothing: each address has the whole list of the
-- times at which it was let through.
use mathlib.Core.Option
use aperture_router.Prelude.{
  ℕ, ◌≤◌, ◌<◌, ◌≡◌, refl, ◌∙◌, ◌⊎◌, inl, inr, Bool, true, false, not, List, [], ◌∷◌, ◌++◌, arith,
  if◌then◌else◌, leb, ltb, ◌==◌, ==_iff, length, is_empty, keep, keep-append, keep-keep, unwrap_or,
  and_then, Option, none, some, Bool-cases,
}
use aperture_router.Maps.{
  get, contains_key, insert, map_values, Unique, get-insert, get-retain, get-map_values,
  insert-Unique, retain-Unique, map_values-Unique,
}
use aperture_router.Net.{IpAddr, ip_eq, is_ok}
use aperture_router.Tracking.{evict, evict_of_contains_key, evict_of_room}
use aperture_router.RateLimit.{
  max_tracked_ips, RateLimiter, new, within, check_rate_limit, cleanup, Event, request, tick, step,
}

abbrev pub History : Type 0
History = IpAddr → List ℕ

-- The reference decision: fewer than `max_requests` of the accepted times are in the window.
abbrev pub allowed : ℕ → ℕ → History → ℕ → IpAddr → Bool
allowed max_requests window h now ip = ltb (length (keep (within window now) (h ip))) max_requests

abbrev pub accept : History → ℕ → IpAddr → History
accept h now ip j = if ip == j then h j ++ now ∷ [] else h j

abbrev pub times_of : RateLimiter → IpAddr → List ℕ
times_of l ip = unwrap_or (get ip l.requests) []

-- From `now` on, the limiter and the history cannot be told apart.
pub record Agrees (now : ℕ) (l : RateLimiter) (h : History) : Type 0 where
  pub unique : Unique l.requests
  pub recent :
      (ip : IpAddr) (t : ℕ)
      → now ≤ t
      → keep (within l.window t) (times_of l ip) ≡ keep (within l.window t) (h ip)

-- The request evicts nobody.
abbrev pub HasRoom : RateLimiter → IpAddr → Type 0
HasRoom l ip = (contains_key ip l.requests ≡ true) ⊎ (length l.requests < max_tracked_ips)

evict_of_HasRoom :
    (l : RateLimiter) (ip : IpAddr)
    → HasRoom l ip
    → evict max_tracked_ips ip l.requests ≡ l.requests
evict_of_HasRoom l ip (inl k) = evict_of_contains_key max_tracked_ips ip l.requests k
evict_of_HasRoom l ip (inr r) = evict_of_room max_tracked_ips ip l.requests r

keep_later :
    (w now t : ℕ) (xs : List ℕ)
    → now ≤ t
    → keep (within w t) (keep (within w now) xs) ≡ keep (within w t) xs
keep_later w now t xs h = keep-keep (within w t) (within w now) xs (λ x p. ground arith)

cleaned :
    (p : ℕ → Bool) (o : Option (List ℕ))
    → unwrap_or
        (and_then (Option.map (keep p) o) (λ v. if not (is_empty v) then some v else none))
        []
      ≡ keep p (unwrap_or o [])
cleaned p none = refl
cleaned p (some xs) = ground arith

module _ (l : RateLimiter) (h : History) (now : ℕ) (ip : IpAddr) where
  abbrev kept : List ℕ
  kept = keep (within l.window now) (times_of l ip)

  kept-later :
      Agrees now l h
      → (t : ℕ) → now ≤ t
      → keep (within l.window t) kept ≡ keep (within l.window t) (h ip)
  kept-later a t le = keep_later l.window now t (times_of l ip) le ∙ a.recent ip t le

  Agrees-refuse : Agrees now l h → Agrees now (record l { requests = insert ip kept l.requests }) h
  Agrees-refuse a = record {
    unique = insert-Unique ip kept l.requests a.unique;
    recent =
        λ j t le. rw get-insert (ground (arith, ==_iff ip j, kept-later a t le, a.recent j t le));
  }

  Agrees-accept :
      Agrees now l h
      → Agrees now
          (record l { requests = insert ip (kept ++ now ∷ []) l.requests })
          (accept h now ip)
  Agrees-accept a = record {
    unique = insert-Unique ip (kept ++ now ∷ []) l.requests a.unique;
    recent = λ j t le. rw get-insert (
        ground (
          arith,
          ==_iff ip j,
          kept-later a t le,
          a.recent j t le,
          keep-append (within l.window t) kept (now ∷ []),
          keep-append (within l.window t) (h ip) (now ∷ []),
          keep-append (within l.window t) (h j) (now ∷ []),
        ));
  }

  pub check_rate_limit-allowed :
      Agrees now l h
      → HasRoom l ip
      → is_ok (check_rate_limit l now ip).0 ≡ allowed l.max_requests l.window h now ip
  unfolding check_rate_limit
  check_rate_limit-allowed a r =
      rw (evict_of_HasRoom l ip r, a.recent ip now (omega arith)) (ground arith)

  pub check_rate_limit-Agrees :
      Agrees now l h
      → HasRoom l ip
      → Agrees now
          (check_rate_limit l now ip).1
          (if allowed l.max_requests l.window h now ip then accept h now ip else h)
  unfolding check_rate_limit
  check_rate_limit-Agrees a r = elim (Bool-cases (leb l.max_requests (length kept))) [
    | inl full ↦
        let refused : allowed l.max_requests l.window h now ip ≡ false =
          ground (arith, a.recent ip now (omega arith)) in
        rw (evict_of_HasRoom l ip r, full, refused) (Agrees-refuse a)
    | inr room ↦
        let passed : allowed l.max_requests l.window h now ip ≡ true =
          ground (arith, a.recent ip now (omega arith)) in
        rw (evict_of_HasRoom l ip r, room, passed) (Agrees-accept a)
  ]

  -- Time passes.
  pub Agrees-later : (t : ℕ) → now ≤ t → Agrees now l h → Agrees t l h
  Agrees-later t le a = record { unique = a.unique; recent = λ j u q. a.recent j u (omega arith) }

module _ (l : RateLimiter) (h : History) (now : ℕ) where
  times_of-cleanup :
      (j : IpAddr)
      → Unique l.requests
      → times_of (cleanup l now) j ≡ keep (within l.window now) (times_of l j)
  unfolding cleanup
  times_of-cleanup j u =
      rw
        (
          get-retain _ j (map_values (keep (within l.window now)) l.requests)
              (map_values-Unique _ l.requests u),
          get-map_values (keep (within l.window now)) j l.requests,
        )
        (cleaned (within l.window now) (get j l.requests))

  pub cleanup-Agrees : Agrees now l h → Agrees now (cleanup l now) h
  cleanup-Agrees a = record {
    unique =
        unfold cleanup in
        retain-Unique _ _ (map_values-Unique (keep (within l.window now)) l.requests a.unique);
    recent = λ j t le.
        unfold cleanup in
        rw (times_of-cleanup j a.unique)
          (keep_later l.window now t (times_of l j) le ∙ a.recent j t le);
  }

abbrev pub instant : Event → ℕ
instant (request now ip) = now
instant (tick now) = now

-- The clock does not run backwards.
abbrev pub IsOrdered : ℕ → List Event → Type 0
IsOrdered now [] = Unit
IsOrdered now (e ∷ es) = (now ≤ instant e) × IsOrdered (instant e) es

-- No request of the run evicts an address.
abbrev pub NeverEvicts : RateLimiter → List Event → Type 0
NeverEvicts l [] = Unit
NeverEvicts l (request now ip ∷ es) = HasRoom l ip × NeverEvicts (step l (request now ip)) es
NeverEvicts l (tick now ∷ es) = NeverEvicts (step l (tick now)) es

-- The answers to the requests of a run: let through or not.
unfoldable pub decisions : RateLimiter → List Event → List Bool
decisions l [] = []
decisions l (request now ip ∷ es) =
    is_ok (check_rate_limit l now ip).0 ∷ decisions (step l (request now ip)) es
decisions l (tick now ∷ es) = decisions (step l (tick now)) es

-- The same of the reference, which has no background task.
pub reference : ℕ → ℕ → History → List Event → List Bool
reference max_requests window h [] = []
reference max_requests window h (request now ip ∷ es) =
    let passed = allowed max_requests window h now ip in
    passed ∷ reference max_requests window (if passed then accept h now ip else h) es
reference max_requests window h (tick now ∷ es) = reference max_requests window h es

pub max_requests-step : (l : RateLimiter) (e : Event) → (step l e).max_requests ≡ l.max_requests
unfolding step check_rate_limit cleanup
max_requests-step l (request now ip) = ground arith
max_requests-step l (tick now) = refl

pub window-step : (l : RateLimiter) (e : Event) → (step l e).window ≡ l.window
unfolding step check_rate_limit cleanup
window-step l (request now ip) = ground arith
window-step l (tick now) = refl

decisions-eq-reference :
    (l : RateLimiter) (h : History) (now : ℕ) (es : List Event)
    → Agrees now l h
    → IsOrdered now es
    → NeverEvicts l es
    → decisions l es ≡ reference l.max_requests l.window h es
unfolding decisions reference
decisions-eq-reference l h now [] a o n = refl
decisions-eq-reference l h now (request t ip ∷ es) a (le, o) (r, n) =
    let later = Agrees-later l h now ip t le a in
    let passed = allowed l.max_requests l.window h t ip in
    let rest =
      decisions-eq-reference (step l (request t ip)) (if passed then accept h t ip else h) t es
        (unfold step in check_rate_limit-Agrees l h t ip later r) o n in
    rw (
      check_rate_limit-allowed l h t ip later r,
      rest,
      max_requests-step l (request t ip),
      window-step l (request t ip),
    )
decisions-eq-reference l h now (tick t ∷ es) a (le, o) n =
    let later = Agrees-later l h now (IpAddr.v4 0) t le a in
    let rest =
      decisions-eq-reference (step l (tick t)) h t es (unfold step in cleanup-Agrees l h t later) o
        n in
    rw (rest, max_requests-step l (tick t), window-step l (tick t))

abbrev pub no_history : History
no_history ip = []

-- While no address is evicted and the clock does not run backwards, the answers of a new limiter
-- are those of the reference: a request is let through exactly if fewer than `max_requests`
-- requests of its address were let through less than `window` before it. The background task
-- changes no answer.
pub decisions-new :
    (max_requests window : ℕ) (es : List Event)
    → IsOrdered 0 es
    → NeverEvicts (new max_requests window) es
    → decisions (new max_requests window) es ≡ reference max_requests window no_history es
decisions-new max_requests window es o n =
    decisions-eq-reference (new max_requests window) no_history 0 es
      (record { unique = tt; recent = λ ip t le. unfold get in refl }) o n
