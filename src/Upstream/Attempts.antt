-- ===== src/Upstream/Attempts.antt =====
-- Which attempt's response the client returns, and how long it waits.
use aperture_router.Prelude.{
  ℕ, zero, suc, ◌+◌, ◌≤◌, ◌<◌, ◌≡◌, refl, ◌⊎◌, inl, inr, true, false, Option, nat_eq, arith, length,
  Bool-cases,
}
use aperture_router.Upstream.Retry.{Sent, Run, is_transient, retry_loop, send_with_429_retry}

-- The run stopped at an attempt between two bounds: it returned what that attempt got, each one
-- before it got a transient 429, it is the last one allowed or got something else, and there was
-- one sleep before each repetition.
pub record StopsAt (send : ℕ → Sent) (from to : ℕ) (run : Run) : Type 0 where
  pub at : ℕ
  pub sends : run.sends ≡ suc at
  pub outcome : run.outcome ≡ send at
  pub after : from ≤ at
  pub within : at ≤ to
  pub before : (k : ℕ) → from ≤ k → k < at → is_transient (send k) ≡ true
  pub reason : (at ≡ to) ⊎ (is_transient (send at) ≡ false)
  pub sleeps : from + length run.sleeps ≡ at

split : (k a : ℕ) → a ≤ k → (k ≡ a) ⊎ (suc a ≤ k)
split k a h = ground (arith, h)

module _ (base_ms : ℕ) (send : ℕ → Sent) (clock : ℕ → Option ℕ) where
  retry_loop-StopsAt :
      (left attempt to : ℕ)
      → to ≡ attempt + left
      → StopsAt send attempt to (retry_loop base_ms send clock left attempt)
  unfolding retry_loop
  retry_loop-StopsAt zero attempt to e = record {
    at = attempt;
    sends = refl;
    outcome = refl;
    after = omega arith;
    within = omega (arith, e);
    before = λ k a b. absurd (omega (arith, a, b));
    reason = inl (omega (arith, e));
    sleeps = omega arith;
  }
  retry_loop-StopsAt (suc left) attempt to e = elim (Bool-cases (is_transient (send attempt))) [
    | inr final ↦ rw final (record {
      at = attempt;
      sends = refl;
      outcome = refl;
      after = omega arith;
      within = omega (arith, e);
      before = λ k a b. absurd (omega (arith, a, b));
      reason = inr final;
      sleeps = omega arith;
    })
    | inl again ↦
        let rest = retry_loop-StopsAt left (suc attempt) to (omega (arith, e)) in
        rw again (record {
          at = rest.at;
          sends = rest.sends;
          outcome = rest.outcome;
          after = omega (arith, rest.after);
          within = omega (arith, rest.within, e);
          before = λ k a b. elim (split k attempt a) [
            | inl here ↦ rw here again
            | inr later ↦ rest.before k later b
          ];
          reason = rest.reason;
          sleeps = omega (arith, rest.sleeps);
        })
  ]

-- For every upstream, clock, base delay and number of retries, the call returns: with what the
-- last request got, after at most one request more than the retries, each earlier one of them
-- answered by a 429 with quota left, the last one by something else unless the retries were used
-- up, and with one sleep between two requests.
pub send_with_429_retry-StopsAt :
    (base_ms retry_attempts : ℕ) (send : ℕ → Sent) (clock : ℕ → Option ℕ)
    → StopsAt send 0 retry_attempts (send_with_429_retry base_ms send clock retry_attempts)
unfolding send_with_429_retry
send_with_429_retry-StopsAt base_ms retry_attempts send clock =
    retry_loop-StopsAt base_ms send clock retry_attempts 0 retry_attempts (omega arith)
