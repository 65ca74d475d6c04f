-- ===== src/Upstream/Waits.antt =====
-- How long the client sleeps between its attempts.
use aperture_router.Prelude.{
  ℕ, zero, suc, ◌+◌, ◌*◌, ◌%◌, ◌^◌, ◌≤◌, Option, none, some, List, [], ◌∷◌, if◌then◌else◌, nat_eq,
  leb, arith, Bool-cases, inl, inr,
}
use native.Mathlib.Nat.{mul-le-mul, mul-le-mul_left, mul-le-mul_right}
use aperture_router.Net.{ok, err}
use aperture_router.Upstream.Retry.{
  Sent, is_transient, delay_of, delay, delay_after, rand_factor, saturating_mul, retry_loop,
  send_with_429_retry,
}

abbrev pub total : List ℕ → ℕ
total [] = 0
total (d ∷ ds) = d + total ds

abbrev max : ℕ → ℕ → ℕ
max a b = if leb a b then b else a

-- The longest sleeps from an attempt on, for a base delay of one millisecond.
abbrev worst : ℕ → ℕ → ℕ
worst zero attempt = 0
worst (suc left) attempt = max 40000 (12994 * 2 ^ (attempt % 32)) + worst left (suc attempt)

rand_factor-le : (clock : Option ℕ) → rand_factor clock ≤ 12994
unfolding rand_factor
rand_factor-le none = omega arith
rand_factor-le (some n) = omega arith

pub max_left : (a b : ℕ) → a ≤ max a b
max_left a b = ground arith

pub max_right : (a b : ℕ) → b ≤ max a b
max_right a b = ground arith

cap-le : (base_ms : ℕ) → saturating_mul base_ms 4 * 10000 ≤ base_ms * 40000
cap-le base_ms = ground arith

abbrev longest : ℕ → ℕ
longest attempt = max 40000 (12994 * 2 ^ (attempt % 32))

delay_of-le :
    (base_ms attempt : ℕ) (clock hint : Option ℕ)
    → delay_of base_ms attempt clock hint ≤ base_ms * longest attempt
delay_of-le base_ms attempt clock (some secs) =
    let capped : delay_of base_ms attempt clock (some secs) ≤ saturating_mul base_ms 4 * 10000 =
      ground arith in
    omega (
      arith,
      capped,
      cap-le base_ms,
      mul-le-mul_left base_ms (max_left 40000 (12994 * 2 ^ (attempt % 32))),
    )
delay_of-le base_ms attempt clock none = mul-le-mul_left base_ms (
    omega (
      arith,
      mul-le-mul_right (2 ^ (attempt % 32)) (rand_factor-le clock),
      max_right 40000 (12994 * 2 ^ (attempt % 32)),
    ))

delay_after-le :
    (base_ms attempt : ℕ) (clock : Option ℕ) (sent : Sent)
    → delay_after base_ms attempt clock sent ≤ base_ms * longest attempt
unfolding delay
delay_after-le base_ms attempt clock (err e) = omega arith
delay_after-le base_ms attempt clock (ok response) = delay_of-le base_ms attempt clock _

module _ (base_ms : ℕ) (send : ℕ → Sent) (clock : ℕ → Option ℕ) where
  retry_loop-total :
      (left attempt : ℕ)
      → total (retry_loop base_ms send clock left attempt).sleeps ≤ base_ms * worst left attempt
  unfolding retry_loop
  retry_loop-total zero attempt = omega arith
  retry_loop-total (suc left) attempt = elim (Bool-cases (is_transient (send attempt))) [
    | inr final ↦ rw final (omega arith)
    | inl again ↦ rw again (
        omega (
          arith,
          retry_loop-total left (suc attempt),
          delay_after-le base_ms attempt (clock attempt) (send attempt),
        ))
  ]

worst-le : (left : ℕ) → left ≤ 5 → worst left 0 ≤ 443832
worst-le zero h = omega arith
worst-le (suc zero) h = omega arith
worst-le (suc (suc zero)) h = omega arith
worst-le (suc (suc (suc zero))) h = omega arith
worst-le (suc (suc (suc (suc zero)))) h = omega arith
worst-le (suc (suc (suc (suc (suc zero))))) h = omega arith
worst-le (suc (suc (suc (suc (suc (suc n)))))) h = absurd (omega (arith, h))

-- With the settings that the configuration allows, at most 5 retries and a base delay of at most
-- ten seconds, all sleeps of a call together last at most 444 seconds, in tenths of a microsecond,
-- whatever the upstream answers and the clock shows.
pub send_with_429_retry-total :
    (base_ms retry_attempts : ℕ) (send : ℕ → Sent) (clock : ℕ → Option ℕ)
    → retry_attempts ≤ 5
    → base_ms ≤ 10000
    → total (send_with_429_retry base_ms send clock retry_attempts).sleeps ≤ 444 * 10000000
unfolding send_with_429_retry
send_with_429_retry-total base_ms retry_attempts send clock few short = omega (
  arith,
  retry_loop-total base_ms send clock retry_attempts 0,
  mul-le-mul short (worst-le retry_attempts few),
)
