-- ===== src/Upstream/Retry.antt =====
-- `send_with_429_retry` of src/proxy/client.rs, with the sends and the clock as functions of the
-- attempt. A delay is in tenths of a microsecond, before `mul_f64` rounds it.
use aperture_router.Prelude.{
  ℕ, zero, suc, ◌+◌, ◌-◌, ◌*◌, ◌%◌, ◌^◌, Bool, false, not, ◌&&◌, Option, none, some, List, [], ◌∷◌,
  if◌then◌else◌, ◌==◌, nat_eq, leb, and_then,
}
use aperture_router.Net.{Result, ok, err, too_many_requests}
use aperture_router.Upstream.Utf8.{StreamError}
use aperture_router.Text.{Text, text_eq, utf8, trim, parse_u64}

-- The parts of a response that the client looks at: the status, two headers as texts, and the
-- chunks of the body.
pub record Response : Type 0 where
  pub status : ℕ
  pub ratelimit_remaining : Option Text
  pub retry_after : Option Text
  pub chunks : List (Result StreamError Text)

pub data SendError : Type 0 where
  send_failed : SendError

abbrev pub Sent : Type 0
Sent = Result SendError Response

abbrev pub is_zero : Option Text → Bool
is_zero none = false
is_zero (some v) = trim v == utf8 "0"

unfoldable pub quota_exhausted : Response → Bool
quota_exhausted response = is_zero response.ratelimit_remaining

abbrev pub min : ℕ → ℕ → ℕ
min a b = if leb a b then a else b

-- `u64::saturating_mul`
abbrev pub saturating_mul : ℕ → ℕ → ℕ
saturating_mul a b = min (a * b) (2 ^ 64 - 1)

-- The jitter in ten-thousandths, from the nanoseconds of the clock's second; none before the epoch.
unfoldable pub rand_factor : Option ℕ → ℕ
rand_factor none = 10000
rand_factor (some n) = 7000 + n % 1000 * 6

-- `1u32 << attempt` shifts by the attempt's low five bits.
abbrev pub delay_of : ℕ → ℕ → Option ℕ → Option ℕ → ℕ
delay_of base_ms attempt clock (some secs) =
    min (secs * 10000000) (saturating_mul base_ms 4 * 10000)
delay_of base_ms attempt clock none = base_ms * (rand_factor clock * 2 ^ (attempt % 32))

unfoldable pub delay : ℕ → ℕ → Option ℕ → Response → ℕ
delay base_ms attempt clock response =
    delay_of base_ms attempt clock (and_then response.retry_after (λ v. parse_u64 (trim v)))

-- What the loop returned, how often it sent, and how long it slept before each repetition.
pub record Run : Type 0 where
  pub outcome : Sent
  pub sends : ℕ
  pub sleeps : List ℕ

-- A 429 that is tried again, unless it was the last attempt.
abbrev pub is_transient : Sent → Bool
is_transient (err e) = false
is_transient (ok response) = response.status == too_many_requests && not (quota_exhausted response)

abbrev pub delay_after : ℕ → ℕ → Option ℕ → Sent → ℕ
delay_after base_ms attempt clock (err e) = 0
delay_after base_ms attempt clock (ok response) = delay base_ms attempt clock response

abbrev pub returned : ℕ → Sent → Run
returned attempt sent = record { outcome = sent; sends = suc attempt; sleeps = [] }

abbrev pub slept : ℕ → Run → Run
slept d run = record run { sleeps = d ∷ run.sleeps }

module _ (base_ms : ℕ) (send : ℕ → Sent) (clock : ℕ → Option ℕ) where
  -- The turns from an attempt on, with the number of attempts behind it.
  unfoldable pub retry_loop : ℕ → ℕ → Run
  retry_loop zero attempt = returned attempt (send attempt)
  retry_loop (suc left) attempt =
      let rest = retry_loop left (suc attempt) in
      if is_transient (send attempt)
      then slept (delay_after base_ms attempt (clock attempt) (send attempt)) rest
      else returned attempt (send attempt)

  unfoldable pub send_with_429_retry : ℕ → Run
  send_with_429_retry retry_attempts = retry_loop retry_attempts 0
