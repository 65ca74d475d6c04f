-- ===== src/Routes/Failover.antt =====
-- Which provider's reply a handler returns.
use aperture_router.Prelude.{
  ℕ, ◌≡◌, refl, sym, ◌⊎◌, inl, inr, String, true, false, Option, some, List, [], ◌∷◌, ◌++◌, All,
}
use mathlib.Core.List.{append-nil}
use aperture_router.Json.{Value}
use aperture_router.Net.{Result, ok, err, is_ok, Result-cases}
use aperture_router.Text.{Text}
use aperture_router.Config.{Provider}
use aperture_router.Conversion.Request.{anthropic_request_to_openai}
use aperture_router.Upstream.Forward.{Request, take}
use aperture_router.Routes.{
  Reply, Handled, Attempt, Gateway, bad_gateway, max_failover_attempts, failover, json_error,
  anthropic_server_error,
}
use aperture_router.Routes.Proxy.{or_error, or_failed, try_provider, proxy_handler_multi}
use aperture_router.Routes.Messages.{try_provider_non_streaming, handle_non_streaming_conversion}

module _ {A : Type 0} (try : Provider → Attempt A) where
  abbrev pub Fails : Provider → Type 0
  Fails p = is_ok (try p).outcome ≡ false

  -- The requests of the tries, one after another.
  abbrev pub requests_of : List Provider → List Request
  requests_of [] = []
  requests_of (p ∷ ps) = (try p).sent ++ requests_of ps

  -- One provider of the list succeeds, those before it fail, and those after it are not tried.
  pub record Won (tried : List Provider) (a : A) (sent : List Request) : Type 0 where
    pub before : List Provider
    pub winner : Provider
    pub after : List Provider
    pub split : tried ≡ before ++ winner ∷ after
    pub failed : All Fails before
    pub won : (try winner).outcome ≡ ok a
    pub requests : sent ≡ requests_of (before ++ winner ∷ [])

  -- The status of the last failure.
  abbrev pub status_of : Result ℕ A → ℕ → ℕ
  status_of (ok a) status = status
  status_of (err s) status = s

  abbrev pub last_status : ℕ → List Provider → ℕ
  last_status status [] = status
  last_status status (p ∷ ps) = last_status (status_of (try p).outcome status) ps

  -- All providers of the list fail, each is tried, and the status is the last one's.
  pub record Lost (status : ℕ) (tried : List Provider) (s : ℕ) (sent : List Request) : Type 0 where
    pub failed : All Fails tried
    pub last : s ≡ last_status status tried
    pub requests : sent ≡ requests_of tried

  abbrev pub Decided : ℕ → List Provider → Result ℕ A → List Request → Type 0
  Decided status tried (ok a) sent = Won tried a sent
  Decided status tried (err s) sent = Lost status tried s sent

  -- A provider that failed, before a list that is decided.
  Decided-behind :
      (status s : ℕ) (p : Provider) (ps : List Provider) (outcome : Result ℕ A)
      (sent : List Request)
      → (try p).outcome ≡ err s
      → Decided s ps outcome sent
      → Decided status (p ∷ ps) outcome ((try p).sent ++ sent)
  Decided-behind status s p ps (ok a) sent h w = record {
    before = p ∷ w.before;
    winner = w.winner;
    after = w.after;
    split = cc w.split;
    failed = (rw h refl, w.failed);
    won = w.won;
    requests = cc w.requests;
  }
  Decided-behind status s p ps (err e) sent h l = record {
    failed = (rw h refl, l.failed);
    last = rw h l.last;
    requests = cc l.requests;
  }

  failover-Decided :
      (status : ℕ) (ps : List Provider)
      → Decided status ps (failover try status ps).outcome (failover try status ps).sent
  unfolding failover
  failover-Decided status [] = record { failed = tt; last = refl; requests = refl }
  failover-Decided status (p ∷ ps) = elim (Result-cases (try p).outcome) [
    | inl (a, h) ↦ rw h (record {
      before = [];
      winner = p;
      after = ps;
      split = refl;
      failed = tt;
      won = h;
      requests = sym (append-nil (try p).sent);
    })
    | inr (s, h) ↦ rw h (Decided-behind status s p ps _ _ h (failover-Decided s ps))
  ]

-- A handler's reply: the winner's, or an error with the status of the last failure.
abbrev pub FailsOver :
    (Provider → Attempt Reply) → (ℕ → Reply) → List Provider → Handled Reply → Type 0
FailsOver try failed tried handled =
    Won try tried handled.reply handled.sent
    ⊎ ((status : ℕ) × (Lost try bad_gateway tried status handled.sent
          × (handled.reply ≡ failed status)))

Decided-FailsOver :
    (try : Provider → Attempt Reply) (failed : ℕ → Reply) (tried : List Provider)
    (attempt : Attempt Reply)
    → Decided try bad_gateway tried attempt.outcome attempt.sent
    → FailsOver try failed tried (or_error failed attempt)
Decided-FailsOver try failed tried attempt d = go attempt.outcome d
  where
    go :
        (outcome : Result ℕ Reply)
        → Decided try bad_gateway tried outcome attempt.sent
        → FailsOver try failed tried
            (record { reply = or_failed failed outcome; sent = attempt.sent })
    go (ok reply) w = inl w
    go (err status) l = inr (status, (l, refl))

-- With two or more candidates and the choice of providers on, the handler tries the first three of
-- them in their order. It returns the reply of the first that has one and no other is tried after
-- it, or all fail, each is tried, and the reply is an error with the status of the last failure.
pub proxy_handler_multi-FailsOver :
    (gateway : Gateway) (body endpoint : Text) (first second : Provider) (others : List Provider)
    → let providers = first ∷ second ∷ others in
      FailsOver
        (try_provider gateway body endpoint)
        (λ status. json_error status "All providers failed")
        (take max_failover_attempts providers)
        (proxy_handler_multi gateway true providers endpoint (some body))
unfolding proxy_handler_multi
proxy_handler_multi-FailsOver gateway body endpoint first second others =
    Decided-FailsOver _ _ _ _ (failover-Decided (try_provider gateway body endpoint) bad_gateway _)

-- The converted request has a body, and there are two or more candidates. Then the handler tries
-- the first three of them in their order. It returns the reply of the first that has one and no
-- other is tried after it, or all fail, each is tried, and the reply is an error with the status of
-- the last failure.
pub handle_non_streaming_conversion-FailsOver :
    (parse : String → Option Value) (print : Value → String) (from_str : Text → Option Value)
    (to_vec : Value → Option Text) (id : String) (gateway : Gateway) (request : Value) (body : Text)
    (first second : Provider) (others : List Provider)
    → to_vec (anthropic_request_to_openai print request) ≡ some body
    → let providers = first ∷ second ∷ others in
      FailsOver
        (try_provider_non_streaming parse print from_str to_vec id gateway body)
        (λ status. anthropic_server_error status "All providers failed")
        (take max_failover_attempts providers)
        (handle_non_streaming_conversion parse print from_str to_vec id gateway request providers)
unfolding handle_non_streaming_conversion
handle_non_streaming_conversion-FailsOver parse print from_str to_vec id gateway request body first
      second others made =
    rw made (
      Decided-FailsOver _ _ _ _ (
        failover-Decided (try_provider_non_streaming parse print from_str to_vec id gateway body)
          bad_gateway _))
