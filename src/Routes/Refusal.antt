-- ===== src/Routes/Refusal.antt =====
-- What the messages route does with a request that it does not accept.
use aperture_router.Prelude.{
  ℕ, ◌≡◌, refl, ◌⊎◌, inl, inr, String, Bool, true, false, not, ◌&&◌, Option, [], any, arith,
}
use aperture_router.Json.{Value}
use aperture_router.Net.{Result, ok, err, ◌>>◌}
use aperture_router.Text.{Text}
use aperture_router.Config.{resolve_model_alias}
use aperture_router.Registry.{get_providers_for_model}
use aperture_router.Validation.{RequestError, model_not_found}
use aperture_router.Routes.{Handled}
use aperture_router.Routes.Checks.{MessageRequest, check_message_request, check_model}
use aperture_router.Routes.Accepted.{
  IsAcceptable, check_message_request_iff, both_iff, refuse_if_iff,
}
use aperture_router.Routes.Endpoints.{
  ChatCompletionRequest, AppState, Answer, refused, behind, anthropic_messages,
}

module _ (as_f32 : Value → Option ℕ) (state : AppState) where
  -- The request with the alias of its model resolved.
  abbrev pub resolved : MessageRequest → MessageRequest
  resolved request = record request { model = resolve_model_alias state.config request.model }

  -- The choice of providers is off, or a provider or the discovery has the model.
  abbrev pub IsKnownModel : Text → Type 0
  IsKnownModel model =
      (state.multi_provider_enabled ≡ false)
      ⊎ ((any (λ p. p.enabled) (get_providers_for_model model state.registry) ≡ true)
          ⊎ (state.discovery_has model ≡ true))

  -- Refused with nothing sent, or fit to be sent.
  abbrev pub IsRefusedOrFit : MessageRequest → Handled Answer → Type 0
  IsRefusedOrFit request handled =
      ((e : RequestError) × ((handled.reply ≡ refused e) × (handled.sent ≡ [])))
      ⊎ (IsAcceptable as_f32 state.config.security.max_messages (resolved request)
          × IsKnownModel (resolved request).model)

  one_reason :
      (a b c : Bool) → a && not b && not c ≡ false → (a ≡ false) ⊎ ((b ≡ true) ⊎ (c ≡ true))
  one_reason a b c h = ground (arith, h)

  passed :
      (request : MessageRequest)
      → check_message_request as_f32 state.config.security.max_messages (resolved request)
          >> check_model state.multi_provider_enabled
              (get_providers_for_model (resolved request).model state.registry)
              (state.discovery_has (resolved request).model)
        ≡ ok tt
      → IsAcceptable as_f32 state.config.security.max_messages (resolved request)
        × IsKnownModel (resolved request).model
  unfolding check_model
  passed request h =
      let model = (resolved request).model in
      let known =
        check_model state.multi_provider_enabled (get_providers_for_model model state.registry)
          (state.discovery_has model) in
      let checked =
        check_message_request as_f32 state.config.security.max_messages (resolved request) in
      let (fit, found) = (both_iff checked known).0 h in
      (
        (check_message_request_iff as_f32 state.config.security.max_messages (resolved request)).0
            fit,
        one_reason state.multi_provider_enabled _ _ ((refuse_if_iff _ model_not_found).0 found),
      )

  refused_or :
      (request : MessageRequest) (checks : Result RequestError Unit) (rest : Handled Answer)
      → (checks ≡ ok tt
          → IsAcceptable as_f32 state.config.security.max_messages (resolved request)
            × IsKnownModel (resolved request).model)
      → IsRefusedOrFit request (behind checks rest)
  refused_or request (ok done) rest fit = inr (fit refl)
  refused_or request (err e) rest fit = inl (e, (refl, refl))

-- A request to the messages route whose checks fail is refused and nothing is sent. Otherwise the
-- request, with the alias of its model resolved, is acceptable, and its model is known if the
-- choice of providers is on.
pub anthropic_messages-IsRefusedOrFit :
    (parse : String → Option Value) (print : Value → String) (from_str : Text → Option Value)
    (to_vec : Value → Option Text) (message_to_vec : MessageRequest → Option Text)
    (to_value : MessageRequest → Option Value) (chat_to_vec : ChatCompletionRequest → Option Text)
    (as_f32 : Value → Option ℕ) (id : String) (state : AppState) (request : MessageRequest)
    → IsRefusedOrFit as_f32 state request (
        anthropic_messages parse print from_str to_vec message_to_vec to_value chat_to_vec as_f32 id
          state request)
unfolding anthropic_messages
anthropic_messages-IsRefusedOrFit parse print from_str to_vec message_to_vec to_value chat_to_vec
      as_f32 id state request =
    refused_or as_f32 state request _ _ (passed as_f32 state request)
