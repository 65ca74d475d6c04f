-- ===== src/Routes/Endpoints.antt =====
-- `anthropic_messages` of src/routes/messages.rs and `chat_completions` of src/routes/chat.rs. The
-- registry and the discovery are the ones at the time of the request.
use aperture_router.Prelude.{
  ℕ, String, Bool, true, false, not, ◌&&◌, Option, none, some, List, [], ◌∷◌, any, keep,
  if◌then◌else◌, ltb, length, is_empty, unwrap_or,
}
use aperture_router.Json
use aperture_router.Json.{Value}
use aperture_router.Maps.{Map}
use aperture_router.Net.{Result, ok, err, ◌>>◌}
use aperture_router.Text.{Text, utf8}
use aperture_router.Config.{
  Config, Provider, openai_v1, openai_direct, anthropic, resolve_model_alias,
}
use aperture_router.Registry.{RegistryInner, get_providers_for_model}
use aperture_router.Upstream.Forward.{Chunks}
use aperture_router.Validation.{
  RequestError, refuse_if, many_messages, many_fields, wrong_endpoint, unreadable,
  validate_model_name, validate_role, validate_message_content, validate_max_tokens,
}
use aperture_router.Routes.{Reply, Handled, Attempt, Gateway}
use aperture_router.Routes.Checks.{
  MessageRequest, check_option, check_message_request, check_model, max_other_fields,
}
use aperture_router.Routes.Proxy.{proxy_handler_multi}
use aperture_router.Routes.Messages.{
  handle_non_streaming_conversion, handle_streaming_conversion, handle_anthropic_direct_streaming,
}

pub record ChatMessage : Type 0 where
  pub role : Text
  pub content : Option Value

-- The fields of a request that the handler reads.
pub record ChatCompletionRequest : Type 0 where
  pub model : Text
  pub messages : List ChatMessage
  pub max_tokens : Option ℕ
  pub other : Map Text Value

pub record AppState : Type 0 where
  pub config : Config
  pub multi_provider_enabled : Bool
  pub registry : RegistryInner
  pub discovery_has : Text → Bool
  pub gateway : Gateway

-- A reply, a stream of the upstream to pass on or to convert, a failed stream with its status, or a
-- refused request.
pub data Answer : Type 0 where
  replied : Reply → Answer
  passed_on : Chunks → Answer
  converted : Chunks → Answer
  stream_failed : ℕ → Answer
  refused : RequestError → Answer

abbrev pub refuse : RequestError → Handled Answer
refuse e = record { reply = refused e; sent = [] }

abbrev pub reply_with : Handled Reply → Handled Answer
reply_with handled = record { reply = replied handled.reply; sent = handled.sent }

abbrev stream_answer : (Chunks → Answer) → Result ℕ Chunks → Answer
stream_answer as_answer (ok chunks) = as_answer chunks
stream_answer as_answer (err status) = stream_failed status

abbrev stream_with : (Chunks → Answer) → Attempt Chunks → Handled Answer
stream_with as_answer attempt = record {
  reply = stream_answer as_answer attempt.outcome;
  sent = attempt.sent;
}

-- The rest of a handler behind its checks.
abbrev pub behind : Result RequestError Unit → Handled Answer → Handled Answer
behind (ok passed) handled = handled
behind (err e) handled = refuse e

abbrev pub is_anthropic : Provider → Bool
is_anthropic p = elim p.endpoint_style [
  | openai_v1 ↦ false
  | openai_direct ↦ false
  | anthropic ↦ true
]

abbrev pub content_text : Value → Option Text
content_text v = elim (Json.as_str v) [ none ↦ none | some s ↦ some (utf8 s) ]

abbrev check_content : Option Value → Result RequestError Unit
check_content none = ok tt
check_content (some v) = check_option validate_message_content (content_text v)

unfoldable pub check_chat_messages : List ChatMessage → Result RequestError Unit
check_chat_messages [] = ok tt
check_chat_messages (msg ∷ messages) =
    validate_role msg.role >> check_content msg.content >> check_chat_messages messages

unfoldable pub check_chat_request : ℕ → ChatCompletionRequest → Result RequestError Unit
check_chat_request max_messages request =
    validate_model_name request.model
    >> check_option validate_max_tokens request.max_tokens
    >> refuse_if (ltb max_messages (length request.messages)) many_messages
    >> check_chat_messages request.messages
    >> refuse_if (ltb max_other_fields (length request.other)) many_fields

-- serde_json's parser and printers, `as_f64` with the conversion to `f32`, and the fresh
-- identifier.
module _ (parse : String → Option Value) (print : Value → String) (from_str : Text → Option Value)
    (to_vec : Value → Option Text) (message_to_vec : MessageRequest → Option Text)
    (to_value : MessageRequest → Option Value) (chat_to_vec : ChatCompletionRequest → Option Text)
    (as_f32 : Value → Option ℕ) (id : String) (state : AppState) where
  abbrev is_streaming : MessageRequest → Bool
  is_streaming request = unwrap_or request.stream false

  abbrev convert : MessageRequest → List Provider → Option Value → Handled Answer
  convert request providers none = refuse unreadable
  convert request providers (some anthropic_value) =
      if is_streaming request
      then stream_with converted (
          handle_streaming_conversion parse print from_str to_vec id state.gateway anthropic_value
            providers)
      else reply_with (
          handle_non_streaming_conversion parse print from_str to_vec id state.gateway
            anthropic_value providers)

  abbrev send_direct : MessageRequest → List Provider → Handled Answer
  send_direct request providers =
      if is_streaming request
      then stream_with passed_on (
          handle_anthropic_direct_streaming parse print from_str to_vec id state.gateway
            (message_to_vec request) providers)
      else reply_with (
          proxy_handler_multi state.gateway state.multi_provider_enabled providers
            (utf8 "v1/messages") (message_to_vec request))

  abbrev dispatch : MessageRequest → List Provider → Handled Answer
  dispatch request providers =
      if is_empty (keep is_anthropic providers)
      then convert request providers (to_value request)
      else send_direct request (keep is_anthropic providers)

  unfoldable pub anthropic_messages : MessageRequest → Handled Answer
  anthropic_messages original =
      let request = record original { model = resolve_model_alias state.config original.model } in
      let providers = get_providers_for_model request.model state.registry in
      behind
        (check_message_request as_f32 state.config.security.max_messages request
          >> check_model state.multi_provider_enabled providers (state.discovery_has request.model))
        (dispatch request providers)

  unfoldable pub chat_completions : ChatCompletionRequest → Handled Answer
  chat_completions original =
      let request = record original { model = resolve_model_alias state.config original.model } in
      let all_providers = get_providers_for_model request.model state.registry in
      let providers = keep (λ p. not (is_anthropic p)) all_providers in
      behind
        (check_chat_request state.config.security.max_messages request
          >> check_model state.multi_provider_enabled all_providers
              (state.discovery_has request.model)
          >> refuse_if
              (is_empty providers && state.multi_provider_enabled && any is_anthropic all_providers)
              wrong_endpoint)
        (reply_with (
          proxy_handler_multi state.gateway state.multi_provider_enabled providers
            (utf8 "v1/chat/completions") (chat_to_vec request)))
