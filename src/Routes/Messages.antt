-- ===== src/Routes/Messages.antt =====
-- src/routes/messages.rs: a request in Anthropic's format for providers of OpenAI's. serde_json's
-- parser and printer, on the strings inside a value and on the bytes of a body, and the source's
-- fresh identifier are parameters.
use aperture_router.Prelude.{
  ℕ, String, true, not, Option, none, some, List, [], ◌∷◌, if◌then◌else◌, and_then, unwrap_or,
}
use aperture_router.Json
use aperture_router.Json.{Value, string, bool, json, get_str, set_key}
use aperture_router.Net.{Result, ok, err, bad_request}
use aperture_router.Text.{Text, utf8}
use aperture_router.Config.{Provider, anthropic}
use aperture_router.Registry.{build_endpoint_url}
use aperture_router.HttpClient.{
  BodyError, read_body_capped, max_non_streaming_response_bytes, max_error_body_bytes,
}
use aperture_router.Conversion.Request.{anthropic_request_to_openai}
use aperture_router.Conversion.Response.{openai_response_to_anthropic}
use aperture_router.Upstream.Utf8.{start, lossy}
use aperture_router.Upstream.Retry.{Response}
use aperture_router.Upstream.Hosts.{ForwardError}
use aperture_router.Upstream.Forward.{Chunks, is_success, take}
use aperture_router.Routes.{
  Reply, Handled, Attempt, Gateway, value, bad_gateway, max_failover_attempts, provider_api_key,
  is_server_error, failover, anthropic_server_error,
}
use aperture_router.Routes.Proxy.{or_error}

abbrev pub error_field : String → String → Option Value → String
error_field name default none = default
error_field name default (some v) =
    unwrap_or (and_then (and_then (Json.get "error" v) (Json.get name)) Json.as_str) default

module _ (parse : String → Option Value) (print : Value → String) (from_str : Text → Option Value)
    (to_vec : Value → Option Text) (id : String) (gateway : Gateway) where
  -- The body of an error, in Anthropic's form.
  unfoldable pub convert_openai_error_to_anthropic : Text → Value
  convert_openai_error_to_anthropic openai_error_body =
      let parsed = from_str openai_error_body in
      json (
        ("type", string "error")
        ∷ (
          "error",
          json (
              ("type", string (error_field "type" "api_error" parsed))
              ∷ ("message", string (error_field "message" "Upstream error" parsed))
              ∷ []),
        )
        ∷ [])

  abbrev text_or_empty : Result BodyError Text → Text
  text_or_empty (ok bytes) = lossy bytes start []
  text_or_empty (err e) = []

  abbrev converted : Option Value → Result ℕ Reply
  converted none = err bad_gateway
  converted (some openai_response) = ok (record {
    status = 200;
    payload = value (openai_response_to_anthropic parse id openai_response);
  })

  abbrev converted_body : Result BodyError Text → Result ℕ Reply
  converted_body (err e) = err bad_gateway
  converted_body (ok bytes) = converted (from_str (lossy bytes start []))

  abbrev pub anthropic_outcome : Result ForwardError Response → Result ℕ Reply
  anthropic_outcome (err e) = err bad_gateway
  anthropic_outcome (ok response) =
      if is_server_error response.status
      then err response.status
      else if not (is_success response.status)
      then ok (record {
        status = response.status;
        payload = value (
            convert_openai_error_to_anthropic
              (text_or_empty (read_body_capped max_error_body_bytes response.chunks)));
      })
      else converted_body (read_body_capped max_non_streaming_response_bytes response.chunks)

  unfoldable pub try_provider_non_streaming : Text → Provider → Attempt Reply
  try_provider_non_streaming openai_body provider =
      let exchange =
        gateway.forward_request_to_url_raw
          (build_endpoint_url provider (utf8 "v1/chat/completions")) openai_body
          (provider_api_key provider gateway.api_key gateway.base_url) provider.endpoint_style in
      record { outcome = anthropic_outcome exchange.answer; sent = exchange.requests }

  abbrev default_parsed : Option Value → Reply
  default_parsed none = anthropic_server_error bad_gateway "Invalid upstream response"
  default_parsed (some openai_response) = record {
    status = 200;
    payload = value (openai_response_to_anthropic parse id openai_response);
  }

  abbrev default_body : Result BodyError Text → Reply
  default_body (err e) = anthropic_server_error bad_gateway "Upstream response too large"
  default_body (ok bytes) = default_parsed (from_str (lossy bytes start []))

  abbrev default_reply : Result ForwardError Response → Reply
  default_reply (err e) = anthropic_server_error bad_gateway "Failed to forward request"
  default_reply (ok response) =
      if not (is_success response.status)
      then anthropic_server_error bad_gateway "Service temporarily unavailable"
      else default_body (read_body_capped max_non_streaming_response_bytes response.chunks)

  abbrev to_default : Text → Handled Reply
  to_default openai_body =
      let exchange = gateway.forward_request (utf8 "v1/chat/completions") openai_body in
      record { reply = default_reply exchange.answer; sent = exchange.requests }

  abbrev convert_for : List Provider → Option Text → Handled Reply
  convert_for providers none = record {
    reply = anthropic_server_error bad_request "Invalid request format";
    sent = [];
  }
  convert_for [] (some openai_body) = to_default openai_body
  convert_for (provider ∷ []) (some openai_body) =
      or_error (λ status. anthropic_server_error bad_gateway "Failed to forward request")
        (try_provider_non_streaming openai_body provider)
  convert_for (provider ∷ second ∷ providers) (some openai_body) =
      or_error (λ status. anthropic_server_error status "All providers failed")
        (failover (try_provider_non_streaming openai_body) bad_gateway
          (take max_failover_attempts (provider ∷ second ∷ providers)))

  unfoldable pub handle_non_streaming_conversion : Value → List Provider → Handled Reply
  handle_non_streaming_conversion anthropic_value providers =
      convert_for providers (to_vec (anthropic_request_to_openai print anthropic_value))

  abbrev stream_outcome : Result ForwardError Chunks → Result ℕ Chunks
  stream_outcome (ok stream) = ok stream
  stream_outcome (err e) = err bad_gateway

  unfoldable pub try_provider_streaming : Text → Provider → Attempt Chunks
  try_provider_streaming openai_body provider =
      let exchange =
        gateway.forward_request_stream_to_url
          (build_endpoint_url provider (utf8 "v1/chat/completions")) openai_body
          (provider_api_key provider gateway.api_key gateway.base_url) provider.endpoint_style in
      record { outcome = stream_outcome exchange.answer; sent = exchange.requests }

  -- The upstream's chunks, which `build_anthropic_sse` hands to the converter.
  abbrev stream_for : List Provider → Option Text → Attempt Chunks
  stream_for providers none = record { outcome = err bad_request; sent = [] }
  stream_for [] (some openai_body) =
      let exchange = gateway.forward_request_stream (utf8 "v1/chat/completions") openai_body in
      record { outcome = stream_outcome exchange.answer; sent = exchange.requests }
  stream_for (provider ∷ []) (some openai_body) = try_provider_streaming openai_body provider
  stream_for (provider ∷ second ∷ providers) (some openai_body) =
      failover (try_provider_streaming openai_body) bad_gateway
        (take max_failover_attempts (provider ∷ second ∷ providers))

  unfoldable pub handle_streaming_conversion : Value → List Provider → Attempt Chunks
  handle_streaming_conversion anthropic_value providers =
      stream_for providers
        (to_vec (set_key "stream" (bool true) (anthropic_request_to_openai print anthropic_value)))

  abbrev try_provider_direct : Text → Provider → Attempt Chunks
  try_provider_direct body provider =
      let exchange =
        gateway.forward_request_stream_to_url (build_endpoint_url provider (utf8 "v1/messages"))
          body (provider_api_key provider gateway.api_key gateway.base_url) anthropic in
      record { outcome = stream_outcome exchange.answer; sent = exchange.requests }

  -- Every failure of the loop has the status that it returns at its end.
  unfoldable pub handle_anthropic_direct_streaming : Option Text → List Provider → Attempt Chunks
  handle_anthropic_direct_streaming none providers = record { outcome = err bad_request; sent = [] }
  handle_anthropic_direct_streaming (some body) providers =
      failover (try_provider_direct body) bad_gateway (take max_failover_attempts providers)
