-- ===== src/Routes/Proxy.antt =====
-- src/routes/proxy.rs: a request passed on as it is, to one provider after another. `body` is what
-- `serde_json::to_vec` makes of the request.
use aperture_router.Prelude.{ℕ, Bool, not, Option, none, some, List, [], ◌∷◌, if◌then◌else◌}
use aperture_router.Net.{Result, ok, err, bad_request}
use aperture_router.Text.{Text}
use aperture_router.Config.{Provider}
use aperture_router.Registry.{build_endpoint_url}
use aperture_router.HttpClient.{BodyError, read_body_capped, max_non_streaming_response_bytes}
use aperture_router.Upstream.Utf8.{start, lossy}
use aperture_router.Upstream.Retry.{Response}
use aperture_router.Upstream.Hosts.{ForwardError}
use aperture_router.Upstream.Forward.{take}
use aperture_router.Routes.{
  Reply, Handled, Attempt, Gateway, raw, bad_gateway, max_failover_attempts, provider_api_key,
  is_server_error, failover, json_error,
}

abbrev json_response : ℕ → Text → Reply
json_response status body = record { status = status; payload = raw body }

abbrev reply_of : ℕ → Result BodyError Text → Reply
reply_of status (ok bytes) = json_response status (lossy bytes start [])
reply_of status (err e) = json_error bad_gateway "Response too large"

unfoldable pub process_upstream_response : Response → Reply
process_upstream_response response =
    reply_of response.status (read_body_capped max_non_streaming_response_bytes response.chunks)

abbrev pub reply_to_default : Result ForwardError Response → Reply
reply_to_default (ok response) = process_upstream_response response
reply_to_default (err e) = json_error bad_gateway "Failed to forward request"

abbrev pub outcome_of : Result ForwardError Response → Result ℕ Reply
outcome_of (ok response) =
    if is_server_error response.status
    then err response.status
    else ok (process_upstream_response response)
outcome_of (err e) = err bad_gateway

abbrev pub or_failed : (ℕ → Reply) → Result ℕ Reply → Reply
or_failed failed (ok reply) = reply
or_failed failed (err status) = failed status

abbrev pub or_error : (ℕ → Reply) → Attempt Reply → Handled Reply
or_error failed attempt = record { reply = or_failed failed attempt.outcome; sent = attempt.sent }

abbrev pub invalid_format : Handled Reply
invalid_format = record { reply = json_error bad_request "Invalid request format"; sent = [] }

module _ (gateway : Gateway) where
  abbrev send_to_default : Text → Option Text → Handled Reply
  send_to_default endpoint none = invalid_format
  send_to_default endpoint (some body) =
      let exchange = gateway.forward_request endpoint body in
      record { reply = reply_to_default exchange.answer; sent = exchange.requests }

  -- `proxy_handler` is the same without the choice of a provider.
  unfoldable pub proxy_to_default_gateway : Text → Option Text → Handled Reply
  proxy_to_default_gateway endpoint body = send_to_default endpoint body

  unfoldable pub try_provider : Text → Text → Provider → Attempt Reply
  try_provider body default_endpoint provider =
      let exchange =
        gateway.forward_request_to_url_raw (build_endpoint_url provider default_endpoint) body
          (provider_api_key provider gateway.api_key gateway.base_url) provider.endpoint_style in
      record { outcome = outcome_of exchange.answer; sent = exchange.requests }

  abbrev route_to : List Provider → Text → Option Text → Handled Reply
  route_to [] default_endpoint body = proxy_to_default_gateway default_endpoint body
  route_to (provider ∷ providers) default_endpoint none = invalid_format
  route_to (provider ∷ []) default_endpoint (some body) =
      or_error (λ status. json_error bad_gateway "Failed to forward request")
        (try_provider body default_endpoint provider)
  route_to (provider ∷ second ∷ providers) default_endpoint (some body) =
      or_error (λ status. json_error status "All providers failed")
        (failover (try_provider body default_endpoint) bad_gateway
          (take max_failover_attempts (provider ∷ second ∷ providers)))

  unfoldable pub proxy_handler_multi : Bool → List Provider → Text → Option Text → Handled Reply
  proxy_handler_multi multi_provider_enabled providers default_endpoint body =
      if not multi_provider_enabled
      then proxy_to_default_gateway default_endpoint body
      else route_to providers default_endpoint body
