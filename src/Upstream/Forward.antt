-- ===== src/Upstream/Forward.antt =====
-- The forwarding methods of `ProxyClient`, with the requests that each one sends.
use aperture_router.Prelude.{
  ℕ, zero, suc, Bool, not, ◌&&◌, Option, none, some, List, [], ◌∷◌, ◌++◌, if◌then◌else◌, leb,
}
use aperture_router.Net.{IpAddr, Result, ok, err, ◌>>◌, ◌>>=◌}
use aperture_router.Text.{Text, utf8}
use aperture_router.Config.{ApertureConfig, EndpointStyle, openai_v1, openai_direct, anthropic}
use aperture_router.Upstream.Utf8.{StreamError, service_unavailable, fresh, utf8_stream}
use aperture_router.Upstream.Retry.{Response, Sent, Run, send_with_429_retry}
use aperture_router.Upstream.Hosts.{
  Url, ForwardError, bad_url, bad_scheme, request_failed, unavailable, timed_out, deny_if, is_web,
  validate_endpoint, validate_provider_url_host,
}

pub record ProxyClient : Type 0 where
  pub aperture_config : ApertureConfig
  pub max_streaming_size_bytes : ℕ
  pub retry_attempts : ℕ
  pub retry_base_delay_ms : ℕ

pub record Request : Type 0 where
  pub url : Url
  pub headers : List (Text × Text)
  pub body : Text

-- What a method returns, and the requests that it sent.
pub record Exchange (A : Type 0) : Type 0 where
  pub answer : Result ForwardError A
  pub requests : List Request

abbrev pub post : Url → Text → Request
post url body = record {
  url = url;
  headers = (utf8 "Content-Type", utf8 "application/json") ∷ [];
  body = body;
}

abbrev with_header : Text → Text → Request → Request
with_header name value request = record request { headers = request.headers ++ (name, value) ∷ [] }

unfoldable pub add_auth_header : Request → Text → EndpointStyle → Request
add_auth_header request key anthropic = with_header (utf8 "x-api-key") key request
add_auth_header request key openai_v1 =
    with_header (utf8 "authorization") (utf8 "Bearer " ++ key) request
add_auth_header request key openai_direct =
    with_header (utf8 "authorization") (utf8 "Bearer " ++ key) request

abbrev pub with_gateway_key : Option Text → Request → Request
with_gateway_key none request = request
with_gateway_key (some api_key) request = with_header (utf8 "x-api-key") api_key request

abbrev pub with_provider_key : Option Text → EndpointStyle → Request → Request
with_provider_key none endpoint_style request = request
with_provider_key (some key) endpoint_style request = add_auth_header request key endpoint_style

abbrev pub repeat {ℓ} : {A : Type ℓ} → ℕ → A → List A
repeat zero a = []
repeat (suc n) a = a ∷ repeat n a

abbrev pub take {ℓ} : {A : Type ℓ} → ℕ → List A → List A
take zero xs = []
take (suc n) [] = []
take (suc n) (x ∷ xs) = x ∷ take n xs

abbrev pub received : Sent → Result ForwardError Response
received (err e) = err request_failed
received (ok response) = ok response

-- `StatusCode::is_success`
abbrev pub is_success : ℕ → Bool
is_success status = leb 200 status && leb status 299

abbrev pub require_success : Response → Result ForwardError Response
require_success response = if is_success response.status then ok response else err unavailable

abbrev pub Chunks : Type 0
Chunks = List (Result StreamError Text)

-- A stream for the client, an error of the upstream as its one chunk.
abbrev pub stream_or_error : ℕ → Response → Chunks
stream_or_error max_size response =
    if is_success response.status
    then utf8_stream max_size fresh response.chunks
    else err service_unavailable ∷ []

-- The crate `url`, std's parser of addresses, the name lookup, what the upstream answers to the
-- attempts of a request, and the clock at each of them.
module _ (parse_url : Text → Option Url) (parse_ip : Text → Option IpAddr)
    (lookup_host : Text → ℕ → Option (List IpAddr)) (upstream : Request → ℕ → Sent)
    (clock : ℕ → Option ℕ) (client : ProxyClient) where
  abbrev run_of : Request → Run
  run_of request =
      send_with_429_retry client.retry_base_delay_ms (upstream request) clock client.retry_attempts

  -- A request for a URL that passed the checks, with its repetitions.
  unfoldable pub send :
      {A : Type 0}
      → (Url → Request)
      → (Response → Result ForwardError A)
      → Result ForwardError Url
      → Exchange A
  send make finish (err e) = record { answer = err e; requests = [] }
  send make finish (ok url) = record {
    answer = received (run_of (make url)).outcome >>= finish;
    requests = repeat (run_of (make url)).sends (make url);
  }

  abbrev pub gateway_request : Text → Url → Request
  gateway_request body url = with_gateway_key client.aperture_config.api_key (post url body)

  unfoldable pub forward_request : Text → Text → Exchange Response
  forward_request endpoint body =
      send (gateway_request body) require_success
        (validate_endpoint parse_url parse_ip client.aperture_config endpoint)

  unfoldable pub forward_request_stream : Text → Text → Exchange Chunks
  forward_request_stream endpoint body =
      send (gateway_request body)
        (λ response. ok (stream_or_error client.max_streaming_size_bytes response))
        (validate_endpoint parse_url parse_ip client.aperture_config endpoint)

  abbrev pub check_web : Option Url → Result ForwardError Url
  check_web none = err bad_url
  check_web (some url) =
      deny_if (not (is_web url.scheme)) bad_scheme
      >> validate_provider_url_host parse_ip lookup_host url
      >> ok url

  abbrev pub provider_request : Text → Option Text → EndpointStyle → Url → Request
  provider_request body api_key endpoint_style url =
      with_provider_key api_key endpoint_style (post url body)

  unfoldable pub forward_request_to_url :
      Text → Text → Option Text → EndpointStyle → Exchange Response
  forward_request_to_url url body api_key endpoint_style =
      send (provider_request body api_key endpoint_style) require_success
        (check_web (parse_url url))

  unfoldable pub forward_request_to_url_raw :
      Text → Text → Option Text → EndpointStyle → Exchange Response
  forward_request_to_url_raw url body api_key endpoint_style =
      send (provider_request body api_key endpoint_style) ok (check_web (parse_url url))

  abbrev pub as_stream : Response → Result ForwardError Chunks
  as_stream response = require_success response >>= λ r.
      ok (utf8_stream client.max_streaming_size_bytes fresh r.chunks)

  -- With the number of requests that were sent when the time ran out, if it did.
  abbrev pub cut_off : {A : Type 0} → Option ℕ → Exchange A → Exchange A
  cut_off none exchange = exchange
  cut_off (some sends) exchange = record {
    answer = err timed_out;
    requests = take sends exchange.requests;
  }

  unfoldable pub forward_request_stream_to_url :
      Option ℕ → Text → Text → Option Text → EndpointStyle → Exchange Chunks
  forward_request_stream_to_url timeout url body api_key endpoint_style =
      cut_off timeout
        (send (provider_request body api_key endpoint_style) as_stream (check_web (parse_url url)))
