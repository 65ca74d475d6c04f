-- ===== src/Routes.antt =====
-- src/routes: what the handlers share. A reply is a status and a body; a body made by `json!` is
-- kept as its value, which serde_json prints.
pub mod Proxy
pub mod Messages
pub mod Checks
pub mod Accepted
pub mod Endpoints
pub mod Refusal
pub mod Events
pub mod Failover
pub mod Credentials
mod Tests
use aperture_router.Prelude.{
  ℕ, String, Bool, true, false, ◌&&◌, Option, none, some, List, [], ◌∷◌, ◌++◌, if◌then◌else◌, leb,
  ◌==◌,
}
use aperture_router.Json.{Value, string, json}
use aperture_router.Net.{Result, ok, err, bad_request}
use aperture_router.Text.{Text, text_eq, trim_end_matches}
use aperture_router.Config.{Provider, EndpointStyle}
use aperture_router.Upstream.Retry.{Response}
use aperture_router.Upstream.Forward.{Request, Exchange, Chunks}

abbrev pub max_failover_attempts : ℕ
max_failover_attempts = 3

abbrev pub bad_gateway : ℕ
bad_gateway = 502

pub data Payload : Type 0 where
  raw : Text → Payload
  value : Value → Payload

pub record Reply : Type 0 where
  pub status : ℕ
  pub payload : Payload

-- What a handler returns, and the requests that it sent.
pub record Handled (A : Type 0) : Type 0 where
  pub reply : A
  pub sent : List Request

-- A try at one provider: its result, or the status of its failure.
pub record Attempt (A : Type 0) : Type 0 where
  pub outcome : Result ℕ A
  pub sent : List Request

-- The client as the handlers use it.
pub record Gateway : Type 0 where
  pub base_url : Text
  pub api_key : Option Text
  pub forward_request : Text → Text → Exchange Response
  pub forward_request_stream : Text → Text → Exchange Chunks
  pub forward_request_to_url_raw : Text → Text → Option Text → EndpointStyle → Exchange Response
  pub forward_request_stream_to_url : Text → Text → Option Text → EndpointStyle → Exchange Chunks

-- The key of the gateway is for the gateway's own address only.
abbrev default_key_for : Provider → Option Text → Text → Option Text
default_key_for provider default_key gateway_url =
    if trim_end_matches 47 provider.base_url == trim_end_matches 47 gateway_url
    then default_key
    else none

abbrev own_key_or : Option Text → Option Text → Option Text
own_key_or (some key) other = some key
own_key_or none other = other

unfoldable pub provider_api_key : Provider → Option Text → Text → Option Text
provider_api_key provider default_key gateway_url =
    own_key_or provider.api_key (default_key_for provider default_key gateway_url)

-- `StatusCode::is_server_error`
abbrev pub is_server_error : ℕ → Bool
is_server_error status = leb 500 status && leb status 599

abbrev pub failover_step : {A : Type 0} → Result ℕ A → List Request → (ℕ → Attempt A) → Attempt A
failover_step (ok a) sent rest = record { outcome = ok a; sent = sent }
failover_step (err status) sent rest = record {
  outcome = (rest status).outcome;
  sent = sent ++ (rest status).sent;
}

-- The loop over the providers, with the status of the last failure.
unfoldable pub failover : {A : Type 0} → (Provider → Attempt A) → ℕ → List Provider → Attempt A
failover try last_error [] = record { outcome = err last_error; sent = [] }
failover try last_error (provider ∷ providers) =
    failover_step (try provider).outcome (try provider).sent
      (λ status. failover try status providers)

-- `{"error": message}`
abbrev pub json_error : ℕ → String → Reply
json_error status message = record {
  status = status;
  payload = value (json (("error", string message) ∷ []));
}

abbrev pub anthropic_error : ℕ → String → String → Reply
anthropic_error status error_type message = record {
  status = status;
  payload = value (
      json (
        ("type", string "error")
        ∷ ("error", json (("type", string error_type) ∷ ("message", string message) ∷ []))
        ∷ []));
}

abbrev pub anthropic_server_error : ℕ → String → Reply
anthropic_server_error status message = anthropic_error status "api_error" message
