-- ===== src/Routes/Tests.antt =====
-- The handlers on concrete input.
use aperture_router.Prelude.{
  false, ℕ, ◌≡◌, refl, String, true, Option, none, some, List, [], ◌∷◌, All, if◌then◌else◌, ◌==◌,
  String,
}
use aperture_router.Json.{Value, null}
use aperture_router.Net.{IpAddr, v4, ok, err}
use aperture_router.Lines.{split_lines, trim_line}
use aperture_router.Text.{strip_prefix, trim_end_matches, same_text, Text, text_eq, utf8}
use aperture_router.Config.{Config, Provider, openai_v1}
use aperture_router.Upstream.Retry.{Response, Sent}
use aperture_router.Upstream.Hosts.{Url, of_octets, unavailable}
use aperture_router.Upstream.Forward.{ProxyClient, Request, take}
use aperture_router.Routes.{Gateway, json_error, anthropic_server_error, max_failover_attempts, raw}
use aperture_router.Routes.Proxy.{try_provider, proxy_handler_multi}
use aperture_router.Routes.Messages.{try_provider_non_streaming, handle_non_streaming_conversion}
use aperture_router.Routes.Failover.{
  FailsOver, proxy_handler_multi-FailsOver, handle_non_streaming_conversion-FailsOver,
}
use aperture_router.Routes.Credentials.{IsForProvider, gateway_of, try_provider-IsForProvider}
use aperture_router.Prelude.{◌↔◌}
use aperture_router.Registry.{empty}
use aperture_router.Routes.Checks.{MessageRequest, plain, check_message_request}
use aperture_router.Routes.Accepted.{IsAcceptable, check_message_request_iff}
use aperture_router.Routes.Endpoints.{AppState, anthropic_messages}
use aperture_router.Routes.Refusal.{IsRefusedOrFit, anthropic_messages-IsRefusedOrFit}
use aperture_router.Routes.Events.{events_of, process_sse_chunk_lines_anthropic, direct_events}

abbrev provider : Text → Provider
provider name = record {
  name = name;
  base_url = name;
  api_key = none;
  endpoint_style = openai_v1;
  models = [];
  enabled = true;
}

abbrev first_one : Provider
first_one = provider (utf8 "https://a")

abbrev second_one : Provider
second_one = provider (utf8 "https://b")

abbrev answer : ℕ → Response
answer status = record {
  status = status;
  ratelimit_remaining = none;
  retry_after = none;
  chunks = ok (utf8 "{}") ∷ [];
}

abbrev request_to : Request
request_to = record {
  url = record { scheme = utf8 "https"; host_str = none; port = none };
  headers = [];
  body = [];
}

-- The first provider's server fails, the second one's answers.
abbrev gateway : Gateway
gateway = record {
  base_url = utf8 "https://gw";
  api_key = none;
  forward_request = λ endpoint body. record { answer = err unavailable; requests = [] };
  forward_request_stream = λ endpoint body. record { answer = err unavailable; requests = [] };
  forward_request_to_url_raw = λ url body key style. record {
    answer = ok (answer (if url == utf8 "https://a/v1/messages" then 503 else 200));
    requests = request_to ∷ [];
  };
  forward_request_stream_to_url =
      λ url body key style. record { answer = err unavailable; requests = [] };
}

proxy_handler_multi-FailsOver_example :
    FailsOver
      (try_provider gateway (utf8 "{}") (utf8 "v1/messages"))
      (λ status. json_error status "All providers failed")
      (take max_failover_attempts (first_one ∷ second_one ∷ []))
      (proxy_handler_multi gateway true
        (first_one ∷ second_one ∷ [])
        (utf8 "v1/messages")
        (some (utf8 "{}")))
proxy_handler_multi-FailsOver_example =
    proxy_handler_multi-FailsOver gateway (utf8 "{}") (utf8 "v1/messages") first_one second_one []

abbrev parse : String → Option Value
parse s = none

abbrev print : Value → String
print v = ""

abbrev from_str : Text → Option Value
from_str t = some null

abbrev to_vec : Value → Option Text
to_vec v = some (utf8 "{}")

handle_non_streaming_conversion-FailsOver_example :
    FailsOver
      (try_provider_non_streaming parse print from_str to_vec "msg_1" gateway (utf8 "{}"))
      (λ status. anthropic_server_error status "All providers failed")
      (take max_failover_attempts (first_one ∷ second_one ∷ []))
      (handle_non_streaming_conversion parse print from_str to_vec "msg_1" gateway null
        (first_one ∷ second_one ∷ []))
handle_non_streaming_conversion-FailsOver_example =
    handle_non_streaming_conversion-FailsOver parse print from_str to_vec "msg_1" gateway null
      (utf8 "{}") first_one second_one [] refl

abbrev parse_url : Text → Option Url
parse_url text = some (record { scheme = utf8 "https"; host_str = some (utf8 "a"); port = none })

abbrev no_address : Text → Option IpAddr
no_address host = none

abbrev lookup : Text → ℕ → Option (List IpAddr)
lookup host port = some (v4 (of_octets 8 8 8 8) ∷ [])

abbrev upstream : Request → ℕ → Sent
upstream request attempt = ok (answer 200)

abbrev no_clock : ℕ → Option ℕ
no_clock attempt = none

abbrev in_time : Text → Option ℕ
in_time url = none

abbrev client : ProxyClient
client = record {
  aperture_config = record { base_url = utf8 "https://gw"; api_key = some (utf8 "key") };
  max_streaming_size_bytes = 100;
  retry_attempts = 2;
  retry_base_delay_ms = 500;
}

try_provider-IsForProvider_example :
    let through = gateway_of parse_url no_address lookup upstream no_clock client in_time in
    let fits =
      IsForProvider parse_url no_address lookup upstream no_clock client in_time first_one in
    All
      (fits (utf8 "v1/messages") (utf8 "{}"))
      (try_provider through (utf8 "{}") (utf8 "v1/messages") first_one).sent
    × All
        (fits (utf8 "v1/chat/completions") (utf8 "{}"))
        (try_provider_non_streaming parse print from_str to_vec "msg_1" through
          (utf8 "{}")
          first_one).sent
try_provider-IsForProvider_example =
    try_provider-IsForProvider parse_url no_address lookup upstream no_clock client in_time parse
      print from_str to_vec "msg_1" first_one (utf8 "v1/messages") (utf8 "{}")

-- A line that a chunk cuts in two arrives without its second half and without its name.
cut_line :
    direct_events (ok (utf8 "event: ping\n") ∷ ok (utf8 "data: {\"a\":") ∷ ok (utf8 "1}\n") ∷ [])
    ≡ record { event_type = []; payload = raw (utf8 "{\"a\":") } ∷ []
unfolding direct_events process_sse_chunk_lines_anthropic events_of split_lines strip_prefix
    trim_line trim_end_matches same_text
cut_line = refl

abbrev config : Config
config = record {
  port = 8080;
  aperture = record { base_url = utf8 "https://gw"; api_key = none };
  http = record { upstream_retry_attempts = 2; upstream_retry_base_delay_ms = 500 };
  rate_limit = record { requests_per_second = 10; burst_size = 20 };
  security = record {
    api_keys = [];
    admin_api_keys = [];
    max_body_size_bytes = 1024;
    max_auth_attempts = 5;
    auth_window_secs = 60;
    ban_duration_secs = 300;
    require_auth_in_prod = false;
    max_json_depth = 64;
    max_streaming_size_bytes = 1024;
    max_messages = 100;
  };
  model_aliases = (utf8 "fast", utf8 "glm") ∷ [];
  providers = [];
}

abbrev state : AppState
state = record {
  config = config;
  multi_provider_enabled = true;
  registry = empty;
  discovery_has = λ model. model == utf8 "glm";
  gateway = gateway;
}

abbrev hello : MessageRequest
hello = record {
  model = utf8 "fast";
  max_tokens = some 100;
  messages = record { role = utf8 "user"; content = plain (utf8 "hello") } ∷ [];
  temperature = some 0;
  stream = none;
  other = [];
}

abbrev as_f32 : Value → Option ℕ
as_f32 v = none

check_message_request_iff_example :
    (check_message_request as_f32 100 hello ≡ ok tt) ↔ IsAcceptable as_f32 100 hello
check_message_request_iff_example = check_message_request_iff as_f32 100 hello

anthropic_messages-IsRefusedOrFit_example : IsRefusedOrFit as_f32 state hello (
    anthropic_messages parse print from_str to_vec
      (λ r. some [])
      (λ r. some null)
      (λ r. none)
      as_f32
      "msg_1"
      state
      hello)
anthropic_messages-IsRefusedOrFit_example =
    anthropic_messages-IsRefusedOrFit parse print from_str to_vec (λ r. some []) (λ r. some null)
      (λ r. none) as_f32 "msg_1" state hello
