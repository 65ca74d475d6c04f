-- ===== src/Lib.antt =====
-- Verification of aperture-router, a gateway between clients of the OpenAI and Anthropic protocols and
-- their upstreams. The library holds the parts of the Rust program that decide: who may send a request,
-- how often, to which provider and host, with which key, and what becomes of a body or a stream on its
-- way. The HTTP server and client (axum, reqwest), the command line and all file and network access are
-- not modelled.
--
-- Parts and files:
-- - RateLimit (src/middleware/rate_limit.rs): `RateLimiter` as a record; `check_rate_limit` and a round
--   of the cleanup task take the instant that they read and return the new state. Tracking holds the
--   eviction of the oldest address, which the authentication shares.
-- - Auth (src/middleware/auth.rs): `AuthState` with its methods, and in Auth/Middleware
--   `extract_client_ip`, `auth_middleware` and `admin_auth_middleware`, which call the limiter as the
--   source does. A method holds its locks from its first access to its last, so it is one step; the
--   interleavings of requests are sequences of steps (`Event`, `run`).
-- - Streaming (src/routes/streaming.rs): Streaming/Buffer has `SseLineBuffer` and `buffered_lines`,
--   Streaming/Screen `process_sse_chunk_lines`, `is_thinking_block` and `detect_wire_format`,
--   Streaming/Depth `parse_json_with_depth_limit`, Streaming/Request `handle_proxy_stream`.
-- - Converter (src/types/conversion.rs): `OpenAIToAnthropicStreamConverter`. A method is a composition
--   of steps that push events and change the state; Converter/Tools has one tool call delta,
--   Converter/Chunk `process_openai_chunk` and `convert_chunk`. Converter/Monitor is the client of the
--   stream, written without regard to the converter, and Converter/Relation how the two go together.
--   What the client may be left with at the end is said in Converter/Closing.
-- - Conversion (src/types/conversion.rs): the conversions of whole bodies, `anthropic_request_to_openai`
--   and `openai_response_to_anthropic`. Blocks are read in Conversion/Content, messages are built in
--   Conversion/Messages.
-- - Security (src/security/mod.rs): internal addresses, metadata endpoints and blocked hosts.
-- - Config (src/config.rs): `Config::validate`, with the settings that it reads.
-- - Registry (src/provider/registry.rs): `ProviderRegistry`, the routes from models to providers. An
--   update is a composition of its loops; Registry/Routes, Links, Fixed and Known follow one route or
--   all routes through them.
-- - Discovery (src/discovery/models.rs): `ModelDiscovery`, whose `fetch_models` makes up to three
--   attempts and replaces the state as a whole, or leaves it.
-- - HttpClient (src/http_client.rs): the endpoints of the gateway and `read_body_capped`.
-- - Upstream (src/proxy/client.rs): `ProxyClient`. Upstream/Hosts has the checks of URLs and hosts,
--   Upstream/Retry `send_with_429_retry`, Upstream/Utf8 `make_utf8_stream`, and Upstream/Forward the
--   forwarding methods, each of which gives its result and the requests that it sent.
-- - Validation (src/types/validation.rs): the limits on the parts of a request.
-- - Routes (src/routes): Routes/Checks and Routes/Endpoints have `anthropic_messages` and
--   `chat_completions` from the checks to the reply, Routes/Proxy and Routes/Messages the handlers that
--   try one provider after another, and Routes/Events the events of a streamed reply. The handlers see
--   the client as `Gateway`, a record of its methods; Routes/Credentials fills it with those of
--   Upstream.
-- - Shared: Chunks (streams as lists of results), Prelude (names and lists over native numbers), Maps (`HashMap` as an association list in
--   iteration order), Text (`str` as UTF-8 bytes), Lines, Net (addresses, `Result`), Json
--   (`serde_json::Value`).
--
-- Numbers: instants and durations are numbers on one clock; token counts are `u32` and wrap at 2^32,
-- `parse_u64` rejects what 64 bits do not hold, and `usize` counters of events and list lengths stay
-- below 2^64 by memory. A delay of the retry loop is an exact number of tenths of a microsecond, before
-- `mul_f64` rounds it to nanoseconds; an `f32` is its bit pattern. No definition runs on fuel but the printing of a slot number, whose fuel is one
-- more than the number.
--
-- Parameters stand for code outside the repository: serde_json's parser and printer (`from_str`,
-- `to_vec`, `to_string`), std's address parser (`parse_ip`), `url::Url::parse` with its accessors
-- (`url_host`, `parse_url`), the name lookup of tokio (`lookup_host`), what an upstream answers to each
-- attempt of a request (`upstream`), the clock of the jitter, whether a timeout strikes, the comparison
-- of `subtle`, of which `ConstantTimeEq` states that it decides equality, fresh identifiers, and
-- whether the build has debug assertions.
--
-- Not modelled: the timer of the refresh task, the status and admin routes, the loading and saving of the
-- configuration, and the command line. The client looks a name up again when it connects, after the
-- checks; that lookup is reqwest's. A request sees one registry and one discovery, although the source
-- locks the registry anew for each lookup. The order of the fields of a JSON object, which the
-- protocols do not use, is the order in which they are set.
pub mod Prelude
pub mod Maps
pub mod Net
pub mod Text
pub mod Tracking
pub mod Lines
pub mod Chunks
pub mod Json
pub mod RateLimit
pub mod Auth
pub mod Streaming
pub mod Converter
pub mod Conversion
pub mod Security
pub mod Config
pub mod Discovery
pub mod HttpClient
pub mod Registry
pub mod Routes
pub mod Upstream
pub mod Validation
