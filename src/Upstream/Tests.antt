-- ===== src/Upstream/Tests.antt =====
-- The client for upstream providers on concrete input.
use aperture_router.Prelude.{
  ℕ, ◌≤◌, ◌*◌, Option, none, some, if◌then◌else◌, ltb, All, ◌≡◌, refl, List, [], ◌∷◌, map, arith,
}
use aperture_router.Net.{IpAddr, v4, err, ok}
use aperture_router.Text.{
  digits_from, trim, trim_start, trim_end, same_text, ends_with, starts_with, strip_prefix, utf8,
  parse_u64, Text,
}
use aperture_router.Chunks.{join_ok, join}
use aperture_router.Upstream.Utf8.{fresh, utf8_stream, advance}
use aperture_router.Security.{
  is_metadata_endpoint, is_internal_ip_strict, is_internal_ip_impl, is_internal_v4, is_private,
  is_loopback, is_link_local, is_shared,
}
use aperture_router.Config.{anthropic}
use aperture_router.Upstream.Retry.{
  Response, Sent, send_with_429_retry, retry_loop, quota_exhausted, delay,
}
use aperture_router.Upstream.Attempts.{StopsAt, send_with_429_retry-StopsAt}
use aperture_router.Upstream.Waits.{total, send_with_429_retry-total}
use aperture_router.Upstream.Hosts.{
  Url, internal_address, validate_provider_url_host, validate_resolved_ips, check_addresses,
  check_transport, is_metadata_ip, of_octets,
}
use aperture_router.Upstream.Forward.{
  ProxyClient, Request, forward_request_to_url, forward_request_to_url_raw,
  forward_request_stream_to_url, forward_request, forward_request_stream,
}
use aperture_router.Upstream.Guarded.{IsSentOutside, forward_to_url-IsGuarded}
use aperture_router.Upstream.Gateway.{IsSentToGateway, forward_request-IsToGateway}
use aperture_router.Upstream.Decoding.{utf8_stream-join, decode, AreWhole}

-- "é" and "€", each cut inside.
abbrev pieces : List Text
pieces = (195 ∷ []) ∷ (169 ∷ 226 ∷ 130 ∷ []) ∷ (172 ∷ []) ∷ []

utf8_stream-join_example :
    (join_ok (utf8_stream 6 fresh (map ok pieces)) ≡ join pieces)
    × AreWhole (utf8_stream 6 fresh (map ok pieces))
unfolding decode advance join
utf8_stream-join_example = utf8_stream-join 6 pieces refl (omega arith)

-- An upstream that is busy for two attempts.
abbrev answer : ℕ → Response
answer status = record {
  status = status;
  ratelimit_remaining = none;
  retry_after = some (utf8 "1");
  chunks = [];
}

abbrev busy_twice : ℕ → Sent
busy_twice attempt = if ltb attempt 2 then ok (answer 429) else ok (answer 200)

abbrev no_clock : ℕ → Option ℕ
no_clock attempt = none

two_sleeps : (send_with_429_retry 500 busy_twice no_clock 5).sleeps ≡ 10000000 ∷ 10000000 ∷ []
unfolding send_with_429_retry retry_loop quota_exhausted delay parse_u64 digits_from trim trim_start
    trim_end same_text
two_sleeps = refl

send_with_429_retry-StopsAt_example :
    StopsAt busy_twice 0 5 (send_with_429_retry 500 busy_twice no_clock 5)
send_with_429_retry-StopsAt_example = send_with_429_retry-StopsAt 500 5 busy_twice no_clock

send_with_429_retry-total_example :
    total (send_with_429_retry 500 busy_twice no_clock 5).sleeps ≤ 444 * 10000000
send_with_429_retry-total_example =
    send_with_429_retry-total 500 5 busy_twice no_clock (omega arith) (omega arith)

-- One host that the parser knows, with two addresses, one of them internal.
abbrev provider_url : Url
provider_url = record { scheme = utf8 "https"; host_str = some (utf8 "a.b"); port = none }

abbrev parse_url : Text → Option Url
parse_url text = some provider_url

abbrev no_address : Text → Option IpAddr
no_address host = none

abbrev lookup : Text → ℕ → Option (List IpAddr)
lookup host port = some (v4 (of_octets 8 8 8 8) ∷ [])

abbrev rebound : Text → ℕ → Option (List IpAddr)
rebound host port = some (v4 (of_octets 8 8 8 8) ∷ v4 (of_octets 127 0 0 1) ∷ [])

abbrev upstream_of : Request → ℕ → Sent
upstream_of request = busy_twice

abbrev client : ProxyClient
client = record {
  aperture_config = record { base_url = utf8 "https://a.b"; api_key = some (utf8 "key") };
  max_streaming_size_bytes = 100;
  retry_attempts = 2;
  retry_base_delay_ms = 500;
}

rebinding_blocked :
    validate_provider_url_host no_address rebound provider_url ≡ err internal_address
unfolding validate_provider_url_host validate_resolved_ips check_addresses same_text
    is_metadata_endpoint is_internal_ip_strict is_internal_ip_impl is_internal_v4 is_private
    is_loopback is_link_local is_shared is_metadata_ip
rebinding_blocked = refl

forward_to_url-IsGuarded_example :
    let outside = IsSentOutside parse_url no_address lookup upstream_of no_clock client in
    let url = utf8 "https://a.b/v1/messages" in
    let key = some (utf8 "key") in
    All outside
      (forward_request_to_url parse_url no_address lookup upstream_of no_clock client url
        (utf8 "{}")
        key
        anthropic).requests
    × All outside
        (forward_request_to_url_raw parse_url no_address lookup upstream_of no_clock client url
          (utf8 "{}")
          key
          anthropic).requests
    × All outside
        (forward_request_stream_to_url parse_url no_address lookup upstream_of no_clock client
          (some 1)
          url
          (utf8 "{}")
          key
          anthropic).requests
forward_to_url-IsGuarded_example =
    forward_to_url-IsGuarded parse_url no_address lookup upstream_of no_clock client
      (utf8 "https://a.b/v1/messages") (utf8 "{}") (some (utf8 "key")) anthropic (some 1)

forward_request-IsToGateway_example :
    let sent =
      IsSentToGateway parse_url no_address lookup upstream_of no_clock client
        (utf8 "v1/messages")
        (utf8 "{}") in
    All sent
      (forward_request parse_url no_address lookup upstream_of no_clock client
        (utf8 "v1/messages")
        (utf8 "{}")).requests
    × All sent
        (forward_request_stream parse_url no_address lookup upstream_of no_clock client
          (utf8 "v1/messages")
          (utf8 "{}")).requests
unfolding check_transport ends_with starts_with strip_prefix same_text
forward_request-IsToGateway_example =
    forward_request-IsToGateway parse_url no_address lookup upstream_of no_clock client
      (utf8 "v1/messages") (utf8 "{}") refl
