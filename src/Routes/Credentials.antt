-- ===== src/Routes/Credentials.antt =====
-- Where the handlers send, and with which key, when they use the client of `ProxyClient`.
use aperture_router.Prelude.{
  ℕ, ◌≡◌, refl, ◌⊎◌, inl, inr, String, Option, none, some, List, All, Bool-cases, ◌==◌, ==_iff,
}
use aperture_router.Json.{Value}
use aperture_router.Net.{IpAddr, ok}
use aperture_router.Text.{Text, text_eq, utf8, trim_end_matches}
use aperture_router.Config.{Provider}
use aperture_router.Registry.{build_endpoint_url}
use aperture_router.Upstream.Retry.{Sent}
use aperture_router.Upstream.Hosts.{Url}
use aperture_router.Upstream.Forward.{
  ProxyClient, Request, check_web, provider_request, forward_request, forward_request_stream,
  forward_request_to_url_raw, forward_request_stream_to_url, with_provider_key, post,
}
use aperture_router.Upstream.Guarded.{
  IsGuarded, send-All, check_web-ok, check_web-IsGuarded, url_of_provider_key,
}
use aperture_router.Routes.{Gateway, provider_api_key, default_key_for, own_key_or}
use aperture_router.Routes.Proxy.{try_provider}
use aperture_router.Routes.Messages.{try_provider_non_streaming}

-- The key of a provider's requests: its own, or the gateway's if both have one address, or none.
abbrev HasOwnKey : Provider → Option Text → Text → Type 0
HasOwnKey provider default_key gateway_url =
    let key = provider_api_key provider default_key gateway_url in
    (key ≡ none)
    ⊎ ((key ≡ provider.api_key)
        ⊎ ((key ≡ default_key)
            × (trim_end_matches 47 provider.base_url ≡ trim_end_matches 47 gateway_url)))

provider_api_key-HasOwnKey :
    (provider : Provider) (default_key : Option Text) (gateway_url : Text)
    → HasOwnKey provider default_key gateway_url
unfolding provider_api_key
provider_api_key-HasOwnKey provider default_key gateway_url = go provider.api_key
  where
    go :
        (own : Option Text)
        → let key = own_key_or own (default_key_for provider default_key gateway_url) in
          (key ≡ none)
          ⊎ ((key ≡ own)
              ⊎ ((key ≡ default_key)
                  × (trim_end_matches 47 provider.base_url ≡ trim_end_matches 47 gateway_url)))
    go (some key) = inr (inl refl)
    go none =
        elim (Bool-cases
          (trim_end_matches 47 provider.base_url == trim_end_matches 47 gateway_url)) [
            | inr other ↦ rw other (inl refl)
            | inl same ↦ rw same (inr (inr (refl, (==_iff _ _).0 same)))
          ]

module _ (parse_url : Text → Option Url) (parse_ip : Text → Option IpAddr)
    (lookup_host : Text → ℕ → Option (List IpAddr)) (upstream : Request → ℕ → Sent)
    (clock : ℕ → Option ℕ) (client : ProxyClient) (timeout : Text → Option ℕ) where
  -- The client as the handlers hold it. `timeout` says for each URL whether the time runs out.
  abbrev pub gateway_of : Gateway
  gateway_of = record {
    base_url = client.aperture_config.base_url;
    api_key = client.aperture_config.api_key;
    forward_request = forward_request parse_url parse_ip lookup_host upstream clock client;
    forward_request_stream =
        forward_request_stream parse_url parse_ip lookup_host upstream clock client;
    forward_request_to_url_raw =
        forward_request_to_url_raw parse_url parse_ip lookup_host upstream clock client;
    forward_request_stream_to_url = λ url.
        forward_request_stream_to_url parse_url parse_ip lookup_host upstream clock client
          (timeout url) url;
  }

  -- A request for an endpoint of a provider: to its URL, which is guarded, with its key.
  pub record IsForProvider (provider : Provider) (endpoint body : Text) (r : Request) : Type 0 where
    pub place : parse_url (build_endpoint_url provider endpoint) ≡ some r.url
    pub guarded : IsGuarded parse_ip lookup_host r.url
    pub made :
        r
        ≡ with_provider_key
            (provider_api_key provider client.aperture_config.api_key
              client.aperture_config.base_url)
            provider.endpoint_style
            (post r.url body)
    pub key : HasOwnKey provider client.aperture_config.api_key client.aperture_config.base_url

  found :
      (url : Option Url) (u : Url)
      → check_web parse_url parse_ip lookup_host upstream clock client url ≡ ok u
      → url ≡ some u
  found none u h = absurd (cc h)
  found (some v) u h =
      cc (check_web-ok parse_url parse_ip lookup_host upstream clock client v u h).0

  for_provider :
      (provider : Provider) (endpoint body : Text) (u : Url)
      → let key =
          provider_api_key provider client.aperture_config.api_key
            client.aperture_config.base_url in
        let url = build_endpoint_url provider endpoint in
        check_web parse_url parse_ip lookup_host upstream clock client (parse_url url) ≡ ok u
        → IsForProvider provider endpoint body (
            provider_request parse_url parse_ip lookup_host upstream clock client body key
              provider.endpoint_style u)
  for_provider provider endpoint body u passed =
      let key =
        provider_api_key provider client.aperture_config.api_key client.aperture_config.base_url in
      let same = url_of_provider_key key provider.endpoint_style (post u body) in
      record {
        place = rw same (found (parse_url (build_endpoint_url provider endpoint)) u passed);
        guarded = rw same (
            check_web-IsGuarded parse_url parse_ip lookup_host upstream clock client
              (parse_url (build_endpoint_url provider endpoint)) u passed);
        made = rw same refl;
        key =
            provider_api_key-HasOwnKey provider client.aperture_config.api_key
              client.aperture_config.base_url;
      }

  raw_requests :
      (provider : Provider) (endpoint body : Text)
      → let key =
          provider_api_key provider client.aperture_config.api_key
            client.aperture_config.base_url in
        All
          (IsForProvider provider endpoint body)
          (forward_request_to_url_raw parse_url parse_ip lookup_host upstream clock client
            (build_endpoint_url provider endpoint)
            body
            key
            provider.endpoint_style).requests
  unfolding forward_request_to_url_raw
  raw_requests provider endpoint body =
      send-All parse_url parse_ip lookup_host upstream clock client
        (IsForProvider provider endpoint body) _ _ _
        (λ u passed. for_provider provider endpoint body u passed)

  -- What a handler sends when it tries a provider, as it is or converted, goes to the provider's
  -- URL for the endpoint, of the web and with a host outside. It carries the provider's own key, or
  -- the gateway's if the base URLs of both are the same up to final slashes, or none, in the header
  -- of the provider's style.
  pub try_provider-IsForProvider :
      (parse : String → Option Value) (print : Value → String) (from_str : Text → Option Value)
      (to_vec : Value → Option Text) (id : String) (provider : Provider) (endpoint body : Text)
      → All
          (IsForProvider provider endpoint body)
          (try_provider gateway_of body endpoint provider).sent
        × All
            (IsForProvider provider (utf8 "v1/chat/completions") body)
            (try_provider_non_streaming parse print from_str to_vec id gateway_of body
              provider).sent
  unfolding try_provider try_provider_non_streaming
  try_provider-IsForProvider parse print from_str to_vec id provider endpoint body =
      (raw_requests provider endpoint body, raw_requests provider (utf8 "v1/chat/completions") body)
