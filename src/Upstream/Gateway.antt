-- ===== src/Upstream/Gateway.antt =====
-- What the client sends to the gateway of the configuration.
use aperture_router.Prelude.{
  ℕ, ◌≡◌, refl, sym, ◌⊎◌, Bool, true, false, not, ◌&&◌, ◌||◌, Option, none, some, List, arith, All,
  inl, inr, is_some,
}
use aperture_router.Net.{IpAddr, Result, ok, err, ◌>>◌}
use aperture_router.Text.{Text, utf8, starts_with, trim_end_matches}
use aperture_router.Config.{ApertureConfig}
use aperture_router.Security.{is_internal_ip, is_metadata_endpoint}
use aperture_router.HttpClient.{is_allowed_endpoint}
use aperture_router.Registry.{at_path}
use aperture_router.Upstream.Retry.{Sent}
use aperture_router.Upstream.Hosts.{
  Url, ForwardError, bad_scheme, bad_endpoint, deny_if, is_web, host_of, same_host, is_tailscale,
  is_localhost, check_gateway_host, check_gateway_url, validate_endpoint, check_transport,
}
use aperture_router.Upstream.Forward.{
  ProxyClient, Request, gateway_request, post, with_gateway_key, forward_request,
  forward_request_stream,
}
use aperture_router.Upstream.Guarded.{send-All}

passed_and :
    {A : Type 0} (m : Result ForwardError Unit) (k : Result ForwardError A) (a : A)
    → (m >> k) ≡ ok a
    → (m ≡ ok tt) × (k ≡ ok a)
passed_and (ok done) k a h = (refl, h)
passed_and (err e) k a h = absurd (cc h)

not_denied : (b : Bool) (e : ForwardError) → deny_if b e ≡ ok tt → b ≡ false
not_denied b e h = ground (arith, h)

one_reason :
    (k a b c : Bool)
    → k && not a && not b && not c ≡ false
    → (k ≡ false) ⊎ ((a ≡ true) ⊎ ((b ≡ true) ⊎ (c ≡ true)))
one_reason k a b c h = ground (arith, h)

one_permission :
    (a b c : Bool) → not a && (b || c) ≡ false → (a ≡ true) ⊎ ((b ≡ false) × (c ≡ false))
one_permission a b c h = ground (arith, h)

is_some-false : {A : Type 0} (o : Option A) → is_some o ≡ false → o ≡ none
is_some-false none h = refl
is_some-false (some a) h = absurd (cc h)

module _ (parse_url : Text → Option Url) (parse_ip : Text → Option IpAddr) where
  -- The gateway's own host, or one that is neither internal nor a metadata service.
  abbrev IsPermitted : ApertureConfig → Option Text → Type 0
  IsPermitted aperture_config none = Unit
  IsPermitted aperture_config (some host) =
      (same_host (host_of parse_url parse_ip aperture_config.base_url) host ≡ true)
      ⊎ ((is_internal_ip parse_ip host ≡ false) × (is_metadata_endpoint host ≡ false))

  -- A key that is set goes over https, to Tailscale or to this machine.
  abbrev IsPrivate : ApertureConfig → Type 0
  IsPrivate aperture_config =
      let host = host_of parse_url parse_ip aperture_config.base_url in
      (aperture_config.api_key ≡ none)
      ⊎ ((is_tailscale parse_url parse_ip host ≡ true)
          ⊎ ((is_localhost parse_url parse_ip host ≡ true)
              ⊎ (starts_with (utf8 "https://") aperture_config.base_url ≡ true)))

  -- A request for an endpoint of the list, below the base URL.
  pub record IsToGateway (aperture_config : ApertureConfig) (endpoint body : Text) (r : Request)
      : Type 0 where
    pub allowed : is_allowed_endpoint endpoint ≡ true
    pub below :
        parse_url (at_path (trim_end_matches 47 aperture_config.base_url) endpoint) ≡ some r.url
    pub web : is_web r.url.scheme ≡ true
    pub host : IsPermitted aperture_config r.url.host_str
    pub key : r ≡ with_gateway_key aperture_config.api_key (post r.url body)
    pub transport : IsPrivate aperture_config

  check_transport-IsPrivate :
      (aperture_config : ApertureConfig)
      → check_transport parse_url parse_ip aperture_config ≡ ok tt
      → IsPrivate aperture_config
  unfolding check_transport
  check_transport-IsPrivate aperture_config h = elim (one_reason _ _ _ _ (not_denied _ _ h)) [
    | inl without_key ↦ inl (is_some-false aperture_config.api_key without_key)
    | inr reasons ↦ inr reasons
  ]

  check_gateway_host-ok :
      (aperture_config : ApertureConfig) (host : Option Text)
      → check_gateway_host parse_url parse_ip aperture_config host ≡ ok tt
      → IsPermitted aperture_config host
  check_gateway_host-ok aperture_config none h = tt
  check_gateway_host-ok aperture_config (some host) h = one_permission _ _ _ (not_denied _ _ h)

  check_gateway_url-ok :
      (aperture_config : ApertureConfig) (url : Option Url) (u : Url)
      → check_gateway_url parse_url parse_ip aperture_config url ≡ ok u
      → (url ≡ some u)
        × (is_web u.scheme ≡ true)
        × (check_gateway_host parse_url parse_ip aperture_config u.host_str ≡ ok tt)
  check_gateway_url-ok aperture_config none u h = absurd (cc h)
  check_gateway_url-ok aperture_config (some v) u h =
      let host_check = check_gateway_host parse_url parse_ip aperture_config v.host_str in
      let (checks, done) =
        passed_and (deny_if (not (is_web v.scheme)) bad_scheme >> host_check) (ok v) u h in
      let (web, host) =
        passed_and (deny_if (not (is_web v.scheme)) bad_scheme) host_check tt checks in
      let same : v ≡ u = cc done in
      rw (sym same) (refl, ground (arith, not_denied (not (is_web v.scheme)) bad_scheme web), host)

  validate_endpoint-ok :
      (aperture_config : ApertureConfig) (endpoint : Text) (u : Url)
      → validate_endpoint parse_url parse_ip aperture_config endpoint ≡ ok u
      → (is_allowed_endpoint endpoint ≡ true)
        × (parse_url (at_path (trim_end_matches 47 aperture_config.base_url) endpoint) ≡ some u)
        × (is_web u.scheme ≡ true)
        × (check_gateway_host parse_url parse_ip aperture_config u.host_str ≡ ok tt)
  unfolding validate_endpoint
  validate_endpoint-ok aperture_config endpoint u h =
      let (allowed, rest) =
        passed_and (deny_if (not (is_allowed_endpoint endpoint)) bad_endpoint) _ u h in
      let (found, web, host) = check_gateway_url-ok aperture_config _ u rest in
      (
        ground (arith, not_denied (not (is_allowed_endpoint endpoint)) bad_endpoint allowed),
        found,
        web,
        host,
      )

url_of_gateway_key : (key : Option Text) (r : Request) → (with_gateway_key key r).url ≡ r.url
url_of_gateway_key none r = refl
url_of_gateway_key (some key) r = refl

module _ (parse_url : Text → Option Url) (parse_ip : Text → Option IpAddr)
    (lookup_host : Text → ℕ → Option (List IpAddr)) (upstream : Request → ℕ → Sent)
    (clock : ℕ → Option ℕ) (client : ProxyClient) where
  abbrev pub IsSentToGateway : Text → Text → Request → Type 0
  IsSentToGateway endpoint body =
      IsToGateway parse_url parse_ip client.aperture_config endpoint body

  gateway_request-IsSentToGateway :
      (endpoint body : Text) (u : Url)
      → check_transport parse_url parse_ip client.aperture_config ≡ ok tt
      → validate_endpoint parse_url parse_ip client.aperture_config endpoint ≡ ok u
      → IsSentToGateway endpoint body
          (gateway_request parse_url parse_ip lookup_host upstream clock client body u)
  gateway_request-IsSentToGateway endpoint body u transport valid =
      let (allowed, below, web, host) =
        validate_endpoint-ok parse_url parse_ip client.aperture_config endpoint u valid in
      let same = url_of_gateway_key client.aperture_config.api_key (post u body) in
      record {
        allowed = allowed;
        below = rw same below;
        web = rw same web;
        host =
            rw same
              (check_gateway_host-ok parse_url parse_ip client.aperture_config u.host_str host);
        key = rw same refl;
        transport = check_transport-IsPrivate parse_url parse_ip client.aperture_config transport;
      }

  -- The client's configuration passed the check of its constructor. Then every request that it
  -- sends to the gateway, streaming or not, is for an endpoint of the list below the base URL, by
  -- http or https, and its host, if it has one, is the base URL's own or neither internal nor a
  -- metadata service; it has the configured key and no other, and a key goes over https, to
  -- Tailscale or to this machine.
  pub forward_request-IsToGateway :
      (endpoint body : Text)
      → check_transport parse_url parse_ip client.aperture_config ≡ ok tt
      → All
          (IsSentToGateway endpoint body)
          (forward_request parse_url parse_ip lookup_host upstream clock client endpoint
            body).requests
        × All
            (IsSentToGateway endpoint body)
            (forward_request_stream parse_url parse_ip lookup_host upstream clock client endpoint
              body).requests
  unfolding forward_request forward_request_stream
  forward_request-IsToGateway endpoint body transport =
      let each =
        λ (u : Url)
            (valid : validate_endpoint parse_url parse_ip client.aperture_config endpoint ≡ ok u).
          gateway_request-IsSentToGateway endpoint body u transport valid in
      (
        send-All parse_url parse_ip lookup_host upstream clock client
            (IsSentToGateway endpoint body) _ _ _ each,
        send-All parse_url parse_ip lookup_host upstream clock client
            (IsSentToGateway endpoint body) _ _ _ each,
      )
