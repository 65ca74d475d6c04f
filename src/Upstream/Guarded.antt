-- ===== src/Upstream/Guarded.antt =====
-- Where a request of the client can go.
use aperture_router.Prelude.{
  sym, ℕ, zero, suc, ◌≡◌, ◌↔◌, refl, true, false, Option, none, some, List, [], ◌∷◌, arith, All,
  inl, inr, is_empty,
}
use aperture_router.Net.{IpAddr, Result, ok, err, Result-cases}
use aperture_router.Text.{Text, text_eq}
use aperture_router.Config.{openai_v1, openai_direct, anthropic, EndpointStyle}
use aperture_router.Security.{is_internal_ip_strict, is_metadata_endpoint}
use aperture_router.Upstream.Retry.{Response, Sent}
use aperture_router.Upstream.Hosts.{
  check_provider_host, check_host, Url, ForwardError, is_web, is_metadata_ip, check_addresses,
  check_lookup, validate_resolved_ips, port_of, validate_provider_url_host,
}
use aperture_router.Upstream.Forward.{
  provider_request, check_web, ProxyClient, Request, Exchange, repeat, take, send,
  forward_request_to_url, forward_request_to_url_raw, forward_request_stream_to_url, cut_off,
  add_auth_header, with_provider_key, post,
}

-- Neither internal nor of a metadata service.
abbrev pub IsPublic : IpAddr → Type 0
IsPublic ip = (is_internal_ip_strict ip ≡ false) × (is_metadata_ip ip ≡ false)

pub check_addresses_iff : (ips : List IpAddr) → (check_addresses ips ≡ ok tt) ↔ All IsPublic ips
unfolding check_addresses
check_addresses_iff [] = ground arith
check_addresses_iff (ip ∷ ips) = ground (arith, check_addresses_iff ips)

module _ (parse_ip : Text → Option IpAddr) (lookup_host : Text → ℕ → Option (List IpAddr)) where
  -- The host is an address that is not internal, or the lookup gives addresses and all are public.
  abbrev HasPublicAddresses : Option (List IpAddr) → Type 0
  HasPublicAddresses none = ⊥
  HasPublicAddresses (some ips) = (is_empty ips ≡ false) × All IsPublic ips

  abbrev IsOutside : Text → ℕ → Option IpAddr → Type 0
  IsOutside host port (some ip) = is_internal_ip_strict ip ≡ false
  IsOutside host port none = HasPublicAddresses (lookup_host host port)

  abbrev HasOutsideHost : Url → Option Text → Type 0
  HasOutsideHost url none = Unit
  HasOutsideHost url (some host) =
      (is_metadata_endpoint host ≡ false) × IsOutside host (port_of url) (parse_ip host)

  -- A URL of the web whose host, if it has one, is outside.
  pub record IsGuarded (url : Url) : Type 0 where
    pub web : is_web url.scheme ≡ true
    pub host : HasOutsideHost url url.host_str

  lookup_iff :
      (addresses : Option (List IpAddr))
      → (check_lookup addresses ≡ ok tt) ↔ HasPublicAddresses addresses
  lookup_iff none = ground arith
  lookup_iff (some []) = ground arith
  lookup_iff (some (ip ∷ ips)) = ground (arith, check_addresses_iff (ip ∷ ips))

  validate_resolved_iff :
      (host : Text) (port : ℕ)
      → parse_ip host ≡ none
      → (validate_resolved_ips parse_ip lookup_host host port ≡ ok tt)
        ↔ HasPublicAddresses (lookup_host host port)
  unfolding validate_resolved_ips
  validate_resolved_iff host port name = rw name (lookup_iff (lookup_host host port))

  check_host_iff :
      (host : Text) (port : ℕ) (ip : Option IpAddr)
      → parse_ip host ≡ ip
      → (check_host parse_ip lookup_host host port ip ≡ ok tt) ↔ IsOutside host port ip
  check_host_iff host port none name = validate_resolved_iff host port name
  check_host_iff host port (some ip) name = ground arith

  check_provider_host_iff :
      (url : Url) (host : Option Text)
      → (check_provider_host parse_ip lookup_host url host ≡ ok tt) ↔ HasOutsideHost url host
  check_provider_host_iff url none = ground arith
  check_provider_host_iff url (some host) =
      ground (arith, check_host_iff host (port_of url) (parse_ip host) refl)

  -- The check passes exactly for hosts outside.
  validate_provider_url_host_iff :
      (url : Url)
      → (validate_provider_url_host parse_ip lookup_host url ≡ ok tt)
        ↔ HasOutsideHost url url.host_str
  unfolding validate_provider_url_host
  validate_provider_url_host_iff url = check_provider_host_iff url url.host_str

All-repeat : (P : Request → Type 0) (n : ℕ) (r : Request) → P r → All P (repeat n r)
All-repeat P zero r p = tt
All-repeat P (suc n) r p = (p, All-repeat P n r p)

All-take : (P : Request → Type 0) (n : ℕ) (rs : List Request) → All P rs → All P (take n rs)
All-take P zero rs a = tt
All-take P (suc n) [] a = tt
All-take P (suc n) (r ∷ rs) (p, a) = (p, All-take P n rs a)

pub url_of_provider_key :
    (key : Option Text) (style : EndpointStyle) (r : Request)
    → (with_provider_key key style r).url ≡ r.url
unfolding add_auth_header
url_of_provider_key none style r = refl
url_of_provider_key (some key) openai_v1 r = refl
url_of_provider_key (some key) openai_direct r = refl
url_of_provider_key (some key) anthropic r = refl

module _ (parse_url : Text → Option Url) (parse_ip : Text → Option IpAddr)
    (lookup_host : Text → ℕ → Option (List IpAddr)) (upstream : Request → ℕ → Sent)
    (clock : ℕ → Option ℕ) (client : ProxyClient) where
  pub send-All :
      {A : Type 0} (P : Request → Type 0) (make : Url → Request)
      (finish : Response → Result ForwardError A) (url : Result ForwardError Url)
      → ((u : Url) → url ≡ ok u → P (make u))
      → All P (send parse_url parse_ip lookup_host upstream clock client make finish url).requests
  unfolding send
  send-All P make finish (err e) p = tt
  send-All P make finish (ok u) p = All-repeat P _ (make u) (p u refl)

  pub check_web-ok :
      (v u : Url)
      → check_web parse_url parse_ip lookup_host upstream clock client (some v) ≡ ok u
      → (v ≡ u)
        × (is_web v.scheme ≡ true)
        × (validate_provider_url_host parse_ip lookup_host v ≡ ok tt)
  check_web-ok v u h = elim (Result-cases (validate_provider_url_host parse_ip lookup_host v)) [
    | inl (done, passed) ↦ ground (arith, h, passed)
    | inr (e, failed) ↦ absurd (ground (arith, h, failed))
  ]

  pub check_web-IsGuarded :
      (url : Option Url) (u : Url)
      → check_web parse_url parse_ip lookup_host upstream clock client url ≡ ok u
      → IsGuarded parse_ip lookup_host u
  check_web-IsGuarded none u h = absurd (cc h)
  check_web-IsGuarded (some v) u h =
      let (same, web, passed) = check_web-ok v u h in
      rw (sym same) (record {
        web = web;
        host = (validate_provider_url_host_iff parse_ip lookup_host v).0 passed;
      })

  cut_off-All :
      {A : Type 0} (P : Request → Type 0) (timeout : Option ℕ) (exchange : Exchange A)
      → All P exchange.requests
      → All P
          (cut_off parse_url parse_ip lookup_host upstream clock client timeout exchange).requests
  cut_off-All P none exchange a = a
  cut_off-All P (some sends) exchange a = All-take P sends exchange.requests a

  -- What a request of the methods for providers satisfies.
  abbrev pub IsSentOutside : Request → Type 0
  IsSentOutside request = IsGuarded parse_ip lookup_host request.url

  provider_request-IsSentOutside :
      {A : Type 0} (finish : Response → Result ForwardError A) (url body : Text) (key : Option Text)
      (style : EndpointStyle)
      → let make =
          provider_request parse_url parse_ip lookup_host upstream clock client body key style in
        let checked =
          check_web parse_url parse_ip lookup_host upstream clock client (parse_url url) in
        All IsSentOutside
          (send parse_url parse_ip lookup_host upstream clock client make finish checked).requests
  provider_request-IsSentOutside finish url body key style =
      send-All IsSentOutside _ finish _ (λ u passed.
        rw (url_of_provider_key key style (post u body))
          (check_web-IsGuarded (parse_url url) u passed))

  -- Every request that the client sends for a provider, in any of the three ways and whether or not
  -- the time runs out, goes to a URL of the web whose host is no metadata service; if the host is
  -- an address, it is not internal, and otherwise the lookup of the host gave addresses, and none
  -- of them is internal or a metadata service's.
  pub forward_to_url-IsGuarded :
      (url body : Text) (key : Option Text) (style : EndpointStyle) (timeout : Option ℕ)
      → All IsSentOutside
          (forward_request_to_url parse_url parse_ip lookup_host upstream clock client url body key
            style).requests
        × All IsSentOutside
            (forward_request_to_url_raw parse_url parse_ip lookup_host upstream clock client url
              body key style).requests
        × All IsSentOutside
            (forward_request_stream_to_url parse_url parse_ip lookup_host upstream clock client
              timeout url body key style).requests
  unfolding forward_request_to_url forward_request_to_url_raw forward_request_stream_to_url
  forward_to_url-IsGuarded url body key style timeout = (
    provider_request-IsSentOutside _ url body key style,
    provider_request-IsSentOutside _ url body key style,
    cut_off-All IsSentOutside timeout _ (provider_request-IsSentOutside _ url body key style),
  )
