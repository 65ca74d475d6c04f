-- ===== src/Upstream/Hosts.antt =====
-- The checks of src/proxy/client.rs on the host of a URL, before a request is sent.
use aperture_router.Prelude.{
  ℕ, ◌+◌, ◌*◌, Bool, true, false, not, ◌&&◌, ◌||◌, Option, none, some, List, [], ◌∷◌, if◌then◌else◌,
  ◌==◌, nat_eq, unwrap_or, is_some, and_then,
}
use aperture_router.Net.{IpAddr, v4, v6, Result, ok, err, ◌>>◌}
use aperture_router.Text.{Text, text_eq, utf8, ends_with, starts_with, trim_end_matches}
use aperture_router.Security.{
  is_internal_ip, is_internal_ip_strict, is_metadata_endpoint, is_cgnat, is_loopback,
  to_ipv4_mapped,
}
use aperture_router.Config.{ApertureConfig}
use aperture_router.Registry.{at_path}
use aperture_router.HttpClient.{is_allowed_endpoint}

-- What the accessors of a parsed `Url` give.
pub record Url : Type 0 where
  pub scheme : Text
  pub host_str : Option Text
  pub port : Option ℕ

pub data ForwardError : Type 0 where
  bad_url bad_scheme bad_endpoint https_required : ForwardError
  metadata_host internal_host : ForwardError
  no_addresses internal_address metadata_address lookup_failed : ForwardError
  request_failed unavailable timed_out : ForwardError

abbrev pub deny_if : Bool → ForwardError → Result ForwardError Unit
deny_if true e = err e
deny_if false e = ok tt

-- The address with the given octets.
abbrev pub of_octets : ℕ → ℕ → ℕ → ℕ → ℕ
of_octets a b c d = ((a * 256 + b) * 256 + c) * 256 + d

abbrev pub is_metadata_v4 : ℕ → Bool
is_metadata_v4 n = n == of_octets 169 254 169 254 || n == of_octets 100 100 100 200

abbrev pub is_metadata_mapped : Option ℕ → Bool
is_metadata_mapped none = false
is_metadata_mapped (some n) = is_metadata_v4 n

unfoldable pub is_metadata_ip : IpAddr → Bool
is_metadata_ip (v4 n) = is_metadata_v4 n
is_metadata_ip (v6 n) = is_metadata_mapped (to_ipv4_mapped n)

-- The loop over the addresses of a host.
unfoldable pub check_addresses : List IpAddr → Result ForwardError Unit
check_addresses [] = ok tt
check_addresses (ip ∷ ips) =
    deny_if (is_internal_ip_strict ip) internal_address
    >> deny_if (is_metadata_ip ip) metadata_address
    >> check_addresses ips

abbrev pub check_lookup : Option (List IpAddr) → Result ForwardError Unit
check_lookup none = err lookup_failed
check_lookup (some []) = err no_addresses
check_lookup (some (ip ∷ ips)) = check_addresses (ip ∷ ips)

-- `Ipv6Addr::is_loopback` is ::1 alone.
abbrev pub is_loopback_ip : IpAddr → Bool
is_loopback_ip (v4 n) = is_loopback n
is_loopback_ip (v6 n) = n == 1

abbrev pub has : (IpAddr → Bool) → Option IpAddr → Bool
has test none = false
has test (some ip) = test ip

abbrev pub is_web : Text → Bool
is_web scheme = scheme == utf8 "https" || scheme == utf8 "http"

abbrev pub same_host : Option Text → Text → Bool
same_host none host = false
same_host (some base_host) host = base_host == host

abbrev pub port_of : Url → ℕ
port_of url = unwrap_or url.port (if url.scheme == utf8 "https" then 443 else 80)

-- `parse::<IpAddr>`, and `net::lookup_host` on `host:port`.
module _ (parse_ip : Text → Option IpAddr) (lookup_host : Text → ℕ → Option (List IpAddr)) where
  unfoldable pub validate_resolved_ips : Text → ℕ → Result ForwardError Unit
  validate_resolved_ips host port =
      if is_some (parse_ip host) then ok tt else check_lookup (lookup_host host port)

  abbrev pub check_host : Text → ℕ → Option IpAddr → Result ForwardError Unit
  check_host host port (some ip) = deny_if (is_internal_ip_strict ip) internal_host
  check_host host port none = validate_resolved_ips host port

  abbrev pub check_provider_host : Url → Option Text → Result ForwardError Unit
  check_provider_host url none = ok tt
  check_provider_host url (some host) =
      deny_if (is_metadata_endpoint host) metadata_host
      >> check_host host (port_of url) (parse_ip host)

  unfoldable pub validate_provider_url_host : Url → Result ForwardError Unit
  validate_provider_url_host url = check_provider_host url url.host_str

-- `Url::parse` and `parse::<IpAddr>`.
module _ (parse_url : Text → Option Url) (parse_ip : Text → Option IpAddr) where
  abbrev pub host_of : Text → Option Text
  host_of text = and_then (parse_url text) (λ url. url.host_str)

  abbrev pub check_gateway_host : ApertureConfig → Option Text → Result ForwardError Unit
  check_gateway_host aperture_config none = ok tt
  check_gateway_host aperture_config (some host) =
      deny_if
        (not (same_host (host_of aperture_config.base_url) host)
          && (is_internal_ip parse_ip host || is_metadata_endpoint host))
        internal_host

  abbrev pub check_gateway_url : ApertureConfig → Option Url → Result ForwardError Url
  check_gateway_url aperture_config none = err bad_url
  check_gateway_url aperture_config (some url) =
      deny_if (not (is_web url.scheme)) bad_scheme
      >> check_gateway_host aperture_config url.host_str
      >> ok url

  unfoldable pub validate_endpoint : ApertureConfig → Text → Result ForwardError Url
  validate_endpoint aperture_config endpoint =
      deny_if (not (is_allowed_endpoint endpoint)) bad_endpoint
      >> check_gateway_url aperture_config
          (parse_url (at_path (trim_end_matches 47 aperture_config.base_url) endpoint))

  abbrev pub is_tailscale : Option Text → Bool
  is_tailscale none = false
  is_tailscale (some host) =
      has is_cgnat (parse_ip host)
      || ends_with (utf8 ".ts.net") host
      || ends_with (utf8 ".tsnet") host

  abbrev pub is_localhost : Option Text → Bool
  is_localhost none = false
  is_localhost (some host) = host == utf8 "localhost" || has is_loopback_ip (parse_ip host)

  -- The check of `ProxyClient::new`: a key goes over https, to Tailscale or to this machine.
  unfoldable pub check_transport : ApertureConfig → Result ForwardError Unit
  check_transport aperture_config =
      let host = host_of aperture_config.base_url in
      deny_if
        (is_some aperture_config.api_key
          && not (is_tailscale host)
          && not (is_localhost host)
          && not (starts_with (utf8 "https://") aperture_config.base_url))
        https_required
