-- ===== src/Security.antt =====
-- src/security/mod.rs: which hosts and addresses a request must not be sent to.
pub mod Ranges
mod Tests
use aperture_router.Prelude.{
  ℕ, ◌+◌, ◌*◌, ◌/◌, ◌%◌, ◌^◌, Bool, true, false, not, ◌&&◌, ◌||◌, Option, none, some, List, [], ◌∷◌,
  if◌then◌else◌, leb, ◌==◌, nat_eq, is_empty,
}
use aperture_router.Net.{IpAddr, v4, v6}
use aperture_router.Text.{Text, text_eq, utf8, starts_with, ends_with, contains_text}

-- `octets()[i]` of an IPv4 address, with the weight of the octet
abbrev octet : ℕ → ℕ → ℕ
octet weight n = n / weight % 256

abbrev first_octet : ℕ → ℕ
first_octet = octet (2 ^ 24)

abbrev second_octet : ℕ → ℕ
second_octet = octet (2 ^ 16)

-- `Ipv4Addr::is_private`, `is_loopback` and `is_link_local`
unfoldable pub is_private : ℕ → Bool
is_private n =
    first_octet n == 10
    || first_octet n == 172 && (leb 16 (second_octet n) && leb (second_octet n) 31)
    || first_octet n == 192 && second_octet n == 168

unfoldable pub is_loopback : ℕ → Bool
is_loopback n = first_octet n == 127

unfoldable pub is_link_local : ℕ → Bool
is_link_local n = first_octet n == 169 && second_octet n == 254

-- 100.64.0.0/10
unfoldable pub is_shared : ℕ → Bool
is_shared n = first_octet n == 100 && (leb 64 (second_octet n) && leb (second_octet n) 127)

unfoldable pub is_internal_v4 : ℕ → Bool → Bool
is_internal_v4 n block_cgn =
    is_private n || is_loopback n || is_link_local n || (block_cgn && is_shared n)

-- `Ipv6Addr::to_ipv4_mapped`: ::ffff:0:0/96
unfoldable pub to_ipv4_mapped : ℕ → Option ℕ
to_ipv4_mapped n = if n / 2 ^ 32 == 65535 then some (n % 2 ^ 32) else none

-- ::1, fc00::/7, fe80::/10 and ff00::/8
unfoldable pub is_internal_v6 : ℕ → Bool
is_internal_v6 n =
    n == 1 || n / 2 ^ 121 % 128 == 126 || n / 2 ^ 118 % 1024 == 1018 || n / 2 ^ 120 % 256 == 255

abbrev mapped_or : Option ℕ → ℕ → Bool → Bool
mapped_or (some n) m block_cgn = is_internal_v4 n block_cgn
mapped_or none m block_cgn = is_internal_v6 m

unfoldable pub is_internal_ip_impl : IpAddr → Bool → Bool
is_internal_ip_impl (v4 n) block_cgn = is_internal_v4 n block_cgn
is_internal_ip_impl (v6 n) block_cgn = mapped_or (to_ipv4_mapped n) n block_cgn

unfoldable pub is_internal_ip_strict : IpAddr → Bool
is_internal_ip_strict ip = is_internal_ip_impl ip false

unfoldable pub is_cgnat : IpAddr → Bool
is_cgnat (v4 n) = is_shared n
is_cgnat (v6 n) = false

-- `host.parse::<IpAddr>()` is std's.
module _ (parse_ip : Text → Option IpAddr) where
  abbrev is_internal_parsed : Option IpAddr → Bool → Bool
  is_internal_parsed none block_cgn = false
  is_internal_parsed (some ip) block_cgn = is_internal_ip_impl ip block_cgn

  unfoldable pub is_internal_ip : Text → Bool
  is_internal_ip host = is_internal_parsed (parse_ip host) true

  unfoldable pub is_internal_ip_strict_host : Text → Bool
  is_internal_ip_strict_host host = is_internal_parsed (parse_ip host) false

unfoldable pub is_metadata_endpoint : Text → Bool
is_metadata_endpoint host =
    host == utf8 "169.254.169.254"
    || host == utf8 "[::ffff:169.254.169.254]"
    || host == utf8 "100.100.100.200"
    || host == utf8 "metadata.google.internal"
    || host == utf8 "metadata.azure.com"

-- `host.strip_suffix('.').unwrap_or(host)`
unfoldable pub strip_dot : Text → Text
strip_dot [] = []
strip_dot (c ∷ s) = let rest = strip_dot s in if c == 46 && is_empty s then [] else c ∷ rest

abbrev is_blocked : Text → Bool
is_blocked normalized =
    is_metadata_endpoint normalized
    || (ends_with (utf8 ".internal") normalized && contains_text (utf8 "metadata") normalized)
    || (starts_with (utf8 "metadata.") normalized && contains_text (utf8 ".svc.") normalized)

unfoldable pub is_blocked_host : Text → Bool
is_blocked_host host = is_blocked (strip_dot host)
