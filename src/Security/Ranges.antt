-- ===== src/Security/Ranges.antt =====
-- The addresses that `is_internal_ip_impl` finds internal, as ranges of numbers.
use aperture_router.Prelude.{
  ◌⊎◌, ◌-◌, ℕ, ◌+◌, ◌*◌, ◌^◌, ◌≤◌, ◌<◌, ◌≡◌, refl, ◌↔◌, Bool, true, false, some, [], ◌∷◌, ◌++◌,
  nat_eq, arith,
}
use aperture_router.Net.{v4, v6}
use aperture_router.Text.{Text}
use aperture_router.Security.{
  is_internal_ip_impl, is_internal_v4, is_private, is_loopback, is_link_local, to_ipv4_mapped,
  strip_dot, is_blocked_host,
}

abbrev IsWithin : ℕ → ℕ → ℕ → Type 0
IsWithin low high n = (low ≤ n) × (n ≤ high)

to_ipv4_mapped-mapped : (n : ℕ) → n < 2 ^ 32 → to_ipv4_mapped (65535 * 2 ^ 32 + n) ≡ some n
unfolding to_ipv4_mapped
to_ipv4_mapped-mapped n h = ground arith

-- An IPv4 address written as an IPv6 one (`::ffff:a.b.c.d`) is internal exactly when it is.
pub is_internal_ip_impl-mapped :
    (n : ℕ) (block_cgn : Bool)
    → n < 2 ^ 32
    → is_internal_ip_impl (v6 (65535 * 2 ^ 32 + n)) block_cgn ≡ is_internal_ip_impl (v4 n) block_cgn
unfolding is_internal_ip_impl
is_internal_ip_impl-mapped n block_cgn h = rw (to_ipv4_mapped-mapped n h) refl

-- The private, loopback and link-local addresses, as numbers.
abbrev pub IsInternal : ℕ → Type 0
IsInternal n =
    IsWithin (10 * 2 ^ 24) (11 * 2 ^ 24 - 1) n
    ⊎ IsWithin (172 * 2 ^ 24 + 16 * 2 ^ 16) (172 * 2 ^ 24 + 32 * 2 ^ 16 - 1) n
    ⊎ IsWithin (192 * 2 ^ 24 + 168 * 2 ^ 16) (192 * 2 ^ 24 + 169 * 2 ^ 16 - 1) n
    ⊎ IsWithin (127 * 2 ^ 24) (128 * 2 ^ 24 - 1) n
    ⊎ IsWithin (169 * 2 ^ 24 + 254 * 2 ^ 16) (169 * 2 ^ 24 + 255 * 2 ^ 16 - 1) n

-- With carrier-grade NAT allowed, an IPv4 address is internal exactly if it is in 10.0.0.0/8,
-- 172.16.0.0/12, 192.168.0.0/16, 127.0.0.0/8 or 169.254.0.0/16.
pub is_internal_ip_impl_iff :
    (n : ℕ) → n < 2 ^ 32 → (is_internal_ip_impl (v4 n) false ≡ true) ↔ IsInternal n
unfolding is_internal_ip_impl is_internal_v4 is_private is_loopback is_link_local
is_internal_ip_impl_iff n h = ground arith

strip_dot-snoc : (s : Text) → strip_dot (s ++ 46 ∷ []) ≡ s
unfolding strip_dot
strip_dot-snoc [] = refl
strip_dot-snoc (c ∷ []) = ground arith
strip_dot-snoc (c ∷ d ∷ s) = ground (arith, strip_dot-snoc (d ∷ s))

-- A trailing dot makes no difference: a host that does not end in one is blocked with it exactly if
-- it is blocked without.
pub is_blocked_host-dot :
    (host : Text) → strip_dot host ≡ host → is_blocked_host (host ++ 46 ∷ []) ≡ is_blocked_host host
unfolding is_blocked_host
is_blocked_host-dot host h = rw (strip_dot-snoc host, h) refl
