-- ===== src/Security/Tests.antt =====
-- The address checks on concrete hosts.
use aperture_router.Prelude.{ℕ, ◌+◌, ◌*◌, ◌^◌, ◌≡◌, ◌↔◌, true, false, arith}
use aperture_router.Net.{v4, v6}
use aperture_router.Security.{is_internal_ip_impl}
use aperture_router.Security.Ranges.{
  is_internal_ip_impl-mapped, is_internal_ip_impl_iff, IsInternal,
}

-- 10.0.0.9
abbrev address : ℕ
address = 10 * 2 ^ 24 + 9

is_internal_ip_impl-mapped_example :
    is_internal_ip_impl (v6 (65535 * 2 ^ 32 + address)) false
    ≡ is_internal_ip_impl (v4 address) false
is_internal_ip_impl-mapped_example = is_internal_ip_impl-mapped address false (omega arith)

is_internal_ip_impl_iff_example :
    (is_internal_ip_impl (v4 address) false ≡ true) ↔ IsInternal address
is_internal_ip_impl_iff_example = is_internal_ip_impl_iff address (omega arith)
