-- ===== src/Auth/Growth.antt =====
-- How the bans of `AuthState` of src/middleware/auth.rs grow with the addresses that fail.
use aperture_router.Prelude.{
  length-append, ℕ, ◌+◌, ◌≤◌, ◌≡◌, refl, ap, false, none, List, [], ◌∷◌, arith, ==_iff, length,
  contains,
}
use aperture_router.Maps.{Map, get, insert, get-insert}
use aperture_router.Net.{IpAddr, ip_eq}
use aperture_router.Auth.{AuthState, record_failure, attempt_times}

-- One failure of each of the addresses, at one instant.
unfoldable pub fail_each : AuthState → ℕ → List IpAddr → AuthState
fail_each auth now [] = auth
fail_each auth now (ip ∷ ips) = fail_each (record_failure auth now now ip).1 now ips

-- Different addresses, none of which has a ban.
abbrev pub AreNew : List IpAddr → Map IpAddr ℕ → Type 0
AreNew [] banned = Unit
AreNew (ip ∷ ips) banned = (get ip banned ≡ none) × (contains ips ip ≡ false) × AreNew ips banned

length-insert :
    (ip : IpAddr) (t : ℕ) (banned : Map IpAddr ℕ)
    → get ip banned ≡ none
    → length (insert ip t banned) ≡ length banned + 1
unfolding get insert
length-insert ip t [] h = refl
length-insert ip t ((j, u) ∷ banned) h = ground (arith, length-insert ip t banned)

insert-AreNew :
    (ip : IpAddr) (t : ℕ) (ips : List IpAddr) (banned : Map IpAddr ℕ)
    → contains ips ip ≡ false
    → AreNew ips banned
    → AreNew ips (insert ip t banned)
insert-AreNew ip t [] banned h n = tt
insert-AreNew ip t (j ∷ ips) banned h (a, b, n) = (
  ground (arith, get-insert ip j t banned, ==_iff ip j, ==_iff j ip),
  b,
  insert-AreNew ip t ips banned (ground arith) n,
)

-- Where one failure bans.
record_failure_bans :
    (auth : AuthState) (now : ℕ) (ip : IpAddr)
    → auth.max_attempts ≤ 1
    → ((record_failure auth now now ip).1.banned_until
        ≡ insert ip (now + auth.ban_duration) auth.banned_until)
      × ((record_failure auth now now ip).1.max_attempts ≡ auth.max_attempts)
unfolding record_failure
record_failure_bans auth now ip h =
    ground (arith, length-append (attempt_times auth now ip) (now ∷ []))

-- Where one failure bans, failures of different addresses, none of them banned before, leave as many
-- more bans as there are addresses, however many: nothing caps the bans or evicts one.
pub length-fail_each :
    (auth : AuthState) (now : ℕ) (ips : List IpAddr)
    → auth.max_attempts ≤ 1
    → AreNew ips auth.banned_until
    → length (fail_each auth now ips).banned_until ≡ length auth.banned_until + length ips
unfolding fail_each
length-fail_each auth now [] h n = omega arith
length-fail_each auth now (ip ∷ ips) h (a, b, n) =
    let (banned, same) = record_failure_bans auth now ip h in
    let grown = length-insert ip (now + auth.ban_duration) auth.banned_until a in
    let rest =
      length-fail_each (record_failure auth now now ip).1 now ips (omega (arith, same, h))
        (rw banned (insert-AreNew ip (now + auth.ban_duration) ips auth.banned_until b n)) in
    omega (arith, rest, grown, ap length banned)
