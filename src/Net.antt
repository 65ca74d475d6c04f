-- ===== src/Net.antt =====
-- What std gives the middleware: addresses, HTTP status codes and results.
use aperture_router.Prelude.{
  refl, ◌⊎◌, inl, inr, inr, inl, ◌⊎◌, ℕ, ◌≡◌, ◌↔◌, Bool, true, false, arith, Eq, ◌==◌, ==_iff,
  nat_eq,
}

-- `std::net::IpAddr`: the address as one number of 32 or 128 bits, most significant octet first.
pub data IpAddr : Type 0 where
  v4 : ℕ → IpAddr
  v6 : ℕ → IpAddr

abbrev pub same_ip : IpAddr → IpAddr → Bool
same_ip (v4 a) (v4 b) = a == b
same_ip (v6 a) (v6 b) = a == b
same_ip (v4 a) (v6 b) = false
same_ip (v6 a) (v4 b) = false

pub same_ip_iff : (a b : IpAddr) → (same_ip a b ≡ true) ↔ (a ≡ b)
same_ip_iff (v4 a) (v4 b) = ground (arith, ==_iff a b)
same_ip_iff (v6 a) (v6 b) = ground (arith, ==_iff a b)
same_ip_iff (v4 a) (v6 b) = ground arith
same_ip_iff (v6 a) (v4 b) = ground arith

instance abbrev pub ip_eq : Eq IpAddr
ip_eq = record { same = same_ip; same_iff = same_ip_iff }

-- `Result<A, E>`
pub data Result {ℓ} (E A : Type ℓ) : Type ℓ where
  ok : A → Result E A
  err : E → Result E A

infixl 10 ◌>>=◌ ◌>>◌
abbrev pub ◌>>=◌ {ℓ} : {E A B : Type ℓ} → Result E A → (A → Result E B) → Result E B
ok a >>= f = f a
err e >>= f = err e

abbrev pub ◌>>◌ {ℓ} : {E B : Type ℓ} → Result E (Unit {ℓ}) → Result E B → Result E B
m >> k = m >>= λ _. k

abbrev pub is_ok {ℓ} : {E A : Type ℓ} → Result E A → Bool
is_ok (ok a) = true
is_ok (err e) = false

-- `StatusCode`, by number
abbrev pub bad_request : ℕ
bad_request = 400

abbrev pub unauthorized : ℕ
unauthorized = 401

abbrev pub payload_too_large : ℕ
payload_too_large = 413

abbrev pub too_many_requests : ℕ
too_many_requests = 429

abbrev pub internal_server_error : ℕ
internal_server_error = 500

pub Result-cases {ℓ} :
    {E A : Type ℓ} (r : Result E A) → ((a : A) × (r ≡ ok a)) ⊎ ((e : E) × (r ≡ err e))
Result-cases (ok a) = inl (a, refl)
Result-cases (err e) = inr (e, refl)
