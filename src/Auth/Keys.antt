-- ===== src/Auth/Keys.antt =====
-- Which keys are accepted.
use aperture_router.Prelude.{◌≡◌, ◌↔◌, ◌⊎◌, Bool, true, false, ◌||◌, List, [], ◌∷◌, arith}
use aperture_router.Text.{Text}
use aperture_router.Auth.{
  AuthState, ConstantTimeEq, match_keys, validate_api_key, validate_admin_key,
}

-- The key stands in the list.
abbrev pub IsOneOf : Text → List Text → Type 0
IsOneOf key [] = ⊥
IsOneOf key (k ∷ ks) = (k ≡ key) ⊎ IsOneOf key ks

module _ (crypto : ConstantTimeEq) where
  match_keys_iff :
      (key : Text) (found : Bool) (keys : List Text)
      → (match_keys crypto key found keys ≡ true) ↔ ((found ≡ true) ⊎ IsOneOf key keys)
  unfolding match_keys
  match_keys_iff key found [] = ground arith
  match_keys_iff key found (k ∷ ks) =
      ground (arith, match_keys_iff key (found || crypto.ct_eq k key) ks, crypto.ct_eq_iff k key)

  -- A key is accepted for the API exactly if it is one of the API keys or of the admin keys.
  pub validate_api_key_iff :
      (auth : AuthState) (key : Text)
      → (validate_api_key crypto auth key ≡ true)
        ↔ (IsOneOf key auth.api_keys ⊎ IsOneOf key auth.admin_api_keys)
  unfolding validate_api_key
  validate_api_key_iff auth key = ground (
    arith,
    match_keys_iff key false auth.api_keys,
    match_keys_iff key (match_keys crypto key false auth.api_keys) auth.admin_api_keys,
  )

  -- A key is accepted for administration exactly if it is one of the admin keys.
  pub validate_admin_key_iff :
      (auth : AuthState) (key : Text)
      → (validate_admin_key crypto auth key ≡ true) ↔ IsOneOf key auth.admin_api_keys
  unfolding validate_admin_key
  validate_admin_key_iff auth key = ground (arith, match_keys_iff key false auth.admin_api_keys)
