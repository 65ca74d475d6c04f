-- ===== src/Validation/Tests.antt =====
-- The limits at their borders.
use aperture_router.Prelude.{◌+◌, ◌^◌, ◌≡◌, refl}
use aperture_router.Net.{ok, err}
use aperture_router.Text.{utf8, contains_text, starts_with, strip_prefix}
use aperture_router.Validation.{
  name_dots, temperature_nan, temperature_high, bad_top_p, validate_model_name,
  validate_temperature, validate_top_p, infinity, one, two,
}

dots : validate_model_name (utf8 "a/../b") ≡ err name_dots
unfolding validate_model_name contains_text starts_with strip_prefix
dots = refl

vendor : validate_model_name (utf8 "vendor/model-1.5:free") ≡ ok tt
unfolding validate_model_name contains_text starts_with strip_prefix
vendor = refl

nan : validate_temperature (infinity + 1) ≡ err temperature_nan
unfolding validate_temperature
nan = refl

warm : validate_temperature (two + 1) ≡ err temperature_high
unfolding validate_temperature
warm = refl

negative_zero : validate_top_p (2 ^ 31) ≡ ok tt
unfolding validate_top_p
negative_zero = refl

above_one : validate_top_p (one + 1) ≡ err bad_top_p
unfolding validate_top_p
above_one = refl
