-- ===== src/Validation.antt =====
-- src/types/validation.rs: the limits on the parts of a request. A message is one value for each
-- `Err`. An `f32` is its bit pattern.
mod Tests
use aperture_router.Prelude.{
  ℕ, ◌+◌, ◌*◌, ◌/◌, ◌%◌, ◌^◌, Bool, true, false, not, ◌&&◌, ◌||◌, List, [], ◌∷◌, all, if◌then◌else◌,
  leb, ltb, ◌==◌, nat_eq, is_empty, length,
}
use aperture_router.Net.{Result, ok, err, ◌>>◌}
use aperture_router.Text.{Text, text_eq, utf8, contains_text, is_digit}

pub data RequestError : Type 0 where
  name_empty name_long name_dots name_chars : RequestError
  bad_role long_content no_tokens many_tokens : RequestError
  temperature_nan temperature_negative temperature_high bad_top_p : RequestError
  many_messages many_fields model_not_found wrong_endpoint unreadable : RequestError
  many_blocks not_streaming upstream_failed : RequestError

-- `if test { return Err(e) }`
abbrev pub refuse_if : Bool → RequestError → Result RequestError Unit
refuse_if true e = err e
refuse_if false e = ok tt

-- An ASCII letter or digit, or one of `-`, `_`, `.`, `/` and `:`.
abbrev pub is_name_char : ℕ → Bool
is_name_char c =
    is_digit c
    || (leb 65 c && leb c 90)
    || (leb 97 c && leb c 122)
    || c == 45
    || c == 95
    || c == 46
    || c == 47
    || c == 58

unfoldable pub validate_model_name : Text → Result RequestError Unit
validate_model_name name =
    refuse_if (is_empty name) name_empty
    >> refuse_if (ltb 128 (length name)) name_long
    >> refuse_if (contains_text (utf8 "..") name) name_dots
    >> refuse_if (not (all is_name_char name)) name_chars

unfoldable pub validate_role : Text → Result RequestError Unit
validate_role role =
    refuse_if
      (not (
        role == utf8 "system"
        || role == utf8 "user"
        || role == utf8 "assistant"
        || role == utf8 "tool"))
      bad_role

unfoldable pub validate_message_content : Text → Result RequestError Unit
validate_message_content content = refuse_if (ltb 1000000 (length content)) long_content

abbrev pub max_tokens_limit : ℕ
max_tokens_limit = 1000000

unfoldable pub validate_max_tokens : ℕ → Result RequestError Unit
validate_max_tokens max_tokens =
    refuse_if (max_tokens == 0) no_tokens >> refuse_if (ltb max_tokens_limit max_tokens) many_tokens

-- The bits of an `f32` without the sign; they are ordered as the absolute values.
abbrev pub magnitude : ℕ → ℕ
magnitude bits = bits % 2 ^ 31

abbrev pub has_sign : ℕ → Bool
has_sign bits = bits / 2 ^ 31 == 1

-- The bits of infinity, of 2.0 and of 1.0.
abbrev pub infinity : ℕ
infinity = 255 * 2 ^ 23

abbrev pub two : ℕ
two = 128 * 2 ^ 23

abbrev pub one : ℕ
one = 127 * 2 ^ 23

abbrev pub is_nan : ℕ → Bool
is_nan bits = ltb infinity (magnitude bits)

-- Less than zero: -0.0 is not.
abbrev pub is_negative : ℕ → Bool
is_negative bits = has_sign bits && not (magnitude bits == 0)

unfoldable pub validate_temperature : ℕ → Result RequestError Unit
validate_temperature temperature =
    refuse_if (is_nan temperature) temperature_nan
    >> refuse_if (is_negative temperature) temperature_negative
    >> refuse_if (not (has_sign temperature) && ltb two (magnitude temperature)) temperature_high

-- `(0.0..=1.0).contains`
abbrev pub is_unit : ℕ → Bool
is_unit bits = not (is_negative bits) && leb (magnitude bits) one

unfoldable pub validate_top_p : ℕ → Result RequestError Unit
validate_top_p top_p = refuse_if (not (is_unit top_p)) bad_top_p
