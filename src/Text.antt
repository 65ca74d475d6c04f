-- ===== src/Text.antt =====
-- `&str` and `String` where the source walks them: the bytes of a UTF-8 text, with the methods of
-- the standard library that the source calls.
use Prim.Native.Char.{code}
use aperture_router.Prelude.{
  ◌%◌, suc, ◌++◌, ◌/◌, ℕ, ◌+◌, ◌-◌, ◌*◌, ◌^◌, ◌<◌, ◌≡◌, ◌↔◌, String, Bool, true, false, ◌&&◌, ◌||◌,
  Option, none, some, List, [], ◌∷◌, arith, if◌then◌else◌, leb, ltb, Eq, ◌==◌, ==_iff, nat_eq,
  is_some, is_empty,
}

abbrev pub Text : Type 0
Text = List ℕ

-- The bytes of a code point in UTF-8.
abbrev encode_char : ℕ → Text
encode_char n =
    if ltb n 128
    then n ∷ []
    else if ltb n 2048
    then (192 + n / 64) ∷ (128 + n % 64) ∷ []
    else if ltb n 65536
    then (224 + n / 4096) ∷ (128 + n / 64 % 64) ∷ (128 + n % 64) ∷ []
    else (240 + n / 262144) ∷ (128 + n / 4096 % 64) ∷ (128 + n / 64 % 64) ∷ (128 + n % 64) ∷ []

-- `str::as_bytes`, of a literal or of a JSON string.
abbrev pub utf8 : String → Text
utf8 String.[] = []
utf8 (String.◌∷◌ c s) = encode_char (code c) ++ utf8 s

unfoldable pub same_text : Text → Text → Bool
same_text [] [] = true
same_text (a ∷ s) (b ∷ t) = a == b && same_text s t
same_text _ _ = false

pub same_text_iff : (s t : Text) → (same_text s t ≡ true) ↔ (s ≡ t)
unfolding same_text
same_text_iff [] [] = ground arith
same_text_iff (a ∷ s) (b ∷ t) = ground (arith, ==_iff a b, same_text_iff s t)
same_text_iff [] (b ∷ t) = ground arith
same_text_iff (a ∷ s) [] = ground arith

instance abbrev pub text_eq : Eq Text
text_eq = record { same = same_text; same_iff = same_text_iff }

-- `str::strip_prefix`
unfoldable pub strip_prefix : Text → Text → Option Text
strip_prefix [] s = some s
strip_prefix (p ∷ ps) [] = none
strip_prefix (p ∷ ps) (c ∷ s) = if p == c then strip_prefix ps s else none

unfoldable pub starts_with : Text → Text → Bool
unfolding strip_prefix
starts_with p s = is_some (strip_prefix p s)

-- `s.ends_with(p)`: some tail of `s` is `p`.
unfoldable pub ends_with : Text → Text → Bool
unfolding same_text
ends_with p [] = same_text p []
ends_with p (c ∷ s) = same_text p (c ∷ s) || ends_with p s

-- `s.contains(p)` for a text
unfoldable pub contains_text : Text → Text → Bool
unfolding starts_with
contains_text p [] = starts_with p []
contains_text p (c ∷ s) = starts_with p (c ∷ s) || contains_text p s

-- `s.contains(c)` for a character below 128
unfoldable pub contains_char : ℕ → Text → Bool
contains_char b [] = false
contains_char b (c ∷ s) = c == b || contains_char b s

-- `split(c).next()`
unfoldable pub split_first : ℕ → Text → Text
split_first b [] = []
split_first b (c ∷ s) = let rest = split_first b s in if c == b then [] else c ∷ rest

-- `trim_end_matches(c)`
unfoldable pub trim_end_matches : ℕ → Text → Text
trim_end_matches b [] = []
trim_end_matches b (c ∷ s) =
    let rest = trim_end_matches b s in if c == b && is_empty rest then [] else c ∷ rest

-- Unicode white space of one, two and three bytes.
abbrev is_space : ℕ → Bool
is_space a = a == 32 || (leb 9 a && leb a 13)

abbrev is_wide_space : ℕ → ℕ → Bool
is_wide_space a b = a == 194 && (b == 133 || b == 160)

-- U+2000 to U+200A, U+2028, U+2029 and U+202F, by their last byte
abbrev is_general_space : ℕ → Bool
is_general_space c = (leb 128 c && leb c 138) || c == 168 || c == 169 || c == 175

abbrev is_wider_space : ℕ → ℕ → ℕ → Bool
is_wider_space a b c =
    (a == 226 && b == 128 && is_general_space c)
    || (a == 225 && b == 154 && c == 128)
    || (a == 226 && b == 129 && c == 159)
    || (a == 227 && b == 128 && c == 128)

-- The size of the white space character at the front; 0 if there is none.
abbrev space_size : Text → ℕ
space_size [] = 0
space_size (a ∷ []) = if is_space a then 1 else 0
space_size (a ∷ b ∷ []) = if is_space a then 1 else if is_wide_space a b then 2 else 0
space_size (a ∷ b ∷ c ∷ s) =
    if is_space a then 1 else if is_wide_space a b then 2 else if is_wider_space a b c then 3 else 0

-- The number is how many bytes of a white space character are still to be passed over.
unfoldable pub trim_from : ℕ → Text → Text
trim_from n [] = []
trim_from ℕ.zero (c ∷ s) =
    let size = space_size (c ∷ s) in
    let rest = trim_from (size - 1) s in if size == 0 then c ∷ s else rest
trim_from (suc n) (c ∷ s) = trim_from n s

-- `str::trim_start`
unfoldable pub trim_start : Text → Text
unfolding trim_from
trim_start s = trim_from 0 s

-- `str::trim_end`: a tail of white space only is dropped.
unfoldable pub trim_end : Text → Text
unfolding trim_start
trim_end [] = []
trim_end (c ∷ s) = let rest = trim_end s in if is_empty (trim_start (c ∷ s)) then [] else c ∷ rest

-- `str::trim`
unfoldable pub trim : Text → Text
unfolding trim_start trim_end
trim s = trim_end (trim_start s)

abbrev pub is_digit : ℕ → Bool
is_digit c = leb 48 c && leb c 57

-- The digits of `u64::from_str`, with its overflow check after each.
unfoldable pub digits_from : ℕ → Text → Option ℕ
digits_from n [] = some n
digits_from n (c ∷ s) =
    let m = n * 10 + (c - 48) in
    let rest = digits_from m s in if is_digit c && ltb m (2 ^ 64) then rest else none

-- `str::parse::<u64>`: an optional plus sign and at least one digit.
unfoldable pub parse_u64 : Text → Option ℕ
unfolding digits_from
parse_u64 [] = none
parse_u64 (c ∷ s) =
    if c == 43 then (if is_empty s then none else digits_from 0 s) else digits_from 0 (c ∷ s)

digits_from_bound : (n : ℕ) (s : Text) {m : ℕ} → n < 2 ^ 64 → digits_from n s ≡ some m → m < 2 ^ 64
unfolding digits_from
digits_from_bound n [] h e = ground arith
digits_from_bound n (c ∷ s) h e =
    digits_from_bound (n * 10 + (c - 48)) s (ground arith) (ground arith)

-- A parsed number fits in 64 bits.
pub parse_u64-lt : (s : Text) {m : ℕ} → parse_u64 s ≡ some m → m < 2 ^ 64
unfolding parse_u64
parse_u64-lt [] e = ground arith
parse_u64-lt (c ∷ s) {m} e = ground (
  arith,
  digits_from_bound 0 s {m = m} (omega arith),
  digits_from_bound 0 (c ∷ s) {m = m} (omega arith),
)
