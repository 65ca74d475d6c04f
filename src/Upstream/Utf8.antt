-- ===== src/Upstream/Utf8.antt =====
-- `make_utf8_stream` of src/proxy/client.rs: bytes of the network, cut anywhere, become texts. The
-- decoder is the table of UTF-8 that `std::str::from_utf8` follows.
use aperture_router.Prelude.{
  ℕ, ◌+◌, ◌-◌, Bool, ◌&&◌, Option, none, some, List, [], ◌∷◌, ◌++◌, if◌then◌else◌, ◌==◌, nat_eq,
  leb, ltb, length, is_empty, unwrap_or,
}
use aperture_router.Net.{Result, ok, err}
use aperture_router.Text.{Text}

-- Between characters, or inside one: the next byte lies in a range, and `more` bytes follow it.
pub data Decoder : Type 0 where
  start : Decoder
  needs : ℕ → ℕ → ℕ → Decoder

abbrev within : ℕ → ℕ → ℕ → Bool
within low high c = leb low c && leb c high

abbrev first_byte : ℕ → Option Decoder
first_byte c =
    if ltb c 128
    then some start
    else if within 194 223 c
    then some (needs 128 191 0)
    else if c == 224
    then some (needs 160 191 1)
    else if c == 237
    then some (needs 128 159 1)
    else if within 225 239 c
    then some (needs 128 191 1)
    else if c == 240
    then some (needs 144 191 2)
    else if within 241 243 c
    then some (needs 128 191 2)
    else if c == 244
    then some (needs 128 143 2)
    else none

abbrev more_bytes : ℕ → Decoder
more_bytes more = if more == 0 then start else needs 128 191 (more - 1)

-- `none` is a byte that cannot stand there.
unfoldable pub advance : Decoder → ℕ → Option Decoder
advance start c = first_byte c
advance (needs low high more) c = if within low high c then some (more_bytes more) else none

-- What is complete of the bytes of a character, and what is not.
abbrev pub complete : Decoder → Text → Text
complete start pending = pending
complete (needs low high more) pending = []

abbrev pub incomplete : Decoder → Text → Text
incomplete start pending = []
incomplete (needs low high more) pending = pending

-- The outcome of `from_utf8`: the text up to `valid_up_to`, what follows it, and `error_len`. It is
-- `Ok` exactly if nothing follows.
pub record Utf8 : Type 0 where
  pub valid : Text
  pub rest : Text
  pub error_len : Option ℕ

abbrev pub after : Text → Utf8 → Utf8
after s u = record u { valid = s ++ u.valid }

abbrev pub rejected : Text → Text → Utf8
rejected pending s = record {
  valid = [];
  rest = pending ++ s;
  error_len = some (if is_empty pending then 1 else length pending);
}

unfoldable pub scan : Decoder → Text → Text → Utf8
scan d pending [] = record { valid = []; rest = pending; error_len = none }
scan d pending (c ∷ s) = elim (advance d c) [
  | none ↦ rejected pending (c ∷ s)
  | some d' ↦
      after (complete d' (pending ++ c ∷ [])) (scan d' (incomplete d' (pending ++ c ∷ [])) s)
]

unfoldable pub from_utf8 : Text → Utf8
from_utf8 buf = scan start [] buf

-- U+FFFD
abbrev pub replacement : Text
replacement = 239 ∷ 191 ∷ 189 ∷ []

-- `String::from_utf8_lossy`: one replacement for each longest start of a character that does not go
-- on; the byte that does not fit is read again.
abbrev lossy_first : (Decoder → Text → Text) → ℕ → Text
lossy_first go c = elim (first_byte c) [
  | none ↦ replacement ++ go start []
  | some d ↦ complete d (c ∷ []) ++ go d (incomplete d (c ∷ []))
]

unfoldable pub lossy : Text → Decoder → Text → Text
lossy [] d pending = if is_empty pending then [] else replacement
lossy (c ∷ s) d pending = elim (advance d c) [
  | some d' ↦ complete d' (pending ++ c ∷ []) ++ lossy s d' (incomplete d' (pending ++ c ∷ []))
  | none ↦
      if is_empty pending
      then replacement ++ lossy s start []
      else replacement ++ lossy_first (lossy s) c
]

pub data StreamError : Type 0 where
  upstream too_large service_unavailable : StreamError

-- `total_bytes` and `leftover`, which the closure of the stream keeps.
pub record Utf8State : Type 0 where
  pub total_bytes : ℕ
  pub leftover : Text

abbrev pub fresh : Utf8State
fresh = record { total_bytes = 0; leftover = [] }

-- The text that a buffer gives, and what stays in it.
abbrev pub take_text : Text → Utf8 → Text × Text
take_text buf u =
    if is_empty u.rest
    then (buf, [])
    else if is_empty u.valid
    then (if ltb (4 + unwrap_or u.error_len 1) (length buf)
        then (lossy buf start [], [])
        else ([], buf))
    else (u.valid, u.rest)

unfoldable pub on_bytes : ℕ → Text → Utf8State → Result StreamError Text × Utf8State
on_bytes max_size bytes s =
    if ltb max_size (s.total_bytes + length bytes)
    then (err too_large, s)
    else (let buf = s.leftover ++ bytes in
        let (text, leftover) = take_text buf (from_utf8 buf) in
        (ok text, record { total_bytes = s.total_bytes + length bytes; leftover = leftover }))

-- The stream; an error of the network is passed on, and the end flushes nothing.
unfoldable pub utf8_stream :
    ℕ → Utf8State → List (Result StreamError Text) → List (Result StreamError Text)
utf8_stream max_size s [] = []
utf8_stream max_size s (err e ∷ chunks) = err e ∷ utf8_stream max_size s chunks
utf8_stream max_size s (ok bytes ∷ chunks) =
    let (text, s') = on_bytes max_size bytes s in text ∷ utf8_stream max_size s' chunks
