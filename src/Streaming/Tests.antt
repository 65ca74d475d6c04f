-- ===== src/Streaming/Tests.antt =====
-- The reassembly and the screening on concrete chunks.
use aperture_router.Streaming.Request.{check_stream_request}
use aperture_router.Validation.{many_tokens, validate_max_tokens}
use aperture_router.Prelude.{
  ◌-◌, ℕ, ◌^◌, ◌≡◌, ◌↔◌, refl, Bool, true, false, Option, none, some, List, [], ◌∷◌, ◌++◌, map,
  arith, if◌then◌else◌, ◌==◌,
}
use aperture_router.Net.{err, ok, is_ok}
use aperture_router.Text.{
  contains_char, trim, trim_start, trim_end, trim_from, strip_prefix, same_text, Text, utf8,
  text_eq,
}
use aperture_router.Json.{bool, num, Value, string, json}
use aperture_router.Lines.{split_lines}
use aperture_router.Streaming.Buffer.{push_capped, emit_lines, buffered_lines, push}
use aperture_router.Streaming.Reassembly.{
  push_capped-append, buffered_lines-join, push_of_contains_char, render_lines,
}
use aperture_router.Chunks.{join_ok, join}
use aperture_router.Streaming.Depth.{
  parse_json_with_depth_limit, check_depth, check_depth_iff, IsNested, brackets,
}
use aperture_router.Streaming.Screen.{
  lines, strip_return, should_include, process_sse_chunk_lines, is_thinking_block,
}

abbrev chunks : List Text
chunks = (97 ∷ 98 ∷ []) ∷ (13 ∷ 10 ∷ 10 ∷ 99 ∷ []) ∷ (10 ∷ 100 ∷ []) ∷ []

buffered_lines-join_example :
    join_ok (buffered_lines {E = Bool} 8 [] (map ok chunks))
    ≡ render_lines (emit_lines (join chunks))
unfolding emit_lines split_lines
buffered_lines-join_example =
    buffered_lines-join Bool 8 chunks (omega arith, (omega arith, (omega arith, tt)))

push_capped-append_example : push_capped 8 (97 ∷ []) ((98 ∷ 10 ∷ []) ++ (99 ∷ [])) ≡ (
  (push_capped 8 (97 ∷ []) (98 ∷ 10 ∷ [])).0
      ++ (push_capped 8 (push_capped 8 (97 ∷ []) (98 ∷ 10 ∷ [])).1 (99 ∷ [])).0,
  (push_capped 8 (push_capped 8 (97 ∷ []) (98 ∷ 10 ∷ [])).1 (99 ∷ [])).1,
)
push_capped-append_example = push_capped-append 8 (97 ∷ []) (98 ∷ 10 ∷ []) (99 ∷ []) (omega arith)

push_of_contains_char_example : push (97 ∷ []) (98 ∷ []) ≡ ([], 97 ∷ 98 ∷ [])
unfolding contains_char
push_of_contains_char_example = push_of_contains_char (97 ∷ []) (98 ∷ []) refl

check_depth_iff_example :
    (is_ok (check_depth 1 0 false false (utf8 "{[]}")) ≡ true)
    ↔ IsNested 1 0 (brackets false false (utf8 "{[]}"))
check_depth_iff_example = check_depth_iff 1 (utf8 "{[]}")

abbrev thinking : Value
thinking = json (
    ("type", string "content_block_start")
    ∷ ("content_block", json (("type", string "thinking") ∷ []))
    ∷ [])

abbrev from_str : Text → Option Value
from_str s = if s == utf8 "{t}" then some thinking else none

thinking_is_dropped :
    process_sse_chunk_lines from_str false 8 (utf8 "data: {t}\ndata: x\n")
    ≡ record { event = none; payload = utf8 "x" } ∷ []
unfolding process_sse_chunk_lines lines split_lines strip_prefix strip_return same_text
    should_include parse_json_with_depth_limit check_depth is_thinking_block
thinking_is_dropped = refl

-- White space of Unicode around the end marker, and a text of two bytes in UTF-8.
wide_spaces : trim (226 ∷ 128 ∷ 131 ∷ utf8 "a b" ++ 194 ∷ 160 ∷ 32 ∷ []) ≡ utf8 "a b"
unfolding trim trim_start trim_end trim_from
wide_spaces = refl

two_bytes : utf8 "é" ≡ 195 ∷ 169 ∷ []
two_bytes = refl

-- A token limit past 32 bits passes the check; the same limit within them is refused.
abbrev with_tokens : ℕ → Value
with_tokens n = json (("max_tokens", num n) ∷ ("stream", bool true) ∷ [])

tokens_past_u32 : check_stream_request 10 (with_tokens (2 ^ 32)) ≡ ok tt
unfolding check_stream_request
tokens_past_u32 = refl

tokens_within_u32 : check_stream_request 10 (with_tokens (2 ^ 32 - 1)) ≡ err many_tokens
unfolding check_stream_request validate_max_tokens
tokens_within_u32 = refl
