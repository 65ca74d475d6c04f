-- ===== src/Streaming/Screen.antt =====
-- The screening of the upstream's lines in src/routes/streaming.rs, and `detect_wire_format`.
use aperture_router.Prelude.{
  nat_eq, ℕ, String, Bool, true, false, ◌&&◌, ◌||◌, Option, none, some, List, [], ◌∷◌, ◌++◌, map,
  if◌then◌else◌, ◌==◌, string_eq, any, is_some, is_empty, and_then, first,
}
use aperture_router.Net.{ok, err}
use aperture_router.Text.{Text, text_eq, utf8, strip_prefix, trim}
use aperture_router.Lines.{split_lines, carriage_return}
use aperture_router.Json.{Value, get, get_array, has_type}
use aperture_router.Streaming.Depth.{parse_json_with_depth_limit}

-- `axum`'s `Event` as far as it is set here: `event(…)` if given, and `data(…)`.
pub record Event : Type 0 where
  pub event : Option Text
  pub payload : Text

unfoldable pub check_for_tool_calls_openai : Value → Bool
check_for_tool_calls_openai value = is_some (
    and_then (and_then (get_array "choices" value) first)
      (λ choice. and_then (get "delta" choice) (get "tool_calls")))

-- `value.get(key).and_then(|b| b.get("type")).and_then(|t| t.as_str()) == Some(name)`
abbrev pub inner_type_is : String → String → Value → Bool
inner_type_is key name value = elim (get key value) [ none ↦ false | some b ↦ has_type b name ]

unfoldable pub check_for_tool_calls_anthropic : Value → Bool
check_for_tool_calls_anthropic value =
    if has_type value "content_block_start"
    then inner_type_is "content_block" "tool_use" value
    else if has_type value "content_block_delta"
    then inner_type_is "delta" "tool_use" value
    else false

-- The array in `content` holds a thinking block.
abbrev pub has_thinking_content : Value → Bool
has_thinking_content value = elim (get_array "content" value) [
  | none ↦ false
  | some items ↦ any (λ item. has_type item "thinking") items
]

unfoldable pub is_thinking_block : Value → Bool
is_thinking_block value =
    if has_type value "content_block_start" && is_some (get "content_block" value)
    then inner_type_is "content_block" "thinking" value
    else if has_type value "content_block_delta" && is_some (get "delta" value)
    then inner_type_is "delta" "thinking" value
    else has_thinking_content value

-- `str::lines`: a carriage return goes only in front of a newline.
unfoldable pub strip_return : Text → Text
strip_return [] = []
strip_return (c ∷ []) = if c == carriage_return then [] else c ∷ []
strip_return (c ∷ d ∷ s) = c ∷ strip_return (d ∷ s)

unfoldable pub lines : Text → List Text
lines chunk =
    let (whole, rest) = split_lines chunk in
    map strip_return whole ++ (if is_empty rest then [] else rest ∷ [])

-- An event of its own type, or an untyped one.
unfoldable pub make_event : Text → Text → Event
make_event event_type json_data =
    if event_type == utf8 "data" || is_empty event_type
    then record { event = none; payload = json_data }
    else record { event = some event_type; payload = json_data }

abbrev pub plain_event : Text → Event
plain_event payload = record { event = none; payload = payload }

module _ (from_str : Text → Option Value) (include_thinking : Bool) (max_json_depth : ℕ) where
  -- Whether a `data: ` line goes on to the client.
  unfoldable pub should_include : Text → Bool
  should_include json_data = elim (parse_json_with_depth_limit from_str json_data max_json_depth) [
    | ok value ↦ if is_thinking_block value then include_thinking else true
    | err e ↦ true
  ]

  -- What one `data: ` line gives.
  unfoldable pub process_data : Text → Text → List Event
  process_data event_type json_data =
      if json_data == utf8 "[DONE]"
      then plain_event (utf8 "[DONE]") ∷ []
      else if should_include json_data
      then make_event event_type json_data ∷ []
      else []

  -- The loop over the lines; `event_type` is its variable.
  unfoldable pub process_lines : Text → List Text → List Event
  process_lines event_type [] = []
  process_lines event_type (line ∷ ls) = elim (strip_prefix (utf8 "event: ") line) [
    | some rest ↦ process_lines (trim rest) ls
    | none ↦ elim (strip_prefix (utf8 "data: ") line) [
      | some json_data ↦ process_data event_type json_data ++ process_lines event_type ls
      | none ↦ process_lines event_type ls
    ]
  ]

  unfoldable pub process_sse_chunk_lines : Text → List Event
  unfolding process_lines process_data make_event
  process_sse_chunk_lines chunk =
      let events = process_lines (utf8 "data") (lines chunk) in
      if is_empty events then plain_event [] ∷ [] else events

abbrev pub has_any : Value → List String → Bool
has_any request keys = any (λ k. is_some (get k request)) keys

abbrev pub anthropic_markers : List String
anthropic_markers = "system" ∷ "stop_sequences" ∷ "thinking" ∷ "top_k" ∷ []

abbrev pub openai_markers : List String
openai_markers =
    "max_completion_tokens" ∷ "frequency_penalty" ∷ "presence_penalty" ∷ "logit_bias" ∷ "n"
    ∷ "response_format" ∷ "seed" ∷ []

unfoldable pub detect_wire_format : Value → String
detect_wire_format request =
    if has_any request anthropic_markers
    then "v1/messages"
    else if has_any request openai_markers
    then "v1/chat/completions"
    else if is_some (get "max_tokens" request)
    then "v1/messages"
    else "v1/chat/completions"
