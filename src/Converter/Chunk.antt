-- ===== src/Converter/Chunk.antt =====
-- `process_openai_chunk` and `convert_chunk` of src/types/conversion.rs.
use aperture_router.Prelude.{
  ℕ, ◌*◌, ◌%◌, ◌^◌, String, true, not, ◌&&◌, Option, none, some, List, [], ◌∷◌, ◌++◌, if◌then◌else◌,
  ◌==◌, string_eq, nat_eq, and_then, first, ltb, length,
}
use aperture_router.Text.{Text, text_eq, utf8, starts_with, strip_prefix, trim}
use aperture_router.Lines.{split_lines, trim_line}
use aperture_router.Json.{Value, get, as_str, get_str, get_array, get_u64}
use aperture_router.Converter.{
  Converter, Step, skip, ◌then◌, message_start, overflow_error, stop_thinking, stop_text,
  start_thinking, start_text, thinking_delta, text_delta, close_with_stop_reason, close_stream,
}
use aperture_router.Converter.Tools.{tool_calls}

abbrev pub max_line_buffer : ℕ
max_line_buffer = 1024 * 1024

-- `obj.get("reasoning_content").or_else(|| obj.get("reasoning"))`, as a text
unfoldable pub get_reasoning : Value → Option String
get_reasoning obj = elim (get "reasoning_content" obj) [
  | some c ↦ as_str c
  | none ↦ get_str "reasoning" obj
]

unfoldable pub start_message : Step
start_message s =
    if s.message_started
    then ([], s)
    else (message_start s ∷ [], record s { message_started = true })

abbrev pub read_input : Option ℕ → Converter → Converter
read_input none s = s
read_input (some t) s = record s { input_tokens = t % 2 ^ 32 }

abbrev pub read_output : Option ℕ → Converter → Converter
read_output none s = s
read_output (some t) s = record s { output_tokens = t % 2 ^ 32; output_tokens_from_upstream = true }

unfoldable pub read_usage : Option Value → Step
read_usage none s = ([], s)
read_usage (some usage) s = (
  [],
  read_output (get_u64 "completion_tokens" usage) (read_input (get_u64 "prompt_tokens" usage) s),
)

-- A thinking block is opened behind a text block that is still open.
unfoldable pub open_thinking : Step
open_thinking s = if s.thinking_block_open then ([], s) else (stop_text then start_thinking) s

unfoldable pub on_reasoning : Option String → Step
on_reasoning none = skip
on_reasoning (some reasoning) =
    if reasoning == "" then skip else (open_thinking then thinking_delta reasoning)

unfoldable pub on_content : Option String → Step
on_content none = skip
on_content (some content) =
    if content == "" then skip else (stop_thinking then start_text then text_delta content)

unfoldable pub on_tool_calls : Option (List Value) → Step
on_tool_calls none = skip
on_tool_calls (some tcs) = stop_thinking then stop_text then tool_calls tcs

unfoldable pub on_delta : Option Value → Step
on_delta none = skip
on_delta (some delta) =
    on_reasoning (get_reasoning delta)
    then on_content (get_str "content" delta)
    then on_tool_calls (get_array "tool_calls" delta)

unfoldable pub on_finish : Option String → Step
on_finish none = skip
on_finish (some reason) =
    if not (reason == "null") && not (reason == "") then close_with_stop_reason reason else skip

-- `choices[0]`
abbrev pub choice_of : Value → Option Value
choice_of value = and_then (get_array "choices" value) first

unfoldable pub process_openai_chunk : Value → Step
process_openai_chunk value =
    start_message
    then read_usage (get "usage" value)
    then on_delta (and_then (choice_of value) (get "delta"))
    then on_finish (and_then (choice_of value) (get_str "finish_reason"))

module _ (from_str : Text → Option Value) where
  abbrev process_parsed : Option Value → Step
  process_parsed none = skip
  process_parsed (some value) = process_openai_chunk value

  -- What follows `data: ` on a line.
  unfoldable pub process_data : Text → Step
  process_data json_data =
      if trim json_data == utf8 "[DONE]" then close_stream else process_parsed (from_str json_data)

  -- One round of the loop, on a line without its terminator.
  unfoldable pub process_line : Text → Step
  process_line line =
      if starts_with (utf8 "event: ") line then skip else elim (strip_prefix (utf8 "data: ") line) [
        | none ↦ skip
        | some json_data ↦ process_data json_data
      ]

  unfoldable pub process_lines : List Text → Step
  process_lines [] = skip
  process_lines (line ∷ lines) = process_line (trim_line line) then process_lines lines

  -- The loop takes each line off the buffer before it processes it; no step reads the buffer.
  unfoldable pub convert_within : ℕ → Text → Step
  convert_within limit raw_chunk s =
      let buffer = s.line_buffer ++ raw_chunk in
      if ltb limit (length buffer)
      then ((λ t. (overflow_error ∷ [], t)) then close_stream) (record s { line_buffer = [] })
      else (let (lines, rest) = split_lines buffer in
          process_lines lines (record s { line_buffer = rest }))

  unfoldable pub convert_chunk : Text → Step
  convert_chunk = convert_within max_line_buffer
