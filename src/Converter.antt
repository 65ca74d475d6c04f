-- ===== src/Converter.antt =====
-- `OpenAIToAnthropicStreamConverter` of src/types/conversion.rs: its state and the building blocks
-- of its methods. An event keeps the JSON value whose text the source stores. `usize` counters stay
-- below 2^64 by the number of events that can be sent, and are plain numbers; token counts wrap.
pub mod Tools
pub mod Chunk
pub mod Monitor
pub mod Relation
pub mod Protocol
pub mod Contents
pub mod Calls
pub mod Closing
pub mod Session
mod Tests
use aperture_router.Prelude.{
  ℕ, suc, ◌+◌, ◌%◌, ◌^◌, String, Bool, true, false, Option, none, some, List, [], ◌∷◌, ◌++◌,
  if◌then◌else◌, ◌==◌, string_eq, nat_eq, is_empty,
}
use aperture_router.Maps
use aperture_router.Maps.{Map}
use aperture_router.Text.{Text}
use aperture_router.Json.{Value, null, string, json, num, array_of}

pub record SseEventData : Type 0 where
  pub event_type : String
  pub payload : Value

pub record ToolBlockState : Type 0 where
  pub id : String
  pub block_index : ℕ

pub record Converter : Type 0 where
  pub msg_id : String
  pub model : String
  pub message_started : Bool
  pub message_ended : Bool
  pub content_block_index : ℕ
  pub text_block_open : Bool
  pub thinking_block_open : Bool
  pub tool_blocks : Map ℕ ToolBlockState
  pub tool_block_order : List ℕ
  pub next_tool_slot : ℕ
  pub last_tool_slot : Option ℕ
  pub input_tokens : ℕ
  pub output_tokens : ℕ
  pub output_tokens_from_upstream : Bool
  pub line_buffer : Text

-- `msg_id` is the fresh identifier that the source makes.
unfoldable pub new : String → String → Converter
new msg_id model = record {
  msg_id = msg_id;
  model = model;
  message_started = false;
  message_ended = false;
  content_block_index = 0;
  text_block_open = false;
  thinking_block_open = false;
  tool_blocks = [];
  tool_block_order = [];
  next_tool_slot = 0;
  last_tool_slot = none;
  input_tokens = 0;
  output_tokens = 0;
  output_tokens_from_upstream = false;
  line_buffer = [];
}

-- A piece of a method: the events that it pushes, and the converter after it.
abbrev pub Step : Type 0
Step = Converter → List SseEventData × Converter

infixr 6 ◌then◌
unfoldable pub ◌then◌ : Step → Step → Step
◌then◌ m n s = let (events, s') = m s in let (later, s'') = n s' in (events ++ later, s'')

abbrev pub skip : Step
skip s = ([], s)

-- Changes the state and pushes nothing.
abbrev pub modify : (Converter → Converter) → Step
modify f s = ([], f s)

-- `self.output_tokens += 1` unless the upstream counts.
abbrev pub count_token : Converter → Converter
count_token s = record s {
  output_tokens =
      if s.output_tokens_from_upstream then s.output_tokens else (s.output_tokens + 1) % 2 ^ 32;
}

abbrev pub make_sse_event : String → List (String × Value) → SseEventData
make_sse_event event_type fields = record { event_type = event_type; payload = json fields }

abbrev pub block_stop : ℕ → SseEventData
block_stop index =
    make_sse_event "content_block_stop"
      (("type", string "content_block_stop") ∷ ("index", num index) ∷ [])

abbrev pub block_start : ℕ → List (String × Value) → SseEventData
block_start index block = make_sse_event "content_block_start" (
    ("type", string "content_block_start")
    ∷ ("index", num index)
    ∷ ("content_block", json block)
    ∷ [])

abbrev pub block_delta : ℕ → List (String × Value) → SseEventData
block_delta index delta =
    make_sse_event "content_block_delta"
      (("type", string "content_block_delta") ∷ ("index", num index) ∷ ("delta", json delta) ∷ [])

abbrev pub message_start : Converter → SseEventData
message_start s = make_sse_event "message_start" (
    ("type", string "message_start")
    ∷ (
      "message",
      json (
          ("id", string s.msg_id)
          ∷ ("type", string "message")
          ∷ ("role", string "assistant")
          ∷ ("content", array_of [])
          ∷ ("model", string s.model)
          ∷ ("stop_reason", null)
          ∷ ("stop_sequence", null)
          ∷ ("usage", json (("input_tokens", num s.input_tokens) ∷ ("output_tokens", num 0) ∷ []))
          ∷ []),
    )
    ∷ [])

abbrev pub message_delta : String → ℕ → SseEventData
message_delta stop_reason output_tokens = make_sse_event "message_delta" (
    ("type", string "message_delta")
    ∷ ("delta", json (("stop_reason", string stop_reason) ∷ ("stop_sequence", null) ∷ []))
    ∷ ("usage", json (("output_tokens", num output_tokens) ∷ []))
    ∷ [])

abbrev pub message_stop : SseEventData
message_stop = make_sse_event "message_stop" (("type", string "message_stop") ∷ [])

abbrev pub overflow_error : SseEventData
overflow_error = make_sse_event "error" (
    ("type", string "error")
    ∷ (
      "error",
      json (("type", string "api_error") ∷ ("message", string "Stream buffer overflow") ∷ []),
    )
    ∷ [])

-- `if self.thinking_block_open { … }`: the stop event, and the next index.
unfoldable pub stop_thinking : Step
stop_thinking s =
    if s.thinking_block_open
    then (
      block_stop s.content_block_index ∷ [],
      record s { thinking_block_open = false; content_block_index = s.content_block_index + 1 },
    )
    else ([], s)

unfoldable pub stop_text : Step
stop_text s =
    if s.text_block_open
    then (
      block_stop s.content_block_index ∷ [],
      record s { text_block_open = false; content_block_index = s.content_block_index + 1 },
    )
    else ([], s)

unfoldable pub start_thinking : Step
start_thinking s = (
  block_start s.content_block_index (("type", string "thinking") ∷ ("thinking", string "") ∷ [])
      ∷ [],
  record s { thinking_block_open = true },
)

unfoldable pub start_text : Step
start_text s = if s.text_block_open then ([], s) else (
  block_start s.content_block_index (("type", string "text") ∷ ("text", string "") ∷ []) ∷ [],
  record s { text_block_open = true },
)

unfoldable pub thinking_delta : String → Step
thinking_delta reasoning s = (
  block_delta s.content_block_index
        (("type", string "thinking_delta") ∷ ("thinking", string reasoning) ∷ [])
      ∷ [],
  count_token s,
)

unfoldable pub text_delta : String → Step
text_delta content s = (
  block_delta s.content_block_index (("type", string "text_delta") ∷ ("text", string content) ∷ [])
      ∷ [],
  count_token s,
)

-- The stops of the tool blocks, in their order.
unfoldable pub stop_tools : Map ℕ ToolBlockState → List ℕ → List SseEventData
stop_tools tool_blocks [] = []
stop_tools tool_blocks (tc_idx ∷ order) = elim (Maps.get tc_idx tool_blocks) [
  | none ↦ stop_tools tool_blocks order
  | some tool_state ↦ block_stop tool_state.block_index ∷ stop_tools tool_blocks order
]

unfoldable pub close_open_blocks : Step
close_open_blocks =
    stop_thinking then stop_text then λ s. (stop_tools s.tool_blocks s.tool_block_order, s)

-- The stop reason of an OpenAI finish reason.
unfoldable pub stop_reason_of : String → String
stop_reason_of reason =
    if reason == "stop"
    then "end_turn"
    else if reason == "length"
    then "max_tokens"
    else if reason == "tool_calls"
    then "tool_use"
    else "end_turn"

unfoldable pub finish : String → Step
finish reason s = (message_delta (stop_reason_of reason) s.output_tokens ∷ message_stop ∷ [], s)

unfoldable pub close_with_stop_reason : String → Step
unfolding finish
close_with_stop_reason reason s =
    if s.message_ended
    then ([], s)
    else (close_open_blocks then finish reason) (record s { message_ended = true })

unfoldable pub close_stream : Step
close_stream s = if s.message_started then close_with_stop_reason "stop" s else ([], s)
