-- ===== src/Conversion/Response.antt =====
-- `openai_response_to_anthropic` of src/types/conversion.rs.
use aperture_router.Prelude.{
  String, Option, none, some, List, [], ◌∷◌, ◌++◌, map, if◌then◌else◌, ◌==◌, string_eq, and_then,
  unwrap_or, first,
}
use aperture_router.Json
use aperture_router.Json.{Value, null, string, json, num, array_of, get_str, get_array}
use aperture_router.Conversion.Content.{get_or_null}
use aperture_router.Converter.{stop_reason_of}
use aperture_router.Converter.Chunk.{get_reasoning}

-- A block for a text that is there and not empty.
unfoldable pub block_unless_empty : String → String → Option String → List Value
block_unless_empty kind name none = []
block_unless_empty kind name (some text) =
    if text == "" then [] else json (("type", string kind) ∷ (name, string text) ∷ []) ∷ []

abbrev pub or_empty_text : List Value → List Value
or_empty_text [] = json (("type", string "text") ∷ ("text", string "") ∷ []) ∷ []
or_empty_text (b ∷ content) = b ∷ content

abbrev pub or_end_turn : Option String → String
or_end_turn none = "end_turn"
or_end_turn (some r) = stop_reason_of r

abbrev usage_or : Option Value → String → Value → Value
usage_or usage k otherwise = unwrap_or (and_then usage (Json.get k)) otherwise

module _ (from_str : String → Option Value) where
  unfoldable pub tool_use_of : Value → Value
  tool_use_of tc =
      let function = Json.get "function" tc in
      json (
        ("type", string "tool_use")
        ∷ ("id", get_or_null "id" tc)
        ∷ ("name", unwrap_or (and_then function (Json.get "name")) null)
        ∷ (
          "input",
          unwrap_or (and_then (and_then function (get_str "arguments")) from_str) (json []),
        )
        ∷ [])

  unfoldable pub content_of : Option Value → List Value
  content_of none = []
  content_of (some msg) =
      block_unless_empty "thinking" "thinking" (get_reasoning msg)
      ++ block_unless_empty "text" "text" (get_str "content" msg)
      ++ map tool_use_of (unwrap_or (get_array "tool_calls" msg) [])

  -- `id` is the fresh identifier that the source makes.
  unfoldable pub openai_response_to_anthropic : String → Value → Value
  openai_response_to_anthropic id openai =
      let choice = and_then (get_array "choices" openai) first in
      let usage = Json.get "usage" openai in
      json (
        ("id", string id)
        ∷ ("type", string "message")
        ∷ ("role", string "assistant")
        ∷ ("content", array_of (or_empty_text (content_of (and_then choice (Json.get "message")))))
        ∷ ("model", get_or_null "model" openai)
        ∷ ("stop_reason", string (or_end_turn (and_then choice (get_str "finish_reason"))))
        ∷ ("stop_sequence", usage_or usage "stop_sequence" null)
        ∷ (
          "usage",
          json (
              ("input_tokens", usage_or usage "prompt_tokens" (num 0))
              ∷ ("output_tokens", usage_or usage "completion_tokens" (num 0))
              ∷ []),
        )
        ∷ [])
