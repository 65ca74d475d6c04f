-- ===== src/Conversion/Messages.antt =====
-- The messages that one Anthropic message becomes: `convert_anthropic_message_expanded` of
-- src/types/conversion.rs.
use Prim.Native.String
use aperture_router.Prelude.{
  ℕ, ◌+◌, String, Bool, true, false, not, ◌&&◌, Option, none, some, List, [], ◌∷◌, ◌++◌, any, map,
  keep, if◌then◌else◌, ◌==◌, string_eq, and_then, unwrap_or, is_empty,
}
use aperture_router.Json
use aperture_router.Json.{
  Value, null, string, array, json, num, array_of, items, as_str, as_bool, as_array, get_str,
}
use aperture_router.Conversion.Content.{
  join, filter_map, block_type, get_or_null, convert_tool_result_content_to_openai,
  convert_blocks_to_openai_content, convert_anthropic_message,
}

-- The texts of an assistant's message.
unfoldable pub text_block : Value → Option String
text_block b = if block_type b == "text" then get_str "text" b else none

abbrev pub is_tool_use : Value → Bool
is_tool_use b = block_type b == "tool_use"

abbrev pub is_tool_result : Value → Bool
is_tool_result b = block_type b == "tool_result"

abbrev pub joined_texts : List String → Value
joined_texts [] = null
joined_texts (s ∷ ss) = string (join (s ∷ ss))

-- The type of a block, where a missing one is not a text.
abbrev pub keeps_reasoning_out : Value → Bool
keeps_reasoning_out b =
    let t = unwrap_or (get_str "type" b) "" in
    not (t == "thinking") && not (t == "redacted_thinking")

abbrev is_error_block : Value → Bool
is_error_block b = unwrap_or (and_then (Json.get "is_error" b) as_bool) false

abbrev mark_error : Bool → Value → Value
mark_error true (string s) = string (String.◌++◌ "Error: " s)
mark_error _ v = v

module _ (to_string : Value → String) where
  unfoldable pub tool_call_of : ℕ → Value → Value
  tool_call_of tc_index b = json (
      ("id", string (unwrap_or (get_str "id" b) ""))
      ∷ ("type", string "function")
      ∷ ("index", num tc_index)
      ∷ (
        "function",
        json (
            ("name", string (unwrap_or (get_str "name" b) ""))
            ∷ ("arguments", string (to_string (unwrap_or (Json.get "input" b) (json []))))
            ∷ []),
      )
      ∷ [])

  -- The tool calls of the blocks, numbered from this index.
  unfoldable pub tool_calls_from : ℕ → List Value → List Value
  tool_calls_from tc_index [] = []
  tool_calls_from tc_index (b ∷ blocks) =
      let with_it = tool_call_of tc_index b ∷ tool_calls_from (tc_index + 1) blocks in
      let without = tool_calls_from tc_index blocks in if is_tool_use b then with_it else without

  unfoldable pub without_reasoning : List Value → List Value
  without_reasoning [] = []
  without_reasoning (b ∷ blocks) =
      convert_anthropic_message to_string "assistant" (some (array_of (b ∷ blocks))) ∷ []

  unfoldable pub assistant_messages : List Value → List Value
  assistant_messages blocks =
      if any is_tool_use blocks
      then json (
          ("role", string "assistant")
          ∷ ("content", joined_texts (filter_map text_block blocks))
          ∷ ("tool_calls", array_of (tool_calls_from 0 blocks))
          ∷ [])
        ∷ []
      else without_reasoning (keep keeps_reasoning_out blocks)

  unfoldable pub tool_message : Value → Value
  tool_message b = json (
      ("role", string "tool")
      ∷ ("tool_call_id", string (unwrap_or (get_str "tool_use_id" b) ""))
      ∷ (
        "content",
        mark_error (is_error_block b)
            (convert_tool_result_content_to_openai to_string (get_or_null "content" b)),
      )
      ∷ [])

  -- What the user adds to the tool results, if any of it has an OpenAI form.
  unfoldable pub follow_up : List Value → List Value
  follow_up [] = []
  follow_up (b ∷ blocks) =
      let user_content = convert_blocks_to_openai_content to_string (b ∷ blocks) in
      if is_empty (unwrap_or (as_array user_content) (null ∷ []))
      then []
      else json (("role", string "user") ∷ ("content", user_content) ∷ []) ∷ []

  unfoldable pub user_messages : String → List Value → List Value
  user_messages role blocks =
      if any is_tool_result blocks
      then map tool_message (keep is_tool_result blocks)
        ++ follow_up (keep (λ b. not (is_tool_result b)) blocks)
      else convert_anthropic_message to_string role (some (array_of blocks)) ∷ []

  unfoldable pub convert_anthropic_message_expanded : String → Option Value → List Value
  convert_anthropic_message_expanded role (some (array blocks)) =
      if role == "assistant"
      then assistant_messages (items blocks)
      else user_messages role (items blocks)
  convert_anthropic_message_expanded role content =
      convert_anthropic_message to_string role content ∷ []
