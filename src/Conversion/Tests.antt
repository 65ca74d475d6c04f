-- ===== src/Conversion/Tests.antt =====
-- The conversions on a concrete conversation.
use aperture_router.Prelude.{
  ◌≡◌, refl, String, true, false, Option, none, some, List, [], ◌∷◌, contains, is_empty, unwrap_or,
  keep, string_eq,
}
use aperture_router.Json
use aperture_router.Json.{Value, string, json, array_of, num, get_str, get_array}
use aperture_router.Conversion.Content.{get_or_null}
use aperture_router.Conversion.Messages.{convert_anthropic_message_expanded, keeps_reasoning_out}
use aperture_router.Conversion.Request.{anthropic_request_to_openai}
use aperture_router.Conversion.Response.{openai_response_to_anthropic}
use aperture_router.Conversion.Calls.{openai_events, conversation_events}
use aperture_router.Conversion.Conversation.{messages_in, tool_events-request}
use aperture_router.Conversion.Thinking.{reasoning-IsDropped}
use aperture_router.Conversion.Fields.{request_fields, removed}
use aperture_router.Conversion.Answer.{response-IsComplete, reasons}

abbrev to_string : Value → String
to_string v = "{}"

abbrev from_str : String → Option Value
from_str s = some (json [])

abbrev thinking : Value
thinking = json (("type", string "thinking") ∷ ("thinking", string "hm") ∷ [])

abbrev use_block : Value
use_block = json (("type", string "tool_use") ∷ ("id", string "c1") ∷ ("name", string "f") ∷ [])

abbrev result_block : Value
result_block =
    json
      (("type", string "tool_result") ∷ ("tool_use_id", string "c1") ∷ ("content", string "7") ∷ [])

abbrev message : String → List Value → Value
message role blocks = json (("role", string role) ∷ ("content", array_of blocks) ∷ [])

abbrev body : Value
body = json (
    ("model", string "m")
    ∷ ("max_tokens", num 8)
    ∷ ("top_k", num 1)
    ∷ ("system", string "be brief")
    ∷ (
      "messages",
      array_of (
          message "assistant" (thinking ∷ use_block ∷ [])
          ∷ message "user" (result_block ∷ [])
          ∷ []),
    )
    ∷ [])

tool_events-request_example :
    openai_events (messages_in (anthropic_request_to_openai to_string body))
    ≡ conversation_events (messages_in body)
tool_events-request_example = tool_events-request to_string body (refl, (refl, tt))

reasoning-IsDropped_example :
    convert_anthropic_message_expanded to_string "assistant"
      (some (array_of (thinking ∷ use_block ∷ [])))
    ≡ convert_anthropic_message_expanded to_string "assistant"
        (some (array_of (keep keeps_reasoning_out (thinking ∷ use_block ∷ []))))
reasoning-IsDropped_example = reasoning-IsDropped to_string (thinking ∷ use_block ∷ [])

abbrev sent : Value
sent = anthropic_request_to_openai to_string body

request_fields_example :
    (Json.get "max_completion_tokens" sent ≡ Json.get "max_tokens" body)
    × (Json.get "temperature" sent ≡ Json.get "temperature" body)
    × (Json.get "stream" sent ≡ Json.get "stream" body)
    × (Json.get "top_p" sent ≡ Json.get "top_p" body)
    × (Json.get "stop" sent ≡ Json.get "stop_sequences" body)
    × (Json.get "model" sent ≡ some (get_or_null "model" body))
    × ((j : String) → contains (removed to_string body) j ≡ true → Json.get j sent ≡ none)
request_fields_example = request_fields to_string body

response-IsComplete_example :
    (is_empty (unwrap_or (get_array "content" (openai_response_to_anthropic from_str "i" body)) [])
      ≡ false)
    × (contains reasons
          (unwrap_or (get_str "stop_reason" (openai_response_to_anthropic from_str "i" body)) "")
        ≡ true)
response-IsComplete_example = response-IsComplete from_str "i" body
