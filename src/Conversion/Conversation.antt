-- ===== src/Conversion/Conversation.antt =====
-- Tool calls and results in the whole request.
use aperture_router.Prelude.{
  ◌≡◌, refl, String, Bool, true, false, Option, none, some, List, [], ◌∷◌, All, ◌==◌, string_eq,
  unwrap_or, if◌then◌else◌,
}
use aperture_router.Json
use aperture_router.Json.{Value, items-to_items, get_array, json, string}
use aperture_router.Conversion.Request.{
  anthropic_request_to_openai, messages_of, system_messages, expand_all,
}
use aperture_router.Conversion.Content.{extract_text_from_content}
use aperture_router.Conversion.Calls.{
  openai_events, openai_events-append, conversation_events, role_of, tool_events-expand_all,
}
use aperture_router.Conversion.Fields.{messages-request}

-- The messages of an Anthropic body.
abbrev pub messages_in : Value → List Value
messages_in body = unwrap_or (get_array "messages" body) []

events-system : (system : Option Value) → openai_events (system_messages system) ≡ []
unfolding openai_events system_messages
events-system none = refl
events-system (some system) = unless_empty (extract_text_from_content system == "")
  where
    unless_empty :
        (b : Bool)
        → openai_events (
            if b
            then []
            else json (
                ("role", string "system")
                ∷ ("content", string (extract_text_from_content system))
                ∷ [])
              ∷ [])
          ≡ []
    unless_empty true = refl
    unless_empty false = refl

-- In a request whose messages have no role "tool", the OpenAI request has exactly the tool calls
-- and tool results of the Anthropic messages' blocks, each once, with its identifier, in the same
-- order.
pub tool_events-request :
    (to_string : Value → String) (anthropic : Value)
    → All (λ msg. role_of msg == "tool" ≡ false) (messages_in anthropic)
    → openai_events (messages_in (anthropic_request_to_openai to_string anthropic))
      ≡ conversation_events (messages_in anthropic)
unfolding messages_of
tool_events-request to_string anthropic h =
    rw
      (
        messages-request to_string anthropic,
        items-to_items (messages_of to_string anthropic),
        openai_events-append (system_messages (Json.get "system" anthropic))
            (expand_all to_string (messages_in anthropic)),
        events-system (Json.get "system" anthropic),
      )
      (tool_events-expand_all to_string (messages_in anthropic) h)
