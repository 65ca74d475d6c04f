-- ===== src/Conversion/Request.antt =====
-- `anthropic_request_to_openai` of src/types/conversion.rs.
use aperture_router.Prelude.{
  String, Option, none, some, List, [], ◌∷◌, ◌++◌, if◌then◌else◌, ◌==◌, string_eq, and_then,
  unwrap_or,
}
use aperture_router.Json
use aperture_router.Json.{Value, string, json, array_of, get_str, get_array, set_key, remove_key}
use aperture_router.Conversion.Content.{
  filter_map, get_or_null, extract_text_from_content, convert_anthropic_tool_to_openai,
  convert_anthropic_tool_choice,
}
use aperture_router.Conversion.Messages.{convert_anthropic_message_expanded}

-- `openai[k] = v` where there is a value.
unfoldable pub set_if : String → Option Value → Value → Value
set_if k none v = v
set_if k (some w) v = set_key k w v

abbrev unless_empty : List Value → Option Value
unless_empty [] = none
unless_empty (v ∷ vs) = some (array_of (v ∷ vs))

-- The optional fields, one after the other.
unfoldable pub set_all : List (String × Option Value) → Value → Value
set_all [] v = v
set_all ((k, w) ∷ kws) v = set_all kws (set_if k w v)

unfoldable pub remove_all : List String → Value → Value
remove_all [] v = v
remove_all (k ∷ ks) v = remove_all ks (remove_key k v)

unfoldable pub tools_of : Value → Option Value
tools_of anthropic =
    and_then (get_array "tools" anthropic)
      (λ tools. unless_empty (filter_map convert_anthropic_tool_to_openai tools))

unfoldable pub user_of : Value → Option Value
user_of anthropic =
    and_then (Json.get "metadata" anthropic)
      (λ metadata. and_then (get_str "user_id" metadata) (λ user_id. some (string user_id)))

unfoldable pub choice_of : Value → Option Value
choice_of anthropic =
    and_then (Json.get "tool_choice" anthropic) (λ tc. some (convert_anthropic_tool_choice tc))

unfoldable pub system_messages : Option Value → List Value
system_messages none = []
system_messages (some system) =
    let system_text = extract_text_from_content system in
    if system_text == ""
    then []
    else json (("role", string "system") ∷ ("content", string system_text) ∷ []) ∷ []

abbrev pub optional_fields : Value → List (String × Option Value)
optional_fields anthropic =
    ("max_completion_tokens", Json.get "max_tokens" anthropic)
    ∷ ("temperature", Json.get "temperature" anthropic)
    ∷ ("stream", Json.get "stream" anthropic)
    ∷ ("top_p", Json.get "top_p" anthropic)
    ∷ ("stop", Json.get "stop_sequences" anthropic)
    ∷ ("tools", tools_of anthropic)
    ∷ ("tool_choice", choice_of anthropic)
    ∷ ("user", user_of anthropic)
    ∷ []

module _ (to_string : Value → String) where
  unfoldable pub expand_all : List Value → List Value
  expand_all [] = []
  expand_all (msg ∷ msgs) =
      convert_anthropic_message_expanded to_string (unwrap_or (get_str "role" msg) "user")
        (Json.get "content" msg)
      ++ expand_all msgs

  unfoldable pub messages_of : Value → List Value
  messages_of anthropic =
      system_messages (Json.get "system" anthropic)
      ++ expand_all (unwrap_or (get_array "messages" anthropic) [])

  unfoldable pub anthropic_request_to_openai : Value → Value
  anthropic_request_to_openai anthropic =
      remove_all
        ("thinking" ∷ "top_k" ∷ "metadata" ∷ "system" ∷ "stop_sequences" ∷ "cache_control" ∷ [])
        (set_all (optional_fields anthropic) (
          json (
            ("model", get_or_null "model" anthropic)
            ∷ ("messages", array_of (messages_of anthropic))
            ∷ [])))
