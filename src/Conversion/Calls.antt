-- ===== src/Conversion/Calls.antt =====
-- Tool calls and their results keep their identifiers and their order on the way upstream.
use mathlib.Core.List.{append_assoc, append-nil}
use aperture_router.Prelude.{
  inr, inl, Bool-cases, ℕ, ◌+◌, ◌≡◌, refl, sym, ◌∙◌, ap, arith, String, true, false, not, Option,
  none, some, List, [], ◌∷◌, ◌++◌, any, keep, map, All, if◌then◌else◌, ◌==◌, ==_iff, string_eq,
  unwrap_or,
}
use aperture_router.Json
use aperture_router.Json.{
  Value, Items, string, array, items, to_items, items-to_items, array_of, get_str, get_array,
  is_str,
}
use aperture_router.Conversion.Content.{filter_map, convert_anthropic_message}
use aperture_router.Conversion.Messages.{
  is_tool_use, is_tool_result, keeps_reasoning_out, tool_calls_from, tool_call_of,
  assistant_messages, user_messages, tool_message, follow_up, without_reasoning,
  convert_anthropic_message_expanded,
}
use aperture_router.Conversion.Request.{expand_all}

-- What happens to tools in a conversation: a call with an identifier, and the result of one.
pub data ToolEvent : Type 0 where
  call result : String → ToolEvent

-- The event of a block of an Anthropic message.
abbrev pub block_event : String → Value → Option ToolEvent
block_event role b =
    if role == "assistant"
    then (if is_tool_use b then some (ToolEvent.call (unwrap_or (get_str "id" b) "")) else none)
    else if is_tool_result b
    then some (ToolEvent.result (unwrap_or (get_str "tool_use_id" b) ""))
    else none

abbrev pub blocks_of : Option Value → List Value
blocks_of (some (array blocks)) = items blocks
blocks_of _ = []

abbrev pub anthropic_events : String → Option Value → List ToolEvent
anthropic_events role content = filter_map (block_event role) (blocks_of content)

-- The events of an OpenAI message.
abbrev call_event : Value → ToolEvent
call_event tc = ToolEvent.call (unwrap_or (get_str "id" tc) "")

abbrev pub message_events : Value → List ToolEvent
message_events m =
    if is_str (get_str "role" m) "tool"
    then ToolEvent.result (unwrap_or (get_str "tool_call_id" m) "") ∷ []
    else map call_event (unwrap_or (get_array "tool_calls" m) [])

unfoldable pub openai_events : List Value → List ToolEvent
openai_events [] = []
openai_events (m ∷ ms) = message_events m ++ openai_events ms

pub openai_events-append :
    (ms ns : List Value) → openai_events (ms ++ ns) ≡ openai_events ms ++ openai_events ns
unfolding openai_events
openai_events-append [] ns = refl
openai_events-append (m ∷ ms) ns =
    ap (λ es. message_events m ++ es) (openai_events-append ms ns)
    ∙ sym (append_assoc (message_events m) (openai_events ms) (openai_events ns))

module _ (to_string : Value → String) where
  events-tool_calls_from :
      (n : ℕ) (bs : List Value)
      → map call_event (tool_calls_from to_string n bs) ≡ filter_map (block_event "assistant") bs
  unfolding tool_calls_from filter_map tool_call_of
  events-tool_calls_from n [] = refl
  events-tool_calls_from n (b ∷ bs) =
      ground (arith, events-tool_calls_from n bs, events-tool_calls_from (n + 1) bs)

  events-convert_anthropic_message :
      (role : String) (content : Option Value)
      → role == "tool" ≡ false
      → message_events (convert_anthropic_message to_string role content) ≡ []
  unfolding convert_anthropic_message
  events-convert_anthropic_message role content h = rw h refl

  events-one :
      (role : String) (content : Option Value)
      → role == "tool" ≡ false
      → openai_events (convert_anthropic_message to_string role content ∷ []) ≡ []
  unfolding openai_events
  events-one role content h = rw (events-convert_anthropic_message role content h) refl

  events-tool_messages :
      (role : String) (bs : List Value)
      → role == "assistant" ≡ false
      → openai_events (map (tool_message to_string) (keep is_tool_result bs))
        ≡ filter_map (block_event role) bs
  unfolding openai_events filter_map tool_message
  events-tool_messages role [] h = refl
  events-tool_messages role (b ∷ bs) h = ground (arith, events-tool_messages role bs h)

  events-follow_up : (bs : List Value) → openai_events (follow_up to_string bs) ≡ []
  unfolding openai_events follow_up
  events-follow_up [] = refl
  events-follow_up (b ∷ bs) = ground arith

  no_results :
      (role : String) (bs : List Value)
      → role == "assistant" ≡ false
      → any is_tool_result bs ≡ false
      → filter_map (block_event role) bs ≡ []
  unfolding filter_map
  no_results role [] h k = refl
  no_results role (b ∷ bs) h k = ground (arith, no_results role bs h)

  no_calls :
      (bs : List Value) → any is_tool_use bs ≡ false → filter_map (block_event "assistant") bs ≡ []
  unfolding filter_map
  no_calls [] k = refl
  no_calls (b ∷ bs) k = ground (arith, no_calls bs)

  user_messages_results :
      (role : String) (bs : List Value)
      → any is_tool_result bs ≡ true
      → user_messages to_string role bs
        ≡ map (tool_message to_string) (keep is_tool_result bs)
          ++ follow_up to_string (keep (λ b. not (is_tool_result b)) bs)
  unfolding user_messages
  user_messages_results role bs h = rw h refl

  user_messages_plain :
      (role : String) (bs : List Value)
      → any is_tool_result bs ≡ false
      → user_messages to_string role bs
        ≡ convert_anthropic_message to_string role (some (array_of bs)) ∷ []
  unfolding user_messages
  user_messages_plain role bs h = rw h refl

  events-user_messages :
      (role : String) (bs : List Value)
      → role == "assistant" ≡ false
      → role == "tool" ≡ false
      → openai_events (user_messages to_string role bs) ≡ filter_map (block_event role) bs
  events-user_messages role bs h k = elim (Bool-cases (any is_tool_result bs)) [
    | inl results ↦
        rw
          (
            user_messages_results role bs results,
            openai_events-append (map (tool_message to_string) (keep is_tool_result bs))
                (follow_up to_string (keep (λ b. not (is_tool_result b)) bs)),
            events-follow_up (keep (λ b. not (is_tool_result b)) bs),
            append-nil (openai_events (map (tool_message to_string) (keep is_tool_result bs))),
          )
          (events-tool_messages role bs h)
    | inr plain ↦
        rw (user_messages_plain role bs plain, no_results role bs h plain)
          (events-one role (some (array_of bs)) k)
  ]

  assistant_messages_calls :
      (bs : List Value)
      → any is_tool_use bs ≡ true
      → openai_events (assistant_messages to_string bs)
        ≡ map call_event (tool_calls_from to_string 0 bs)
  unfolding openai_events assistant_messages
  assistant_messages_calls bs h =
      rw (h, items-to_items (tool_calls_from to_string 0 bs))
        (append-nil (map call_event (tool_calls_from to_string 0 bs)))

  assistant_messages_plain :
      (bs : List Value)
      → any is_tool_use bs ≡ false
      → assistant_messages to_string bs ≡ without_reasoning to_string (keep keeps_reasoning_out bs)
  unfolding assistant_messages
  assistant_messages_plain bs h = rw h refl

  events-without_reasoning : (bs : List Value) → openai_events (without_reasoning to_string bs) ≡ []
  unfolding openai_events without_reasoning
  events-without_reasoning [] = refl
  events-without_reasoning (b ∷ bs) = events-one "assistant" (some (array_of (b ∷ bs))) refl

  events-assistant_messages :
      (bs : List Value)
      → openai_events (assistant_messages to_string bs) ≡ filter_map (block_event "assistant") bs
  events-assistant_messages bs = elim (Bool-cases (any is_tool_use bs)) [
    | inl calls ↦ assistant_messages_calls bs calls ∙ events-tool_calls_from 0 bs
    | inr plain ↦
        rw (assistant_messages_plain bs plain, no_calls bs plain)
          (events-without_reasoning (keep keeps_reasoning_out bs))
  ]

  events-plain :
      (role : String) (content : Option Value)
      → role == "tool" ≡ false
      → blocks_of content ≡ []
      → openai_events (convert_anthropic_message to_string role content ∷ [])
        ≡ anthropic_events role content
  events-plain role content h e = events-one role content h ∙ rw e (unfold filter_map in refl)

  events-blocks :
      (role : String) (blocks : Items)
      → role == "tool" ≡ false
      → openai_events (convert_anthropic_message_expanded to_string role (some (array blocks)))
        ≡ anthropic_events role (some (array blocks))
  unfolding convert_anthropic_message_expanded
  events-blocks role blocks h = elim (Bool-cases (role == "assistant")) [
    | inl same ↦ rw ((==_iff role "assistant").0 same) (events-assistant_messages (items blocks))
    | inr other ↦ rw other (events-user_messages role (items blocks) other h)
  ]

  events-expanded :
      (role : String) (content : Option Value)
      → role == "tool" ≡ false
      → openai_events (convert_anthropic_message_expanded to_string role content)
        ≡ anthropic_events role content
  unfolding convert_anthropic_message_expanded
  events-expanded role none h = events-plain role none h refl
  events-expanded role (some (array blocks)) h = events-blocks role blocks h
  events-expanded role (some Json.null) h = events-plain role (some Json.null) h refl
  events-expanded role (some (Json.bool b)) h = events-plain role (some (Json.bool b)) h refl
  events-expanded role (some (Json.number n)) h = events-plain role (some (Json.number n)) h refl
  events-expanded role (some (string s)) h = events-plain role (some (string s)) h refl
  events-expanded role (some (Json.object fs)) h = events-plain role (some (Json.object fs)) h refl

-- A message's role, as the source reads it.
abbrev pub role_of : Value → String
role_of msg = unwrap_or (get_str "role" msg) "user"

abbrev pub conversation_events : List Value → List ToolEvent
conversation_events [] = []
conversation_events (msg ∷ msgs) =
    anthropic_events (role_of msg) (Json.get "content" msg) ++ conversation_events msgs

-- In a conversation that has no message with the role "tool", the OpenAI messages have the calls
-- and the results of the Anthropic messages' blocks: each once, with its identifier, in the same
-- order.
pub tool_events-expand_all :
    (to_string : Value → String) (msgs : List Value)
    → All (λ msg. role_of msg == "tool" ≡ false) msgs
    → openai_events (expand_all to_string msgs) ≡ conversation_events msgs
unfolding openai_events expand_all
tool_events-expand_all to_string [] h = refl
tool_events-expand_all to_string (msg ∷ msgs) (role, h) =
    rw
      (
        openai_events-append
            (convert_anthropic_message_expanded to_string (role_of msg) (Json.get "content" msg))
            (expand_all to_string msgs),
        events-expanded to_string (role_of msg) (Json.get "content" msg) role,
        tool_events-expand_all to_string msgs h,
      )
      refl
