-- ===== src/Converter/Tests.antt =====
-- The stream converter on concrete chunks.
use mathlib.Core.Option
use aperture_router.Maps
use aperture_router.Prelude.{Bool, false, true, Option, ℕ, ◌≡◌, refl, String, some, List, [], ◌∷◌}
use aperture_router.Json.{num, Value, string, json, array_of}
use aperture_router.Converter.{
  new, close_stream, ◌then◌, stop_thinking, stop_text, stop_tools, close_open_blocks, finish,
  close_with_stop_reason, stop_reason_of,
}
use aperture_router.Converter.Chunk.{
  process_openai_chunk, start_message, read_usage, on_delta, on_reasoning, on_content,
  on_tool_calls, on_finish, get_reasoning,
}
use aperture_router.Converter.Tools.{
  tool_calls, tool_call, resolve_slot, slot_of_id, start_call, push_arguments, call_id, call_name,
  is_new_call, open_tool,
}
use aperture_router.Converter.Monitor.{receive, Phase, Client, feed, idle}
use aperture_router.Converter.Closing.{IsSettled}
use aperture_router.Converter.Session.{process_chunks, stream-IsTaken}

abbrev chunk_of : List (String × Value) → List (String × Value) → Value
chunk_of delta more = json (("choices", array_of (json (("delta", json delta) ∷ more) ∷ [])) ∷ [])

abbrev thought : Value
thought = chunk_of (("reasoning_content", string "hm") ∷ []) []

abbrev call : Value
call =
    chunk_of
      ((
        "tool_calls",
        array_of (
            json (
              ("id", string "c1")
              ∷ ("function", json (("name", string "f") ∷ ("arguments", string "{}") ∷ []))
              ∷ [])
            ∷ []),
      )
        ∷ [])
      []

abbrev said : Value
said = chunk_of (("content", string "done") ∷ []) (("finish_reason", string "tool_calls") ∷ [])

stream-IsTaken_example :
    (d : Client) × (feed idle
        ((process_chunks (thought ∷ call ∷ []) then process_openai_chunk said then close_stream)
          (new "m" "gpt")).0
      ≡ some d)
    × (d.phase ≡ Phase.ended)
    × ((i : ℕ)
        → IsSettled
            ((process_chunks (thought ∷ call ∷ []) then process_openai_chunk said then close_stream)
              (new "m" "gpt")).1
            d
            i)
stream-IsTaken_example = stream-IsTaken "m" "gpt" (thought ∷ call ∷ []) said (refl, (refl, tt))

-- A call at a slot that the upstream names.
abbrev call_at : ℕ → String → Value
call_at slot id =
    chunk_of
      ((
        "tool_calls",
        array_of (
            json (
              ("index", num slot)
              ∷ ("id", string id)
              ∷ ("function", json (("name", string "f") ∷ []))
              ∷ [])
            ∷ []),
      )
        ∷ [])
      []

-- Whether block 0 and block 1 are open for the client at the end.
abbrev left_open : List Value → Option (Bool × Bool)
left_open vs =
    Option.map (λ d. (d.is_open 0, d.is_open 1))
      (feed idle ((process_chunks vs then close_stream) (new "m" "gpt")).0)

calls_are_stopped : left_open (call_at 0 "a" ∷ call_at 1 "b" ∷ []) ≡ some (false, false)
unfolding feed receive new process_chunks process_openai_chunk start_message read_usage on_delta
    on_reasoning on_content on_tool_calls on_finish tool_calls tool_call resolve_slot slot_of_id
    start_call push_arguments call_id call_name is_new_call open_tool stop_thinking stop_text
    stop_tools close_open_blocks finish close_with_stop_reason close_stream stop_reason_of
    get_reasoning ◌then◌ Maps.get Maps.insert
calls_are_stopped = refl

-- Where a second call takes the slot of the first, the first stays open.
replaced_call : left_open (call_at 0 "a" ∷ call_at 0 "b" ∷ []) ≡ some (true, false)
unfolding feed receive new process_chunks process_openai_chunk start_message read_usage on_delta
    on_reasoning on_content on_tool_calls on_finish tool_calls tool_call resolve_slot slot_of_id
    start_call push_arguments call_id call_name is_new_call open_tool stop_thinking stop_text
    stop_tools close_open_blocks finish close_with_stop_reason close_stream stop_reason_of
    get_reasoning ◌then◌ Maps.get Maps.insert
replaced_call = refl
