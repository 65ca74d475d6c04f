-- ===== src/Conversion/Answer.antt =====
-- What every converted response has, whatever the upstream sent.
use aperture_router.Prelude.{
  ◌≡◌, refl, String, Bool, true, false, Option, none, some, List, [], ◌∷◌, if◌then◌else◌, ◌==◌,
  string_eq, unwrap_or, and_then, is_empty, first, contains,
}
use aperture_router.Json
use aperture_router.Json.{Value, items-to_items, get_str, get_array, has_type}
use aperture_router.Converter.{stop_reason_of}
use aperture_router.Conversion.Response.{
  or_empty_text, or_end_turn, content_of, openai_response_to_anthropic,
}

or_empty_text-filled : (content : List Value) → is_empty (or_empty_text content) ≡ false
or_empty_text-filled [] = refl
or_empty_text-filled (b ∷ content) = refl

abbrev pub reasons : List String
reasons = "end_turn" ∷ "max_tokens" ∷ "tool_use" ∷ []

by_tests :
    (a b c : Bool)
    → contains reasons
        (if a then "end_turn" else if b then "max_tokens" else if c then "tool_use" else "end_turn")
      ≡ true
by_tests true b c = refl
by_tests false true c = refl
by_tests false false true = refl
by_tests false false false = refl

stop_reason-known : (reason : Option String) → contains reasons (or_end_turn reason) ≡ true
unfolding stop_reason_of
stop_reason-known none = refl
stop_reason-known (some r) = by_tests (r == "stop") (r == "length") (r == "tool_calls")

-- Whatever the upstream sent, the response has at least one content block and one of the three stop
-- reasons.
pub response-IsComplete :
    (from_str : String → Option Value) (id : String) (openai : Value)
    → (is_empty
          (unwrap_or (get_array "content" (openai_response_to_anthropic from_str id openai)) [])
        ≡ false)
      × (contains
            ("end_turn" ∷ "max_tokens" ∷ "tool_use" ∷ [])
            (unwrap_or (get_str "stop_reason" (openai_response_to_anthropic from_str id openai)) "")
          ≡ true)
unfolding openai_response_to_anthropic
response-IsComplete from_str id openai = (
  rw
      (items-to_items (
        or_empty_text (
          content_of from_str
            (and_then (and_then (get_array "choices" openai) first) (Json.get "message")))))
      (or_empty_text-filled _),
  stop_reason-known
      (and_then (and_then (get_array "choices" openai) first) (get_str "finish_reason")),
)
