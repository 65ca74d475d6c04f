-- ===== src/Conversion/Content.antt =====
-- Content blocks and tools of src/types/conversion.rs.
use Prim.Native.String
use aperture_router.Prelude.{
  String, Bool, not, ◌||◌, Option, none, some, List, [], ◌∷◌, any, map, if◌then◌else◌, ◌==◌,
  string_eq, and_then, unwrap_or,
}
use aperture_router.Json
use aperture_router.Json.{
  Value, Items, null, string, array, object, json, array_of, items, as_str, get_str, has_type,
  remove_key,
}

-- `Vec<_>::join("\n")`
unfoldable pub join : List String → String
join [] = ""
join (s ∷ []) = s
join (s ∷ t ∷ ts) = String.◌++◌ s (String.◌++◌ "\n" (join (t ∷ ts)))

module _ {A B : Type 0} where
  -- `Iterator::filter_map`
  unfoldable pub filter_map : (A → Option B) → List A → List B
  filter_map f [] = []
  filter_map f (x ∷ xs) =
      let rest = filter_map f xs in elim (f x) [ none ↦ rest | some y ↦ y ∷ rest ]

-- `v.get("type").and_then(|t| t.as_str()).unwrap_or("text")`
abbrev pub block_type : Value → String
block_type b = unwrap_or (get_str "type" b) "text"

-- `v.get(k).unwrap_or(&Value::Null)`
abbrev pub get_or_null : String → Value → Value
get_or_null k v = unwrap_or (Json.get k v) null

abbrev pub text_part : Value → Value
text_part text = json (("type", string "text") ∷ ("text", text) ∷ [])

unfoldable pub image_part : Value → Value
image_part b =
    let source = get_or_null "source" b in
    json (
      ("type", string "image_url")
      ∷ (
        "image_url",
        json (
            (
              "url",
              string (
                  String.◌++◌ "data:" (
                    String.◌++◌ (unwrap_or (get_str "media_type" source) "image/png")
                      (String.◌++◌ ";base64," (unwrap_or (get_str "data" source) "")))),
            )
            ∷ []),
      )
      ∷ [])

unfoldable pub strip_cache_control : Value → Value
strip_cache_control value = remove_key "cache_control" value

abbrev pub is_thinking : Value → Bool
is_thinking b = block_type b == "thinking" || block_type b == "redacted_thinking"

unfoldable pub text_of : Value → Option String
text_of b = if has_type b "text" then get_str "text" b else none

unfoldable pub extract_text_from_content : Value → String
extract_text_from_content (string s) = s
extract_text_from_content (array blocks) = join (filter_map text_of (items blocks))
extract_text_from_content _ = ""

-- One part of a tool result is its text alone.
unfoldable pub single_text : List Value → Option String
single_text [] = none
single_text (part ∷ []) = get_str "text" part
single_text (part ∷ more ∷ parts) = none

abbrev pub text_or_parts : Option String → List Value → Value
text_or_parts none parts = array_of parts
text_or_parts (some text) parts = string text

module _ (to_string : Value → String) where
  unfoldable pub result_part : Value → Value
  result_part b =
      if block_type b == "text"
      then text_part (get_or_null "text" b)
      else if block_type b == "image"
      then image_part b
      else text_part (string (to_string b))

  unfoldable pub convert_tool_result_content_to_openai : Value → Value
  convert_tool_result_content_to_openai (string s) = string s
  convert_tool_result_content_to_openai (array blocks) =
      let parts = map result_part (items blocks) in text_or_parts (single_text parts) parts
  convert_tool_result_content_to_openai _ = string ""

  abbrev pub block_part : Value → Option Value
  block_part b =
      if block_type b == "text"
      then some (text_part (get_or_null "text" b))
      else if block_type b == "image"
      then some (image_part b)
      else if is_thinking b
      then none
      else some (text_part (string (to_string b)))

  unfoldable pub convert_blocks_to_openai_content : List Value → Value
  convert_blocks_to_openai_content blocks =
      array_of (filter_map (λ b. block_part (strip_cache_control b)) blocks)

  abbrev pub message_part : Value → Option Value
  message_part b =
      if block_type b == "tool_result"
      then some (text_part (string (extract_text_from_content (get_or_null "content" b))))
      else block_part b

  abbrev pub message_content : List Value → Value
  message_content blocks =
      if any (λ b. not (has_type b "text")) blocks
      then array_of (filter_map (λ b. message_part (strip_cache_control b)) blocks)
      else string (join (filter_map (get_str "text") blocks))

  abbrev pub openai_content : Option Value → Value
  openai_content none = string ""
  openai_content (some (string s)) = string s
  openai_content (some (array blocks)) = message_content (items blocks)
  openai_content (some v) = v

  unfoldable pub convert_anthropic_message : String → Option Value → Value
  convert_anthropic_message role content =
      json (("role", string role) ∷ ("content", openai_content content) ∷ [])

unfoldable pub convert_anthropic_tool_to_openai : Value → Option Value
convert_anthropic_tool_to_openai tool = and_then (get_str "name" tool) (λ name. some (
    json (
      ("type", string "function")
      ∷ (
        "function",
        json (
            ("name", string name)
            ∷ ("description", string (unwrap_or (get_str "description" tool) ""))
            ∷ ("parameters", get_or_null "input_schema" tool)
            ∷ []),
      )
      ∷ [])))

abbrev pub named_tool : Option String → Value → Value
named_tool none tc = tc
named_tool (some name) tc =
    json (("type", string "function") ∷ ("function", json (("name", string name) ∷ [])) ∷ [])

-- The choices with a name of their own, or else what follows.
abbrev pub choice_named : String → Value → Value
choice_named name otherwise =
    if name == "auto"
    then string "auto"
    else if name == "any"
    then string "required"
    else if name == "none"
    then string "none"
    else otherwise

unfoldable pub convert_anthropic_tool_choice : Value → Value
convert_anthropic_tool_choice (string s) = choice_named s (string s)
convert_anthropic_tool_choice (object obj) =
    choice_named (unwrap_or (get_str "type" (object obj)) "") (
      if has_type (object obj) "tool"
      then named_tool (get_str "name" (object obj)) (object obj)
      else object obj)
convert_anthropic_tool_choice tc = tc
