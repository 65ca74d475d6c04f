-- ===== src/Routes/Accepted.antt =====
-- Which requests the messages route accepts.
use aperture_router.Prelude.{
  ◌⊎◌, ℕ, ◌≤◌, ◌≡◌, ◌↔◌, Bool, true, false, ◌||◌, Option, none, some, List, [], ◌∷◌, All, arith,
  all, ltb, length, is_empty, nat_eq, ◌==◌,
}
use aperture_router.Json.{Value}
use aperture_router.Net.{Result, ok, err, ◌>>◌}
use aperture_router.Text.{Text, text_eq, utf8, contains_text}
use aperture_router.Validation.{
  long_content, RequestError, refuse_if, many_messages, many_fields, is_name_char,
  validate_model_name, validate_role, validate_message_content, validate_max_tokens,
  validate_temperature, has_sign, magnitude, two, one, validate_top_p,
}
use aperture_router.Routes.Checks.{
  Message, MessageRequest, as_text, check_option, check_messages, top_p_of, check_message_request,
  max_other_fields,
}

pub refuse_if_iff : (b : Bool) (e : RequestError) → (refuse_if b e ≡ ok tt) ↔ (b ≡ false)
refuse_if_iff true e = ground arith
refuse_if_iff false e = ground arith

pub both_iff : (m k : Result RequestError Unit) → (m >> k ≡ ok tt) ↔ ((m ≡ ok tt) × (k ≡ ok tt))
both_iff (ok u) k = ground arith
both_iff (err e) k = ground arith

-- One to 128 bytes of the allowed characters, without two dots in a row.
abbrev pub IsModelName : Text → Type 0
IsModelName name =
    (is_empty name ≡ false)
    × (length name ≤ 128)
    × (contains_text (utf8 "..") name ≡ false)
    × (all is_name_char name ≡ true)

abbrev pub IsRole : Text → Type 0
IsRole role =
    role == utf8 "system" || role == utf8 "user" || role == utf8 "assistant" || role == utf8 "tool"
    ≡ true

abbrev pub IsMessage : Message → Type 0
IsMessage msg = IsRole msg.role × (length (as_text msg.content) ≤ 1000000)

abbrev pub IsTokenCount : ℕ → Type 0
IsTokenCount n = (1 ≤ n) × (n ≤ 1000000)

-- From 0.0 to 2.0, or -0.0.
abbrev pub IsTemperature : ℕ → Type 0
IsTemperature bits = (magnitude bits ≤ two) × ((has_sign bits ≡ false) ⊎ (magnitude bits ≡ 0))

-- From 0.0 to 1.0, or -0.0.
abbrev pub IsTopP : ℕ → Type 0
IsTopP bits = (magnitude bits ≤ one) × ((has_sign bits ≡ false) ⊎ (magnitude bits ≡ 0))

abbrev pub HasIf : {A : Type 0} → (A → Type 0) → Option A → Type 0
HasIf P none = Unit
HasIf P (some a) = P a

validate_model_name_iff : (name : Text) → (validate_model_name name ≡ ok tt) ↔ IsModelName name
unfolding validate_model_name
validate_model_name_iff name = ground arith

validate_role_iff : (role : Text) → (validate_role role ≡ ok tt) ↔ IsRole role
unfolding validate_role
validate_role_iff role = ground arith

validate_max_tokens_iff : (n : ℕ) → (validate_max_tokens n ≡ ok tt) ↔ IsTokenCount n
unfolding validate_max_tokens
validate_max_tokens_iff n = ground arith

validate_temperature_iff : (bits : ℕ) → (validate_temperature bits ≡ ok tt) ↔ IsTemperature bits
unfolding validate_temperature
validate_temperature_iff bits = ground arith

validate_top_p_iff : (bits : ℕ) → (validate_top_p bits ≡ ok tt) ↔ IsTopP bits
unfolding validate_top_p
validate_top_p_iff bits = ground arith

check_messages_iff :
    (messages : List Message) → (check_messages messages ≡ ok tt) ↔ All IsMessage messages
unfolding check_messages validate_message_content
check_messages_iff [] = ground arith
check_messages_iff (msg ∷ messages) = ground (
  arith,
  both_iff (validate_role msg.role >> validate_message_content (as_text msg.content))
      (check_messages messages),
  both_iff (validate_role msg.role) (validate_message_content (as_text msg.content)),
  refuse_if_iff (ltb 1000000 (length (as_text msg.content))) long_content,
  validate_role_iff msg.role,
  check_messages_iff messages,
)

check_option_iff :
    {A : Type 0} (check : A → Result RequestError Unit) (P : A → Type 0)
    → ((a : A) → (check a ≡ ok tt) ↔ P a)
    → (o : Option A) → (check_option check o ≡ ok tt) ↔ HasIf P o
check_option_iff check P each none = ground arith
check_option_iff check P each (some a) = each a

module _ (as_f32 : Value → Option ℕ) where
  -- What the route asks of a request.
  abbrev pub IsAcceptable : ℕ → MessageRequest → Type 0
  IsAcceptable max_messages request =
      IsModelName request.model
      × HasIf IsTokenCount request.max_tokens
      × (length request.messages ≤ max_messages)
      × All IsMessage request.messages
      × (length request.other ≤ max_other_fields)
      × HasIf IsTemperature request.temperature
      × HasIf IsTopP (top_p_of as_f32 request)

  -- The checks of a request pass exactly if its model has an allowed name of 1 to 128 bytes, its
  -- token limit, if any, is from 1 to 1000000, it has no more messages than configured, each with a
  -- known role and at most 1000000 bytes of text, it has at most 50 further fields, and its
  -- temperature and top_p, if any, are from 0.0 to 2.0 and from 0.0 to 1.0, with -0.0 and without
  -- NaN.
  pub check_message_request_iff :
      (max_messages : ℕ) (request : MessageRequest)
      → (check_message_request as_f32 max_messages request ≡ ok tt)
        ↔ IsAcceptable max_messages request
  unfolding check_message_request
  check_message_request_iff max_messages request =
      let name = validate_model_name request.model in
      let tokens = check_option validate_max_tokens request.max_tokens in
      let count = refuse_if (ltb max_messages (length request.messages)) many_messages in
      let messages = check_messages request.messages in
      let fields = refuse_if (ltb max_other_fields (length request.other)) many_fields in
      let temperature = check_option validate_temperature request.temperature in
      let top_p = check_option validate_top_p (top_p_of as_f32 request) in
      ground (
        arith,
        both_iff (name >> tokens >> count >> messages >> fields >> temperature) top_p,
        both_iff (name >> tokens >> count >> messages >> fields) temperature,
        both_iff (name >> tokens >> count >> messages) fields,
        both_iff (name >> tokens >> count) messages,
        both_iff (name >> tokens) count,
        both_iff name tokens,
        validate_model_name_iff request.model,
        check_option_iff validate_max_tokens IsTokenCount validate_max_tokens_iff
            request.max_tokens,
        refuse_if_iff (ltb max_messages (length request.messages)) many_messages,
        check_messages_iff request.messages,
        refuse_if_iff (ltb max_other_fields (length request.other)) many_fields,
        check_option_iff validate_temperature IsTemperature validate_temperature_iff
            request.temperature,
        check_option_iff validate_top_p IsTopP validate_top_p_iff (top_p_of as_f32 request),
      )
