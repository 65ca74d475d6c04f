-- ===== src/Routes/Checks.antt =====
-- The checks of `anthropic_messages` and `chat_completions` on a request, in their order.
use aperture_router.Prelude.{
  ℕ, Bool, not, ◌&&◌, Option, none, some, List, [], ◌∷◌, ◌++◌, any, if◌then◌else◌, ltb, length,
  and_then, ◌==◌,
}
use aperture_router.Json.{Value}
use aperture_router.Maps
use aperture_router.Maps.{Map}
use aperture_router.Net.{Result, ok, ◌>>◌}
use aperture_router.Text.{Text, text_eq, utf8}
use aperture_router.Config.{Provider}
use aperture_router.Validation.{
  RequestError, refuse_if, many_messages, many_fields, model_not_found, validate_model_name,
  validate_role, validate_message_content, validate_max_tokens, validate_temperature,
  validate_top_p,
}

-- The fields of a block that the checks read.
pub record ContentBlock : Type 0 where
  pub block_type : Text
  pub text : Option Text

pub data Content : Type 0 where
  plain : Text → Content
  blocks : List ContentBlock → Content

pub record Message : Type 0 where
  pub role : Text
  pub content : Content

-- The fields of a request that the handler reads; `temperature` is an `f32`.
pub record MessageRequest : Type 0 where
  pub model : Text
  pub max_tokens : Option ℕ
  pub messages : List Message
  pub temperature : Option ℕ
  pub stream : Option Bool
  pub other : Map Text Value

abbrev text_of : ContentBlock → Option Text
text_of block = if block.block_type == utf8 "text" then block.text else none

-- The texts of the blocks with a line break between two of them.
abbrev join_texts : List Text → Text
join_texts [] = []
join_texts (t ∷ []) = t
join_texts (t ∷ u ∷ us) = t ++ 10 ∷ join_texts (u ∷ us)

abbrev present : Option Text → List Text → List Text
present none ts = ts
present (some t) ts = t ∷ ts

abbrev block_texts : List ContentBlock → List Text
block_texts [] = []
block_texts (b ∷ bs) = present (text_of b) (block_texts bs)

unfoldable pub as_text : Content → Text
as_text (plain s) = s
as_text (blocks bs) = join_texts (block_texts bs)

abbrev pub check_option :
    {A : Type 0} → (A → Result RequestError Unit) → Option A → Result RequestError Unit
check_option check none = ok tt
check_option check (some a) = check a

unfoldable pub check_messages : List Message → Result RequestError Unit
check_messages [] = ok tt
check_messages (msg ∷ messages) =
    validate_role msg.role
    >> validate_message_content (as_text msg.content)
    >> check_messages messages

abbrev pub max_other_fields : ℕ
max_other_fields = 50

-- `as_f64` of a value, and the conversion to `f32`.
module _ (as_f32 : Value → Option ℕ) where
  abbrev pub top_p_of : MessageRequest → Option ℕ
  top_p_of request = and_then (Maps.get (utf8 "top_p") request.other) as_f32

  -- The checks on the request alone.
  unfoldable pub check_message_request : ℕ → MessageRequest → Result RequestError Unit
  check_message_request max_messages request =
      validate_model_name request.model
      >> check_option validate_max_tokens request.max_tokens
      >> refuse_if (ltb max_messages (length request.messages)) many_messages
      >> check_messages request.messages
      >> refuse_if (ltb max_other_fields (length request.other)) many_fields
      >> check_option validate_temperature request.temperature
      >> check_option validate_top_p (top_p_of request)

-- A model is known if a provider or the discovery has it.
unfoldable pub check_model : Bool → List Provider → Bool → Result RequestError Unit
check_model multi_provider_enabled providers discovery_has_model =
    refuse_if
      (multi_provider_enabled && not (any (λ p. p.enabled) providers) && not discovery_has_model)
      model_not_found
