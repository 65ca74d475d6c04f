-- ===== src/Streaming/Request.antt =====
-- `handle_proxy_stream` of src/routes/streaming.rs: the checks of a request, and the events of its
-- reply.
use aperture_router.Prelude.{
  suc, ℕ, ◌*◌, ◌^◌, String, Bool, false, not, Option, none, some, List, [], ◌∷◌, ◌++◌, map,
  if◌then◌else◌, ltb, length, and_then, unwrap_or, ◌==◌,
}
use aperture_router.Json
use aperture_router.Json.{
  Value, Fields, end, field, object, string, get_str, get_array, get_u64, as_bool, set_key,
}
use aperture_router.Net.{Result, ok, err, ◌>>◌}
use aperture_router.Text.{Text, text_eq, utf8}
use aperture_router.Config.{Config, resolve_model_alias}
use aperture_router.Validation.{
  RequestError, refuse_if, many_messages, many_fields, many_blocks, long_content, not_streaming,
  unreadable, upstream_failed, validate_model_name, validate_role, validate_message_content,
  validate_max_tokens,
}
use aperture_router.Upstream.Forward.{Chunks}
use aperture_router.Upstream.Hosts.{ForwardError}
use aperture_router.Routes.{Gateway, Handled}
use aperture_router.Routes.Checks.{check_option, max_other_fields}
use aperture_router.Streaming.Buffer.{max_line_buffer, buffered_lines}
use aperture_router.Streaming.Screen.{Event, process_sse_chunk_lines, detect_wire_format}

abbrev pub max_content_size : ℕ
max_content_size = 1024 * 1024

abbrev check_size : String → Result RequestError Unit
check_size s = refuse_if (ltb max_content_size (length (utf8 s))) long_content

abbrev check_text : String → Result RequestError Unit
check_text s = check_size s >> validate_message_content (utf8 s)

unfoldable pub check_blocks : List Value → Result RequestError Unit
check_blocks [] = ok tt
check_blocks (block ∷ blocks) =
    check_option check_size (get_str "text" block) >> check_blocks blocks

abbrev check_content_array : List Value → Result RequestError Unit
check_content_array blocks = refuse_if (ltb 100 (length blocks)) many_blocks >> check_blocks blocks

unfoldable pub check_stream_messages : List Value → Result RequestError Unit
check_stream_messages [] = ok tt
check_stream_messages (msg ∷ messages) =
    check_option (λ role. validate_role (utf8 role)) (get_str "role" msg)
    >> check_option check_text (get_str "content" msg)
    >> check_option check_content_array (get_array "content" msg)
    >> check_stream_messages messages

abbrev check_message_array : ℕ → List Value → Result RequestError Unit
check_message_array max_messages messages =
    refuse_if (ltb max_messages (length messages)) many_messages >> check_stream_messages messages

abbrev count_fields : Fields → ℕ
count_fields end = 0
count_fields (field k v fs) = suc (count_fields fs)

abbrev field_count : Value → ℕ
field_count (object fs) = count_fields fs
field_count _ = 0

-- `u32::try_from`: a larger number is not checked.
abbrev check_u64_tokens : ℕ → Result RequestError Unit
check_u64_tokens max_tokens =
    if ltb max_tokens (2 ^ 32) then validate_max_tokens max_tokens else ok tt

abbrev flag : String → Value → Bool
flag name request = unwrap_or (and_then (Json.get name request) as_bool) false

unfoldable pub check_stream_request : ℕ → Value → Result RequestError Unit
check_stream_request max_messages request =
    check_option (λ model. validate_model_name (utf8 model)) (get_str "model" request)
    >> check_option (check_message_array max_messages) (get_array "messages" request)
    >> refuse_if (ltb max_other_fields (field_count request)) many_fields
    >> check_option check_u64_tokens (get_u64 "max_tokens" request)
    >> refuse_if (not (flag "stream" request)) not_streaming

-- An event of the screened stream, or the notice of an error.
pub data StreamItem : Type 0 where
  screened : Event → StreamItem
  stream_error : StreamItem

-- serde_json's parser and printer, and the `String` of a UTF-8 text.
module _ (from_str : Text → Option Value) (to_vec : Value → Option Text) (string_of : Text → String)
    (config : Config) (gateway : Gateway) where
  abbrev with_model : Value → Text → Text → Value
  with_model request model resolved =
      if resolved == model then request else set_key "model" (string (string_of resolved)) request

  abbrev resolve_alias : Value → Option String → Value
  resolve_alias request none = request
  resolve_alias request (some model) =
      with_model request (utf8 model) (resolve_model_alias config (utf8 model))

  unfoldable pub stream_items : Bool → Chunks → List StreamItem
  stream_items include_thinking [] = []
  stream_items include_thinking (ok lines ∷ chunks) =
      map screened
        (process_sse_chunk_lines from_str include_thinking config.security.max_json_depth lines)
      ++ stream_items include_thinking chunks
  stream_items include_thinking (err e ∷ chunks) =
      stream_error ∷ stream_items include_thinking chunks

  abbrev stream_reply : Bool → Result ForwardError Chunks → Result RequestError (List StreamItem)
  stream_reply include_thinking (err e) = err upstream_failed
  stream_reply include_thinking (ok chunks) =
      ok (stream_items include_thinking (buffered_lines max_line_buffer [] chunks))

  abbrev forward_stream : Value → Option Text → Handled (Result RequestError (List StreamItem))
  forward_stream request none = record { reply = err unreadable; sent = [] }
  forward_stream request (some body) =
      let exchange = gateway.forward_request_stream (utf8 (detect_wire_format request)) body in
      record {
        reply = stream_reply (flag "include_thinking" request) exchange.answer;
        sent = exchange.requests;
      }

  abbrev checked_stream :
      Value → Result RequestError Unit → Handled (Result RequestError (List StreamItem))
  checked_stream request (err e) = record { reply = err e; sent = [] }
  checked_stream request (ok passed) = forward_stream request (to_vec request)

  unfoldable pub handle_proxy_stream : Value → Handled (Result RequestError (List StreamItem))
  handle_proxy_stream original =
      let request = resolve_alias original (get_str "model" original) in
      checked_stream request (check_stream_request config.security.max_messages request)
