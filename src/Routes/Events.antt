-- ===== src/Routes/Events.antt =====
-- src/routes/messages.rs: the events that a streamed reply passes on or converts.
use aperture_router.Prelude.{
  Option, none, some, List, [], ◌∷◌, ◌++◌, if◌then◌else◌, is_empty, map, ◌==◌,
}
use aperture_router.Json.{Value, string, json}
use aperture_router.Lines.{split_lines, trim_line}
use aperture_router.Net.{ok, err}
use aperture_router.Routes.{Payload, raw, value}
use aperture_router.Text.{Text, text_eq, utf8, strip_prefix}
use aperture_router.Upstream.Forward.{Chunks}
use aperture_router.Converter.{Converter, SseEventData}
use aperture_router.Converter.Chunk.{convert_chunk}

-- An event with its name, which is empty if it has none.
pub record Event : Type 0 where
  pub event_type : Text
  pub payload : Payload

-- `str::lines`: the last line counts if it has a character.
abbrev lines : Text → List Text
lines chunk =
    let (complete, last) = split_lines chunk in
    if is_empty last then complete else complete ++ last ∷ []

abbrev stream_end : Text
stream_end = utf8 "[DONE]"

abbrev data_event : Text → Text → Event
data_event event_type text = record {
  event_type = if text == stream_end then [] else event_type;
  payload = raw text;
}

abbrev type_after : Text → Text → Text
type_after event_type text = if text == stream_end then event_type else []

-- The loop over the lines, with the name that the next event gets.
unfoldable pub events_of : Text → List Text → List Event
events_of event_type [] = []
events_of event_type (line ∷ later) = elim (strip_prefix (utf8 "event: ") (trim_line line)) [
  | some name ↦ events_of name later
  | none ↦ elim (strip_prefix (utf8 "data: ") (trim_line line)) [
    | some text ↦ data_event event_type text ∷ events_of (type_after event_type text) later
    | none ↦ events_of event_type later
  ]
]

unfoldable pub process_sse_chunk_lines_anthropic : Text → List Event
process_sse_chunk_lines_anthropic chunk = events_of [] (lines chunk)

abbrev pub interrupted : Event
interrupted = record {
  event_type = [];
  payload = value (
      json (
        ("type", string "error")
        ∷ (
          "error",
          json (("type", string "api_error") ∷ ("message", string "Stream interrupted") ∷ []),
        )
        ∷ []));
}

-- The stream of a provider of Anthropic's style, passed on chunk by chunk.
unfoldable pub direct_events : Chunks → List Event
direct_events [] = []
direct_events (ok text ∷ chunks) = process_sse_chunk_lines_anthropic text ++ direct_events chunks
direct_events (err e ∷ chunks) = interrupted ∷ direct_events chunks

-- An event of the converter, or the notice of an interruption.
pub data SseItem : Type 0 where
  converted : SseEventData → SseItem
  stream_interrupted : SseItem

-- The converted stream; the converter goes on after an error.
unfoldable pub build_anthropic_sse : (Text → Option Value) → Converter → Chunks → List SseItem
build_anthropic_sse from_str converter [] = []
build_anthropic_sse from_str converter (ok text ∷ chunks) =
    let (events, converter') = convert_chunk from_str text converter in
    map converted events ++ build_anthropic_sse from_str converter' chunks
build_anthropic_sse from_str converter (err e ∷ chunks) =
    stream_interrupted ∷ build_anthropic_sse from_str converter chunks
