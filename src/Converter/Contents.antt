-- ===== src/Converter/Contents.antt =====
-- Reasoning and content of a delta: the steps that they take keep the client following.
use aperture_router.Prelude.{
  refl, String, true, none, some, Option, arith, if◌then◌else◌, ◌==◌, string_eq, [], ◌∷◌,
}
use aperture_router.Json.{string}
use aperture_router.Converter.{
  block_start, Step, skip, ◌then◌, start_thinking, start_text, thinking_delta, text_delta,
  stop_text, stop_thinking,
}
use aperture_router.Converter.Chunk.{open_thinking, on_reasoning, on_content}
use aperture_router.Converter.Monitor.{feed}
use aperture_router.Converter.Relation.{
  Keeps, Any, HasNoThinking, HasThinking, HasText, IsFree, Keeps-then, Keeps-if, Keeps-skip,
  Keeps-split,
}
use aperture_router.Converter.Protocol.{
  start-Runs, delta-Runs, Keeps-stop_thinking, Keeps-stop_text,
}

Keeps-start_thinking : Keeps IsFree start_thinking HasThinking
unfolding start_thinking
Keeps-start_thinking = record {
  at = λ s c r p.
      let (d, fed, r') =
        start-Runs s c r (("type", string "thinking") ∷ ("thinking", string "") ∷ [])
          s.text_block_open true p (ground arith) (ground arith) refl in
      (d, fed, r', refl);
}

-- `start_text` where no text block is open.
abbrev start_text_body : Step
start_text_body s = (
  block_start s.content_block_index (("type", string "text") ∷ ("text", string "") ∷ []) ∷ [],
  record s { text_block_open = true },
)

Keeps-start_text : Keeps HasNoThinking start_text HasText
unfolding start_text
Keeps-start_text = record {
  at =
      (Keeps-split (λ s. s.text_block_open) skip start_text_body
        (record { at = λ s c r p. (c, unfold feed in refl, r, p.1) })
        (record {
          at = λ s c r p.
              let (d, fed, r') =
                start-Runs s c r (("type", string "text") ∷ ("text", string "") ∷ []) true
                  s.thinking_block_open (p.1, p.0) refl p.0 refl in
              (d, fed, r', refl);
        })).at;
}

Keeps-thinking_delta : (reasoning : String) → Keeps HasThinking (thinking_delta reasoning) Any
unfolding thinking_delta
Keeps-thinking_delta reasoning = record {
  at = λ s c r p.
      let (d, fed, r') =
        delta-Runs s c r (("type", string "thinking_delta") ∷ ("thinking", string reasoning) ∷ [])
          (ground arith) in
      (d, fed, r', tt);
}

Keeps-text_delta : (content : String) → Keeps HasText (text_delta content) Any
unfolding text_delta
Keeps-text_delta content = record {
  at = λ s c r p.
      let (d, fed, r') =
        delta-Runs s c r (("type", string "text_delta") ∷ ("text", string content) ∷ [])
          (ground arith) in
      (d, fed, r', tt);
}

Keeps-open_thinking : Keeps Any open_thinking HasThinking
unfolding open_thinking
Keeps-open_thinking = record {
  at =
      (Keeps-split (λ s. s.thinking_block_open) skip (stop_text then start_thinking)
        (record { at = λ s c r p. (c, unfold feed in refl, r, p.1) })
        (record {
          at = λ s c r p.
              (Keeps-then stop_text start_thinking Keeps-stop_text Keeps-start_thinking).at s c r
                p.1;
        })).at;
}

pub Keeps-on_reasoning : (reasoning : Option String) → Keeps Any (on_reasoning reasoning) Any
unfolding on_reasoning
Keeps-on_reasoning none = Keeps-skip
Keeps-on_reasoning (some reasoning) =
    Keeps-if (reasoning == "") skip (open_thinking then thinking_delta reasoning) Keeps-skip
      (Keeps-then _ _ Keeps-open_thinking (Keeps-thinking_delta reasoning))

pub Keeps-on_content : (content : Option String) → Keeps Any (on_content content) Any
unfolding on_content
Keeps-on_content none = Keeps-skip
Keeps-on_content (some content) =
    Keeps-if (content == "") skip (stop_thinking then start_text then text_delta content) Keeps-skip
      (Keeps-then _ _ Keeps-stop_thinking
        (Keeps-then _ _ Keeps-start_text (Keeps-text_delta content)))
