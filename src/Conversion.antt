-- ===== src/Conversion.antt =====
-- The whole-body conversions of src/types/conversion.rs: an Anthropic request to an OpenAI one, and
-- an OpenAI response to an Anthropic one. `to_string` and `from_str` stand for serde_json's.
pub mod Content
pub mod Messages
pub mod Request
pub mod Response
pub mod Thinking
pub mod Calls
pub mod Fields
pub mod Conversation
pub mod Answer
mod Tests
