-- ===== src/HttpClient.antt =====
-- src/http_client.rs: the endpoints of the gateway and the reading of a body with a limit. The
-- chunks of a response are what its `chunk()` gives, one after another.
pub mod Body
mod Tests
use aperture_router.Prelude.{
  ℕ, ◌+◌, ◌*◌, Bool, List, [], ◌∷◌, ◌++◌, if◌then◌else◌, ltb, length, contains,
}
use aperture_router.Net.{Result, ok, err}
use aperture_router.Text.{Text, text_eq, utf8}

abbrev pub allowed_endpoints : List Text
allowed_endpoints =
    utf8 "v1/chat/completions" ∷ utf8 "v1/messages" ∷ utf8 "v1/models" ∷ utf8 "v1/embeddings" ∷ []

unfoldable pub is_allowed_endpoint : Text → Bool
is_allowed_endpoint endpoint = contains allowed_endpoints endpoint

abbrev pub max_non_streaming_response_bytes : ℕ
max_non_streaming_response_bytes = 10 * 1024 * 1024

abbrev pub max_error_body_bytes : ℕ
max_error_body_bytes = 64 * 1024

pub data BodyError : Type 0 where
  read_failed exceeded : BodyError

-- The loop over the chunks, with the body read before.
unfoldable pub read_chunks : {E : Type 0} → ℕ → Text → List (Result E Text) → Result BodyError Text
read_chunks max_bytes body [] = ok body
read_chunks max_bytes body (err e ∷ chunks) = err read_failed
read_chunks max_bytes body (ok chunk ∷ chunks) =
    if ltb max_bytes (length body + length chunk)
    then err exceeded
    else read_chunks max_bytes (body ++ chunk) chunks

unfoldable pub read_body_capped : {E : Type 0} → ℕ → List (Result E Text) → Result BodyError Text
read_body_capped max_bytes chunks = read_chunks max_bytes [] chunks
