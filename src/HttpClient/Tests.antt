-- ===== src/HttpClient/Tests.antt =====
-- The reading of a body on concrete input.
use aperture_router.Prelude.{◌≡◌, refl, if◌then◌else◌, leb, length, List, [], ◌∷◌, map}
use aperture_router.Net.{ok, err}
use aperture_router.Text.{Text, utf8}
use aperture_router.Chunks.{join}
use aperture_router.HttpClient.{read_chunks, BodyError, exceeded, read_body_capped}
use aperture_router.HttpClient.Body.{read_body_capped-join}

abbrev pieces : List Text
pieces = utf8 "ab" ∷ utf8 "" ∷ utf8 "cde" ∷ []

too_long : read_body_capped {E = BodyError} 4 (map ok pieces) ≡ err exceeded
unfolding read_body_capped read_chunks
too_long = refl

read_body_capped-join_example :
    read_body_capped {E = BodyError} 5 (map ok pieces)
    ≡ (if leb (length (join pieces)) 5 then ok (join pieces) else err exceeded)
read_body_capped-join_example = read_body_capped-join BodyError 5 pieces
