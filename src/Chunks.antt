-- ===== src/Chunks.antt =====
-- Streams of texts as lists of results, and what they carry.
use aperture_router.Prelude.{List, [], ◌∷◌, ◌++◌}
use aperture_router.Net.{Result, ok, err}
use aperture_router.Text.{Text}

-- The chunks of a stream that are no errors, joined.
unfoldable pub join_ok : {E : Type 0} → List (Result E Text) → Text
join_ok [] = []
join_ok (ok t ∷ rs) = t ++ join_ok rs
join_ok (err e ∷ rs) = join_ok rs

unfoldable pub join : List Text → Text
join [] = []
join (t ∷ ts) = t ++ join ts
