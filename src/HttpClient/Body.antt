-- ===== src/HttpClient/Body.antt =====
-- What the reading of a body returns.
use aperture_router.Prelude.{
  sym, ℕ, ◌+◌, ◌≤◌, ◌≡◌, List, [], ◌∷◌, ◌++◌, if◌then◌else◌, leb, ltb, length, length-append, map,
  arith, Bool-cases, inl, inr,
}
use mathlib.Core.List.{append_assoc, append-nil}
use aperture_router.Net.{ok, err}
use aperture_router.Text.{Text}
use aperture_router.Chunks.{join}
use aperture_router.HttpClient.{exceeded, read_chunks, read_body_capped}

module _ (E : Type 0) (max_bytes : ℕ) where
  -- With a body before that is within the limit.
  read_chunks_lem :
      (body : Text) (pieces : List Text)
      → length body ≤ max_bytes
      → read_chunks {E = E} max_bytes body (map ok pieces) ≡ (
          if leb (length (body ++ join pieces)) max_bytes
          then ok (body ++ join pieces)
          else err exceeded)
  unfolding read_chunks join
  read_chunks_lem body [] h = rw (append-nil body) (ground (arith, h))
  read_chunks_lem body (t ∷ pieces) h = elim (Bool-cases (ltb max_bytes (length body + length t))) [
    | inl over ↦
        ground (arith, over, length-append body (t ++ join pieces), length-append t (join pieces))
    | inr fits ↦
        let small : length body + length t ≤ max_bytes = ground (arith, fits) in
        let here : length (body ++ t) ≤ max_bytes = omega (arith, length-append body t, small) in
        rw (sym (append_assoc body t (join pieces)))
          (ground (arith, fits, read_chunks_lem (body ++ t) pieces here))
  ]

  -- For every list of chunks that arrive without an error, and every limit, the body is what the
  -- chunks are together, if that is not longer than the limit, and refused otherwise.
  pub read_body_capped-join :
      (pieces : List Text)
      → read_body_capped {E = E} max_bytes (map ok pieces)
        ≡ (if leb (length (join pieces)) max_bytes then ok (join pieces) else err exceeded)
  unfolding read_body_capped
  read_body_capped-join pieces = read_chunks_lem [] pieces (omega arith)
