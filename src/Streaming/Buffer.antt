-- ===== src/Streaming/Buffer.antt =====
-- `SseLineBuffer` and `buffered_lines` of src/routes/streaming.rs. A buffer is its text.
use aperture_router.Prelude.{
  ◌*◌, ℕ, zero, suc, Bool, true, false, not, ◌||◌, Option, none, some, List, [], ◌∷◌, ◌++◌, map,
  if◌then◌else◌, leb, ltb, nat_eq, length, is_empty, keep,
}
use aperture_router.Net.{Result, ok, err}
use aperture_router.Text.{Text}
use aperture_router.Lines.{newline, split_lines, trim_line}

abbrev pub max_line_buffer : ℕ
max_line_buffer = 1024 * 1024

-- `str::is_char_boundary`: the index is an end, or no continuation byte stands there.
unfoldable pub is_char_boundary : Text → ℕ → Bool
is_char_boundary s zero = true
is_char_boundary [] (suc i) = false
is_char_boundary (c ∷ []) (suc zero) = true
is_char_boundary (c ∷ d ∷ s) (suc zero) = ltb d 128 || leb 192 d
is_char_boundary (c ∷ s) (suc (suc i)) = is_char_boundary s (suc i)

-- `while cut > 0 && !buf.is_char_boundary(cut) { cut -= 1; }`
unfoldable pub find_cut : ℕ → Text → ℕ
find_cut zero s = zero
find_cut (suc cut) s =
    let lower = find_cut cut s in if is_char_boundary s (suc cut) then suc cut else lower

-- `split_off`
unfoldable pub split_off : ℕ → Text → Text × Text
split_off zero s = ([], s)
split_off (suc i) [] = ([], [])
split_off (suc i) (c ∷ s) = let (head, tail) = split_off i s in (c ∷ head, tail)

-- The loop of `push`: the complete lines that are not empty, and the buffer that stays.
unfoldable pub emit_lines : Text → List Text × Text
emit_lines buf =
    let (lines, rest) = split_lines buf in
    (keep (λ line. not (is_empty line)) (map trim_line lines), rest)

-- `push` under a limit: past it the head goes through the normal path, which its length allows, and
-- the overflow is put behind what that leaves.
unfoldable pub push_capped : ℕ → Text → Text → List Text × Text
unfolding find_cut split_off
push_capped limit buf chunk =
    let whole = buf ++ chunk in
    if ltb limit (length whole)
    then (let (head, overflow) = split_off (find_cut limit whole) whole in
        let (lines, rest) = emit_lines head in (lines, rest ++ overflow))
    else emit_lines whole

unfoldable pub push : Text → Text → List Text × Text
push = push_capped max_line_buffer

unfoldable pub take_remainder : Text → Option Text
take_remainder [] = none
take_remainder (c ∷ s) = some (c ∷ s)

-- `lines.join("\n")`
unfoldable pub join_lines : List Text → Text
join_lines [] = []
join_lines (l ∷ []) = l
join_lines (l ∷ m ∷ ls) = l ++ newline ∷ join_lines (m ∷ ls)

abbrev pub deliver : {E : Type 0} → List Text → List (Result E Text) → List (Result E Text)
deliver [] out = out
deliver (l ∷ ls) out = ok (join_lines (l ∷ ls) ++ newline ∷ []) ∷ out

abbrev pub flush : {E : Type 0} → Option Text → List (Result E Text)
flush none = []
flush (some rest) = ok rest ∷ []

-- The stream that `unfold` makes of the upstream's chunks: a chunk that completes no line yields
-- nothing, an error is passed on, and the end flushes the partial line.
unfoldable pub buffered_lines :
    {E : Type 0} → ℕ → Text → List (Result E Text) → List (Result E Text)
unfolding take_remainder join_lines
buffered_lines limit buf [] = flush (take_remainder buf)
buffered_lines limit buf (ok chunk ∷ chunks) =
    let (lines, rest) = push_capped limit buf chunk in
    deliver lines (buffered_lines limit rest chunks)
buffered_lines limit buf (err e ∷ chunks) = err e ∷ buffered_lines limit buf chunks
