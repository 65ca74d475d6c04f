-- ===== src/Streaming/Reassembly.antt =====
-- Chunk boundaries do not show in what the line buffer delivers.
use aperture_router.Lines.{split_lines_of_contains_char, contains_char-split_lines}
use mathlib.Core.List.{append_assoc, append-nil}
use aperture_router.Net.{Result, ok}
use aperture_router.Chunks.{join_ok, join}
use aperture_router.Prelude.{
  inl, inr, Bool-cases, zero, suc, inl, ltb, Bool-cases, sym, false, suc, ◌∙◌, length-append, ℕ,
  ◌≤◌, ◌≡◌, refl, ap, List, [], ◌∷◌, ◌++◌, map, arith, length, keep-append,
}
use aperture_router.Text.{contains_char, Text}
use aperture_router.Lines.{split_lines, newline, unsplit, unsplit-split_lines, split_lines-append}
use aperture_router.Streaming.Buffer.{
  find_cut, split_off, deliver, buffered_lines, join_lines, push, max_line_buffer, join_lines,
  buffered_lines, emit_lines, push_capped,
}

map-append : {A B : Type 0} (f : A → B) (xs ys : List A) → map f (xs ++ ys) ≡ map f xs ++ map f ys
map-append f [] ys = refl
map-append f (x ∷ xs) ys = ap (◌∷◌ (f x)) (map-append f xs ys)

emit_lines-append :
    (a b : Text)
    → emit_lines (a ++ b) ≡ (
      (emit_lines a).0 ++ (emit_lines ((emit_lines a).1 ++ b)).0,
      (emit_lines ((emit_lines a).1 ++ b)).1,
    )
unfolding emit_lines
emit_lines-append a b = rw (split_lines-append a b, map-append, keep-append)

push_capped_of_le :
    (limit : ℕ) (buf chunk : Text)
    → length (buf ++ chunk) ≤ limit
    → push_capped limit buf chunk ≡ emit_lines (buf ++ chunk)
unfolding push_capped
push_capped_of_le limit buf chunk h = ground arith

length-unsplit-le : (p : List Text × Text) → length p.1 ≤ length (unsplit p)
length-unsplit-le ([], rest) = omega arith
length-unsplit-le (l ∷ ls, rest) =
    omega (arith, length-append l (newline ∷ unsplit (ls, rest)), length-unsplit-le (ls, rest))

length-split_lines-le : (s : Text) → length (split_lines s).1 ≤ length s
length-split_lines-le s =
    omega (arith, length-unsplit-le (split_lines s), ap length (unsplit-split_lines s))

length-emit_lines-le : (s : Text) → length (emit_lines s).1 ≤ length s
unfolding emit_lines
length-emit_lines-le s = length-split_lines-le s

-- Feeding two chunks is feeding them at once, if together they fit under the limit: the same lines
-- come out, in the same order, and the same partial line stays.
pub push_capped-append :
    (limit : ℕ) (buf a b : Text)
    → length (buf ++ (a ++ b)) ≤ limit
    → push_capped limit buf (a ++ b) ≡ (
      (push_capped limit buf a).0 ++ (push_capped limit (push_capped limit buf a).1 b).0,
      (push_capped limit (push_capped limit buf a).1 b).1,
    )
push_capped-append limit buf a b h =
    let whole = length-append buf (a ++ b) in
    let first_fits : length (buf ++ a) ≤ limit =
      omega (arith, whole, length-append a b, length-append buf a) in
    let kept = (emit_lines (buf ++ a)).1 in
    let second_fits : length (kept ++ b) ≤ limit = omega (
      arith,
      whole,
      length-append a b,
      length-append buf a,
      length-append kept b,
      length-emit_lines-le (buf ++ a),
    ) in
    rw (
      push_capped_of_le limit buf (a ++ b) h,
      push_capped_of_le limit buf a first_fits,
      push_capped_of_le limit kept b second_fits,
      ← append_assoc buf a b,
      emit_lines-append (buf ++ a) b,
    )

-- Whole lines with their terminators, and the partial line behind them.
pub render_lines : List Text × Text → Text
render_lines ([], rest) = rest
render_lines (l ∷ ls, rest) = l ++ newline ∷ render_lines (ls, rest)

-- The buffer never passes the limit.
abbrev pub Fits : ℕ → Text → List Text → Type 0
Fits limit buf [] = Unit
Fits limit buf (c ∷ cs) = (length (buf ++ c) ≤ limit) × Fits limit (emit_lines (buf ++ c)).1 cs

render_lines-append :
    (ls ms : List Text) (rest : Text)
    → render_lines (ls ++ ms, rest) ≡ render_lines (ls, render_lines (ms, rest))
unfolding render_lines
render_lines-append [] ms rest = refl
render_lines-append (l ∷ ls) ms rest = ap (λ t. l ++ newline ∷ t) (render_lines-append ls ms rest)

join_lines-render_lines :
    (l : Text) (ls : List Text) (t : Text)
    → (join_lines (l ∷ ls) ++ newline ∷ []) ++ t ≡ render_lines (l ∷ ls, t)
unfolding join_lines render_lines
join_lines-render_lines l [] t = append_assoc l (newline ∷ []) t
join_lines-render_lines l (m ∷ ls) t =
    ap (λ s. s ++ t) (append_assoc l (newline ∷ join_lines (m ∷ ls)) (newline ∷ []))
    ∙ append_assoc l (newline ∷ (join_lines (m ∷ ls) ++ newline ∷ [])) t
    ∙ ap (λ s. l ++ newline ∷ s) (join_lines-render_lines m ls t)

join_ok-deliver :
    {E : Type 0} (ls : List Text) (out : List (Result E Text))
    → join_ok (deliver ls out) ≡ render_lines (ls, join_ok out)
unfolding join_ok render_lines
join_ok-deliver [] out = refl
join_ok-deliver (l ∷ ls) out = join_lines-render_lines l ls (join_ok out)

contains_char-emit_lines : (s : Text) → contains_char newline (emit_lines s).1 ≡ false
unfolding emit_lines
contains_char-emit_lines s = contains_char-split_lines s

emit_lines_of_contains_char : (s : Text) → contains_char newline s ≡ false → emit_lines s ≡ ([], s)
unfolding emit_lines
emit_lines_of_contains_char s h = rw (split_lines_of_contains_char s h)

module _ (E : Type 0) (limit : ℕ) where
  join_ok-buffered_lines :
      (buf : Text) (chunks : List Text)
      → contains_char newline buf ≡ false
      → Fits limit buf chunks
      → join_ok (buffered_lines {E = E} limit buf (map ok chunks))
        ≡ render_lines (emit_lines (buf ++ join chunks))
  unfolding buffered_lines join_ok join
  join_ok-buffered_lines [] [] n f = unfold emit_lines split_lines render_lines in refl
  join_ok-buffered_lines (b ∷ buf) [] n f =
      rw (append-nil, emit_lines_of_contains_char (b ∷ buf) n) (unfold render_lines in refl)
  join_ok-buffered_lines buf (c ∷ cs) n (le, f) =
      let p = emit_lines (buf ++ c) in
      rw
        (
          push_capped_of_le limit buf c le,
          join_ok-deliver p.0 (buffered_lines limit p.1 (map ok cs)),
          join_ok-buffered_lines p.1 cs (contains_char-emit_lines (buf ++ c)) f,
          ← append_assoc buf c (join cs),
          emit_lines-append (buf ++ c) (join cs),
        )
        (sym (render_lines-append p.0 _ _))

  -- With no error in the stream and the buffer always within its limit, what is delivered is the
  -- upstream's whole text, without its empty lines and without carriage returns at line ends, and
  -- ends in the upstream's last partial line. So it does not depend on where the chunks were cut.
  pub buffered_lines-join :
      (chunks : List Text)
      → Fits limit [] chunks
      → join_ok (buffered_lines {E = E} limit [] (map ok chunks))
        ≡ render_lines (emit_lines (join chunks))
  unfolding contains_char
  buffered_lines-join chunks f = join_ok-buffered_lines [] chunks refl f

split_off-append : (i : ℕ) (s : Text) → (split_off i s).0 ++ (split_off i s).1 ≡ s
unfolding split_off
split_off-append zero s = refl
split_off-append (suc i) [] = refl
split_off-append (suc i) (c ∷ s) = ap (◌∷◌ c) (split_off-append i s)

contains_char-append :
    (b : ℕ) (s t : Text) → contains_char b (s ++ t) ≡ false → contains_char b s ≡ false
unfolding contains_char
contains_char-append b [] t h = refl
contains_char-append b (c ∷ s) t h = ground (arith, contains_char-append b s t)

abbrev with_no_lines : Text → List Text × Text
with_no_lines t = ([], t)

push_capped_of_contains_char :
    (limit : ℕ) (buf chunk : Text)
    → contains_char newline (buf ++ chunk) ≡ false
    → push_capped limit buf chunk ≡ ([], buf ++ chunk)
unfolding push_capped
push_capped_of_contains_char limit buf chunk h =
    let whole = buf ++ chunk in
    let i = find_cut limit whole in
    let joined = split_off-append i whole in
    let e =
      emit_lines_of_contains_char (split_off i whole).0
        (contains_char-append newline (split_off i whole).0 (split_off i whole).1 (rw joined h)) in
    elim (Bool-cases (ltb limit (length whole))) [
      | inl over ↦ rw (over, e) (ap (with_no_lines) joined)
      | inr fits ↦ rw (fits, emit_lines_of_contains_char whole h)
    ]

-- An upstream that sends no newline is kept whole, however long it is: no line comes out, and the
-- buffer holds every byte, also past the limit.
pub push_of_contains_char :
    (buf chunk : Text)
    → contains_char newline (buf ++ chunk) ≡ false
    → push buf chunk ≡ ([], buf ++ chunk)
unfolding push
push_of_contains_char buf chunk h = push_capped_of_contains_char max_line_buffer buf chunk h
