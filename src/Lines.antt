-- ===== src/Lines.antt =====
-- The line loop that routes/streaming.rs and types/conversion.rs share:
-- `while let Some(pos) = buf.find('\n')`, which takes one line off the buffer in each round.
use aperture_router.Prelude.{
  arith, ==_iff, false, ℕ, ◌≡◌, refl, ap, ◌∙◌, List, [], ◌∷◌, ◌++◌, if◌then◌else◌, ◌==◌, nat_eq,
  Bool-cases, inl, inr,
}
use aperture_router.Text.{contains_char, Text, trim_end_matches}

abbrev pub newline : ℕ
newline = 10

abbrev pub carriage_return : ℕ
carriage_return = 13

abbrev first_line : ℕ → List Text × Text → List Text × Text
first_line c ([], rest) = ([], c ∷ rest)
first_line c (l ∷ ls, rest) = ((c ∷ l) ∷ ls, rest)

-- The complete lines of the buffer without their terminators, and what stays in it.
unfoldable pub split_lines : Text → List Text × Text
split_lines [] = ([], [])
split_lines (c ∷ s) =
    let (ls, rest) = split_lines s in
    if c == newline then ([] ∷ ls, rest) else first_line c (ls, rest)

-- `trim_end_matches('\r')` on each line
unfoldable pub trim_line : Text → Text
trim_line line = trim_end_matches carriage_return line

-- One byte more on the left.
abbrev add_byte : ℕ → List Text × Text → List Text × Text
add_byte c p = if c == newline then ([] ∷ p.0, p.1) else first_line c (p.0, p.1)

-- What the buffer `p.1` and the lines `p.0` become when `b` is fed.
abbrev feed_lines : List Text × Text → Text → List Text × Text
feed_lines p b = (p.0 ++ (split_lines (p.1 ++ b)).0, (split_lines (p.1 ++ b)).1)

feed_lines-add_byte :
    (c : ℕ) (p : List Text × Text) (b : Text)
    → add_byte c (feed_lines p b) ≡ feed_lines (add_byte c p) b
unfolding split_lines
feed_lines-add_byte c ([], r) b = elim (Bool-cases (c == newline)) [
  | inl e ↦ rw e
  | inr e ↦ rw e (rw e)
]
feed_lines-add_byte c (l ∷ ls, r) b = elim (Bool-cases (c == newline)) [
  | inl e ↦ rw e
  | inr e ↦ rw e
]

-- What two chunks give in a row is what they give at once.
pub split_lines-append :
    (a b : Text)
    → split_lines (a ++ b) ≡ (
      (split_lines a).0 ++ (split_lines ((split_lines a).1 ++ b)).0,
      (split_lines ((split_lines a).1 ++ b)).1,
    )
unfolding split_lines
split_lines-append [] b = refl
split_lines-append (c ∷ a) b =
    ap (add_byte c) (split_lines-append a b) ∙ feed_lines-add_byte c (split_lines a) b

-- The text that was split, with its terminators.
abbrev pub unsplit : List Text × Text → Text
unsplit ([], rest) = rest
unsplit (l ∷ ls, rest) = l ++ newline ∷ unsplit (ls, rest)

unsplit-add_byte : (c : ℕ) (p : List Text × Text) → unsplit (add_byte c p) ≡ c ∷ unsplit p
unsplit-add_byte c ([], r) = ground (arith, ==_iff c newline)
unsplit-add_byte c (l ∷ ls, r) = ground (arith, ==_iff c newline)

-- Splitting loses nothing.
pub unsplit-split_lines : (s : Text) → unsplit (split_lines s) ≡ s
unfolding split_lines
unsplit-split_lines [] = refl
unsplit-split_lines (c ∷ s) =
    unsplit-add_byte c (split_lines s) ∙ ap (◌∷◌ c) (unsplit-split_lines s)

-- A text with no newline is one unfinished line.
pub split_lines_of_contains_char :
    (s : Text) → contains_char newline s ≡ false → split_lines s ≡ ([], s)
unfolding split_lines contains_char
split_lines_of_contains_char [] h = refl
split_lines_of_contains_char (c ∷ s) h =
    rw (split_lines_of_contains_char s (ground arith)) (ground arith)

-- What stays in the buffer holds no newline.
contains_char-add_byte :
    (c : ℕ) (p : List Text × Text)
    → contains_char newline p.1 ≡ false
    → contains_char newline (add_byte c p).1 ≡ false
unfolding contains_char
contains_char-add_byte c ([], r) h = ground arith
contains_char-add_byte c (l ∷ ls, r) h = ground arith

pub contains_char-split_lines : (s : Text) → contains_char newline (split_lines s).1 ≡ false
unfolding split_lines
contains_char-split_lines [] = unfold contains_char in refl
contains_char-split_lines (c ∷ s) =
    contains_char-add_byte c (split_lines s) (contains_char-split_lines s)
