-- ===== src/Upstream/Decoding.antt =====
-- A text of which the network's chunks are pieces comes out of `make_utf8_stream` as it was.
use mathlib.Core.List.{append_assoc, append-nil}
use aperture_router.Prelude.{
  ℕ, ◌+◌, ◌≤◌, ◌≡◌, refl, sym, ◌∙◌, ap, false, Option, none, some, List, [], ◌∷◌, ◌++◌, arith, map,
  ltb, length, length-append, Option-cases, inl, inr, and_then,
}
use aperture_router.Net.{err, Result, ok}
use aperture_router.Text.{Text}
use aperture_router.Chunks.{join_ok, join}
use aperture_router.Upstream.Utf8.{
  Decoder, start, needs, advance, complete, incomplete, Utf8, after, scan, from_utf8, Utf8State,
  StreamError, fresh, take_text, on_bytes, utf8_stream,
}

-- The decoder behind a text, if every byte of it may stand where it stands.
unfoldable pub decode : Decoder → Text → Option Decoder
decode d [] = some d
decode d (c ∷ s) = and_then (advance d c) (λ d'. decode d' s)

-- Whole characters only.
abbrev pub IsUtf8 : Text → Type 0
IsUtf8 s = decode start s ≡ some start

decode-append :
    (d e : Decoder) (s t : Text)
    → decode d (s ++ t) ≡ some e
    → (d' : Decoder) × (decode d s ≡ some d') × (decode d' t ≡ some e)
unfolding decode
decode-append d e [] t h = (d, refl, h)
decode-append d e (c ∷ s) t h = elim (Option-cases (advance d c)) [
  | inl bad ↦ absurd (cc (rw bad at h))
  | inr (d', good) ↦ rw good (decode-append d' e s t (rw good at h))
]

decode-then : (d d' : Decoder) (s t : Text) → decode d s ≡ some d' → decode d (s ++ t) ≡ decode d' t
unfolding decode
decode-then d d' [] t h = let e : d ≡ d' = cc in ap (λ (x : Decoder). decode x t) e
decode-then d d' (c ∷ s) t h = elim (Option-cases (advance d c)) [
  | inl bad ↦ absurd (cc (rw bad at h))
  | inr (e, good) ↦ rw good (decode-then e d' s t (rw good at h))
]

decode_one : (d d' : Decoder) (c : ℕ) → advance d c ≡ some d' → decode d (c ∷ []) ≡ some d'
unfolding decode
decode_one d d' c h = rw h refl

-- How many bytes of a character may wait: never more than three.
abbrev FitsIn : Decoder → Text → Type 0
FitsIn start pending = pending ≡ []
FitsIn (needs low high more) pending = (length pending + more ≤ 3) × (1 ≤ length pending)

-- Bytes that wait are read again to the same effect.
record IsPending (d : Decoder) (pending : Text) : Type 0 where
  again : (t : Text) → scan start [] (pending ++ t) ≡ scan d pending t
  fits : FitsIn d pending
  so_far : decode start pending ≡ some d

first_byte_bound : (c low high more : ℕ) → advance start c ≡ some (needs low high more) → more ≤ 2
unfolding advance
first_byte_bound c low high more h = ground arith

next_byte_bound :
    (l k m c low high more : ℕ)
    → advance (needs l k m) c ≡ some (needs low high more)
    → more + 1 ≡ m
unfolding advance
next_byte_bound l k m c low high more h = ground arith

FitsIn-advance :
    (d d' : Decoder) (pending : Text) (c : ℕ)
    → FitsIn d pending
    → advance d c ≡ some d'
    → FitsIn d' (incomplete d' (pending ++ c ∷ []))
FitsIn-advance d start pending c f h = refl
FitsIn-advance start (needs low high more) pending c f h =
    rw f (omega (arith, first_byte_bound c low high more h))
FitsIn-advance (needs l k m) (needs low high more) pending c f h =
    omega (arith, f, length-append pending (c ∷ []), next_byte_bound l k m c low high more h)

scan-advance :
    (d d' : Decoder) (pending : Text) (c : ℕ) (s : Text)
    → advance d c ≡ some d'
    → scan d pending (c ∷ s)
      ≡ after (complete d' (pending ++ c ∷ [])) (scan d' (incomplete d' (pending ++ c ∷ [])) s)
unfolding scan
scan-advance d d' pending c s h = ground arith

again-advance :
    (d d' : Decoder) (pending : Text) (c : ℕ) (t : Text)
    → ((u : Text) → scan start [] (pending ++ u) ≡ scan d pending u)
    → advance d c ≡ some d'
    → scan start [] (incomplete d' (pending ++ c ∷ []) ++ t)
      ≡ scan d' (incomplete d' (pending ++ c ∷ [])) t
again-advance d start pending c t a h = refl
again-advance d (needs low high more) pending c t a h =
    rw (append_assoc pending (c ∷ []) t)
      (a (c ∷ t) ∙ scan-advance d (needs low high more) pending c t h)

so_far-advance :
    (d d' : Decoder) (pending : Text) (c : ℕ)
    → decode start pending ≡ some d
    → advance d c ≡ some d'
    → decode start (pending ++ c ∷ []) ≡ some d'
so_far-advance d d' pending c p h = decode-then start d pending (c ∷ []) p ∙ decode_one d d' c h

decode-incomplete :
    (d : Decoder) (s : Text) → decode start s ≡ some d → decode start (incomplete d s) ≡ some d
unfolding decode
decode-incomplete start s h = refl
decode-incomplete (needs low high more) s h = h

complete-IsUtf8 : (d : Decoder) (s : Text) → decode start s ≡ some d → IsUtf8 (complete d s)
unfolding decode
complete-IsUtf8 start s h = h
complete-IsUtf8 (needs low high more) s h = refl

IsPending-advance :
    (d d' : Decoder) (pending : Text) (c : ℕ)
    → IsPending d pending
    → advance d c ≡ some d'
    → IsPending d' (incomplete d' (pending ++ c ∷ []))
IsPending-advance d d' pending c p h = record {
  again = λ t. again-advance d d' pending c t p.again h;
  fits = FitsIn-advance d d' pending c p.fits h;
  so_far = decode-incomplete d' _ (so_far-advance d d' pending c p.so_far h);
}

complete-incomplete : (d : Decoder) (s : Text) → complete d s ++ incomplete d s ≡ s
complete-incomplete start s = append-nil s
complete-incomplete (needs low high more) s = refl

-- Bytes that may stand where they stand are split into whole characters and one that is not whole.
record IsSplit (e : Decoder) (whole : Text) (u : Utf8) : Type 0 where
  joined : u.valid ++ u.rest ≡ whole
  waiting : IsPending e u.rest
  unfinished : u.error_len ≡ none
  chars : IsUtf8 u.valid

IsSplit-after :
    (d' e : Decoder) (pending : Text) (c : ℕ) (s : Text) (u : Utf8)
    → decode start (pending ++ c ∷ []) ≡ some d'
    → IsSplit e (incomplete d' (pending ++ c ∷ []) ++ s) u
    → IsSplit e (pending ++ c ∷ s) (after (complete d' (pending ++ c ∷ [])) u)
IsSplit-after d' e pending c s u p r =
    let read = pending ++ c ∷ [] in
    record {
      joined =
          append_assoc (complete d' read) u.valid u.rest
          ∙ ap (λ x. complete d' read ++ x) r.joined
          ∙ sym (append_assoc (complete d' read) (incomplete d' read) s)
          ∙ ap (λ x. x ++ s) (complete-incomplete d' read)
          ∙ append_assoc pending (c ∷ []) s;
      waiting = r.waiting;
      unfinished = r.unfinished;
      chars =
          decode-then start start (complete d' read) u.valid (complete-IsUtf8 d' read p) ∙ r.chars;
    }

scan-IsSplit :
    (d e : Decoder) (pending s : Text)
    → IsPending d pending
    → decode d s ≡ some e
    → IsSplit e (pending ++ s) (scan d pending s)
unfolding decode
scan-IsSplit d e pending [] p h =
    let same : d ≡ e = cc in
    rw (← same) (record {
      joined = unfold scan in sym (append-nil pending);
      waiting = unfold scan in p;
      unfinished = unfold scan in refl;
      chars = unfold scan in refl;
    })
scan-IsSplit d e pending (c ∷ s) p h = elim (Option-cases (advance d c)) [
  | inl bad ↦ absurd (cc (rw bad at h))
  | inr (d', good) ↦ rw (scan-advance d d' pending c s good) (
      IsSplit-after d' e pending c s (scan d' (incomplete d' (pending ++ c ∷ [])) s)
        (so_far-advance d d' pending c p.so_far good)
        (scan-IsSplit d' e (incomplete d' (pending ++ c ∷ [])) s
          (IsPending-advance d d' pending c p good) (rw good at h)))
]

FitsIn-le : (d : Decoder) (pending : Text) → FitsIn d pending → length pending ≤ 3
FitsIn-le start pending f = rw f (omega arith)
FitsIn-le (needs low high more) pending f = omega (arith, f)

start_of_none : (d : Decoder) → FitsIn d [] → d ≡ start
start_of_none start f = refl
start_of_none (needs low high more) f = absurd (omega (arith, f))

nothing_at_start : (d : Decoder) (pending : Text) → d ≡ start → FitsIn d pending → pending ≡ []
nothing_at_start start pending e f = f
nothing_at_start (needs low high more) pending e f = absurd (cc e)

-- What is taken from a buffer that is split, and what stays, are the buffer; what is taken is whole
-- characters.
IsTaken : Decoder → Text → Text × Text → Type 0
IsTaken e buf t = (t.0 ++ t.1 ≡ buf) × IsPending e t.1 × IsUtf8 t.0

take_parts-IsTaken :
    (e : Decoder) (buf valid rest : Text) (error_len : Option ℕ)
    → valid ++ rest ≡ buf
    → IsPending e rest
    → error_len ≡ none
    → IsUtf8 valid
    → IsTaken e buf (take_text buf (record { valid = valid; rest = rest; error_len = error_len }))
unfolding IsTaken
take_parts-IsTaken e buf valid [] error_len j w h k =
    (append-nil buf, w, rw (← (sym (append-nil valid) ∙ j)) k)
take_parts-IsTaken e buf (v ∷ vs) (x ∷ xs) error_len j w h k = (j, w, k)
take_parts-IsTaken e buf [] (x ∷ xs) error_len j w h k =
    let few : ltb (4 + 1) (length buf) ≡ false =
      rw (← j) (ground (arith, FitsIn-le e (x ∷ xs) w.fits)) in
    rw (h, few) (refl, rw (← j) w, k)

take_text-IsTaken :
    (e : Decoder) (buf : Text) (u : Utf8) → IsSplit e buf u → IsTaken e buf (take_text buf u)
take_text-IsTaken e buf u r =
    take_parts-IsTaken e buf u.valid u.rest u.error_len r.joined r.waiting r.unfinished r.chars

-- One chunk: what comes out and what waits are what waited and what came in.
on_bytes-IsTaken :
    (max_size : ℕ) (bytes : Text) (s : Utf8State) (d e : Decoder)
    → s.total_bytes + length bytes ≤ max_size
    → IsPending d s.leftover
    → decode d bytes ≡ some e
    → (text : Text) × ((on_bytes max_size bytes s).0 ≡ ok text)
      × ((on_bytes max_size bytes s).1.total_bytes ≡ s.total_bytes + length bytes)
      × IsTaken e (s.leftover ++ bytes) (text, (on_bytes max_size bytes s).1.leftover)
unfolding on_bytes from_utf8
on_bytes-IsTaken max_size bytes s d e fits p h =
    let within : ltb max_size (s.total_bytes + length bytes) ≡ false = ground arith in
    let buf = s.leftover ++ bytes in
    let split : IsSplit e buf (scan start [] buf) =
      rw (p.again bytes) (scan-IsSplit d e s.leftover bytes p h) in
    rw within (
      (take_text buf (scan start [] buf)).0,
      refl,
      refl,
      take_text-IsTaken e buf (scan start [] buf) split,
    )

-- What a reader of the stream may get: no error, and whole characters only.
abbrev IsWhole : Result StreamError Text → Type 0
IsWhole (ok text) = IsUtf8 text
IsWhole (err e) = ⊥

abbrev pub AreWhole : List (Result StreamError Text) → Type 0
AreWhole [] = Unit
AreWhole (r ∷ rs) = IsWhole r × AreWhole rs

utf8_stream-join_from :
    (max_size : ℕ) (s : Utf8State) (d : Decoder) (chunks : List Text)
    → s.total_bytes + length (join chunks) ≤ max_size
    → IsPending d s.leftover
    → decode d (join chunks) ≡ some start
    → (join_ok (utf8_stream max_size s (map ok chunks)) ≡ s.leftover ++ join chunks)
      × AreWhole (utf8_stream max_size s (map ok chunks))
unfolding utf8_stream join_ok join IsTaken decode
utf8_stream-join_from max_size s d [] fits p h =
    let ended : d ≡ start = cc in
    let nothing = nothing_at_start d s.leftover ended p.fits in (sym (rw nothing refl), tt)
utf8_stream-join_from max_size s d (bytes ∷ chunks) fits p h =
    let (e, first, later) = decode-append d start bytes (join chunks) h in
    let sum = length-append bytes (join chunks) in
    let (text, out, total, taken) =
      on_bytes-IsTaken max_size bytes s d e (omega (arith, sum, fits)) p first in
    let s' = (on_bytes max_size bytes s).1 in
    let (joined, whole) =
      utf8_stream-join_from max_size s' e chunks (omega (arith, sum, total, fits)) taken.1 later in
    rw out (
      ap (λ x. text ++ x) joined
          ∙ sym (append_assoc text s'.leftover (join chunks))
          ∙ ap (λ x. x ++ join chunks) taken.0
          ∙ append_assoc s.leftover bytes (join chunks),
      (taken.2, whole),
    )

-- If the chunks of the network are the pieces of a text in UTF-8, cut anywhere, also inside its
-- characters, and fit within the size limit, then what comes out is that text in pieces, of which
-- each is valid UTF-8 by itself: no error, nothing lost, replaced or held back, and no character cut.
pub utf8_stream-join :
    (max_size : ℕ) (chunks : List Text)
    → IsUtf8 (join chunks)
    → length (join chunks) ≤ max_size
    → (join_ok (utf8_stream max_size fresh (map ok chunks)) ≡ join chunks)
      × AreWhole (utf8_stream max_size fresh (map ok chunks))
utf8_stream-join max_size chunks h fits =
    utf8_stream-join_from max_size fresh start chunks (omega (arith, fits))
      (record { again = λ t. refl; fits = refl; so_far = unfold decode in refl }) h
