-- ===== src/Streaming/Depth.antt =====
-- `parse_json_with_depth_limit` of src/routes/streaming.rs.
use aperture_router.Prelude.{
  ℕ, suc, ◌+◌, ◌-◌, ◌≤◌, ◌<◌, ◌≡◌, ◌↔◌, refl, ap, Bool, true, false, Option, none, some, List, [],
  ◌∷◌, ◌++◌, ◌||◌, arith, if◌then◌else◌, ltb, ◌==◌, nat_eq,
}
use aperture_router.Net.{Result, ok, err, is_ok, ◌>>◌}
use aperture_router.Text.{Text}
use aperture_router.Json.{Value}

pub data ParseError : Type 0 where
  depth_limit unmatched_bracket invalid : ParseError

-- The loop over the characters; `depth`, `in_string` and `escaped` are its variables. The bytes
-- that it looks for are below 128, so bytes serve for characters.
unfoldable pub check_depth : ℕ → ℕ → Bool → Bool → Text → Result ParseError Unit
check_depth max_depth depth in_string escaped [] = ok tt
check_depth max_depth depth true true (ch ∷ s) = check_depth max_depth depth true false s
check_depth max_depth depth true false (ch ∷ s) =
    check_depth max_depth depth (if ch == b'"' then false else true) (ch == b'\\') s
check_depth max_depth depth false escaped (ch ∷ s) =
    let opened = check_depth max_depth (depth + 1) false escaped s in
    let closed = check_depth max_depth (depth - 1) false escaped s in
    let quoted = check_depth max_depth depth true escaped s in
    let plain = check_depth max_depth depth false escaped s in
    if ch == b'"'
    then quoted
    else if ch == b'{' || ch == b'['
    then (if ltb max_depth (depth + 1) then err depth_limit else opened)
    else if ch == b'}' || ch == b']'
    then (if depth == 0 then err unmatched_bracket else closed)
    else plain

abbrev parsed : Option Value → Result ParseError Value
parsed none = err invalid
parsed (some v) = ok v

-- `from_str` is that of serde_json.
module _ (from_str : Text → Option Value) where
  unfoldable pub parse_json_with_depth_limit : Text → ℕ → Result ParseError Value
  parse_json_with_depth_limit json max_depth = do
    check_depth max_depth 0 false false json
    parsed (from_str json)

-- The brackets outside string literals, opening ones as `true`.
pub brackets : Bool → Bool → Text → List Bool
brackets in_string escaped [] = []
brackets true true (ch ∷ s) = brackets true false s
brackets true false (ch ∷ s) = brackets (if ch == b'"' then false else true) (ch == b'\\') s
brackets false escaped (ch ∷ s) =
    let rest = brackets (ch == b'"') escaped s in
    if ch == b'{' || ch == b'['
    then true ∷ rest
    else if ch == b'}' || ch == b']'
    then false ∷ rest
    else rest

abbrev pub opens : List Bool → ℕ
opens [] = 0
opens (true ∷ bs) = suc (opens bs)
opens (false ∷ bs) = opens bs

abbrev pub closes : List Bool → ℕ
closes [] = 0
closes (true ∷ bs) = closes bs
closes (false ∷ bs) = suc (closes bs)

-- Nowhere are more brackets closed than opened, and nowhere are more than `max_depth` open.
abbrev pub IsNested : ℕ → ℕ → List Bool → Type 0
IsNested max_depth depth bs =
    (xs ys : List Bool)
    → bs ≡ xs ++ ys
    → (closes xs ≤ depth + opens xs) × (depth + opens xs ≤ closes xs + max_depth)

-- The loop on the brackets alone.
check_brackets : ℕ → ℕ → List Bool → Bool
check_brackets max_depth depth [] = true
check_brackets max_depth depth (true ∷ bs) =
    let rest = check_brackets max_depth (depth + 1) bs in
    if ltb max_depth (depth + 1) then false else rest
check_brackets max_depth depth (false ∷ bs) =
    let rest = check_brackets max_depth (depth - 1) bs in if depth == 0 then false else rest

check_depth-eq-check_brackets :
    (max_depth depth : ℕ) (in_string escaped : Bool) (s : Text)
    → is_ok (check_depth max_depth depth in_string escaped s)
      ≡ check_brackets max_depth depth (brackets in_string escaped s)
unfolding check_depth check_brackets brackets
check_depth-eq-check_brackets max_depth depth true true [] = refl
check_depth-eq-check_brackets max_depth depth true false [] = refl
check_depth-eq-check_brackets max_depth depth false escaped [] = refl
check_depth-eq-check_brackets max_depth depth true true (ch ∷ s) =
    check_depth-eq-check_brackets max_depth depth true false s
check_depth-eq-check_brackets max_depth depth true false (ch ∷ s) =
    check_depth-eq-check_brackets max_depth depth (if ch == b'"' then false else true) (ch == b'\\')
      s
check_depth-eq-check_brackets max_depth depth false escaped (ch ∷ s) = ground (
  arith,
  check_depth-eq-check_brackets max_depth (depth + 1) false escaped s,
  check_depth-eq-check_brackets max_depth (depth - 1) false escaped s,
  check_depth-eq-check_brackets max_depth depth true escaped s,
  check_depth-eq-check_brackets max_depth depth false escaped s,
)

IsNested-open :
    (max_depth depth : ℕ) (bs : List Bool)
    → IsNested max_depth depth (true ∷ bs)
    → IsNested max_depth (depth + 1) bs
IsNested-open max_depth depth bs n xs ys e =
    let (p, q) = n (true ∷ xs) ys (ap (◌∷◌ true) e) in (omega (arith, p), omega (arith, q))

IsNested-close :
    (max_depth depth : ℕ) (bs : List Bool)
    → IsNested max_depth depth (false ∷ bs)
    → 0 < depth
    → IsNested max_depth (depth - 1) bs
IsNested-close max_depth depth bs n h xs ys e =
    let (p, q) = n (false ∷ xs) ys (ap (◌∷◌ false) e) in (omega (arith, p), omega (arith, q))

check_brackets_sound :
    (max_depth depth : ℕ) (bs : List Bool)
    → depth ≤ max_depth
    → check_brackets max_depth depth bs ≡ true
    → IsNested max_depth depth bs
unfolding check_brackets
check_brackets_sound max_depth depth bs h c [] ys e = (omega arith, omega arith)
check_brackets_sound max_depth depth [] h c (x ∷ xs) ys e = absurd (cc)
check_brackets_sound max_depth depth (true ∷ bs) h c (false ∷ xs) ys e = absurd (cc)
check_brackets_sound max_depth depth (false ∷ bs) h c (true ∷ xs) ys e = absurd (cc)
check_brackets_sound max_depth depth (true ∷ bs) h c (true ∷ xs) ys e =
    let (p, q) =
      check_brackets_sound max_depth (depth + 1) bs (ground arith) (ground arith) xs ys (cc) in
    (omega (arith, p), omega (arith, q))
check_brackets_sound max_depth depth (false ∷ bs) h c (false ∷ xs) ys e =
    let pos : 0 < depth = ground arith in
    let (p, q) =
      check_brackets_sound max_depth (depth - 1) bs (omega arith) (ground arith) xs ys (cc) in
    (omega (arith, p), omega (arith, q))

check_brackets_complete :
    (max_depth depth : ℕ) (bs : List Bool)
    → IsNested max_depth depth bs
    → check_brackets max_depth depth bs ≡ true
unfolding check_brackets
check_brackets_complete max_depth depth [] n = refl
check_brackets_complete max_depth depth (true ∷ bs) n =
    let (p, q) = n (true ∷ []) bs refl in
    ground (
      arith,
      q,
      check_brackets_complete max_depth (depth + 1) bs (IsNested-open max_depth depth bs n),
    )
check_brackets_complete max_depth depth (false ∷ bs) n =
    let (p, q) = n (false ∷ []) bs refl in
    let pos : 0 < depth = omega (arith, p) in
    ground (
      arith,
      pos,
      check_brackets_complete max_depth (depth - 1) bs (IsNested-close max_depth depth bs n pos),
    )

-- The check passes a text exactly if, outside string literals, no prefix closes more brackets than
-- it opens and no prefix has more than `max_depth` brackets open.
pub check_depth_iff :
    (max_depth : ℕ) (s : Text)
    → (is_ok (check_depth max_depth 0 false false s) ≡ true)
      ↔ IsNested max_depth 0 (brackets false false s)
check_depth_iff max_depth s = rw check_depth-eq-check_brackets (
  check_brackets_sound max_depth 0 (brackets false false s) (omega arith),
  check_brackets_complete max_depth 0 (brackets false false s),
)
