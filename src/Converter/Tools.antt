-- ===== src/Converter/Tools.antt =====
-- One tool call delta of `process_openai_chunk`: which slot it belongs to, whether it starts a new
-- block, and what it pushes.
use Prim.Native.String
use aperture_router.Prelude.{
  ℕ, suc, ◌+◌, ◌/◌, ◌%◌, String, Bool, true, false, not, Option, none, some, List, [], ◌∷◌, ◌++◌,
  if◌then◌else◌, ◌==◌, string_eq, nat_eq, and_then, unwrap_or, contains, ltb,
}
use aperture_router.Maps
use aperture_router.Maps.{Map}
use aperture_router.Json
use aperture_router.Json.{Value, string, json, num, get_str, get_u64}
use aperture_router.Converter.{
  SseEventData, ToolBlockState, Converter, Step, skip, block_start, block_delta, ◌then◌,
}

-- The decimal digits of a slot number; the fuel is one more than the number.
abbrev digit : ℕ → String
digit d =
    if d == 0
    then "0"
    else if d == 1
    then "1"
    else if d == 2
    then "2"
    else if d == 3
    then "3"
    else if d == 4
    then "4"
    else if d == 5
    then "5"
    else if d == 6
    then "6"
    else if d == 7
    then "7"
    else if d == 8
    then "8"
    else "9"

decimal_from : ℕ → ℕ → String
decimal_from ℕ.zero n = ""
decimal_from (suc fuel) n =
    let more = decimal_from fuel (n / 10) in
    if ltb n 10 then digit n else String.◌++◌ more (digit (n % 10))

-- `format!("{}", n)`
unfoldable pub decimal : ℕ → String
unfolding decimal_from
decimal n = decimal_from (n + 1) n

-- `tc.get("id").and_then(|i| i.as_str()).filter(|s| !s.is_empty())`
unfoldable pub call_id : Value → Option String
call_id tc = and_then (get_str "id" tc) (λ s. if s == "" then none else some s)

-- `tool_blocks.iter().find(|(_, st)| &st.id == id).map(|(&k, _)| k)`
unfoldable pub slot_of_id : String → Map ℕ ToolBlockState → Option ℕ
slot_of_id id [] = none
slot_of_id id ((slot, st) ∷ m) = if st.id == id then some slot else slot_of_id id m

-- A slot by its id, or the next free one.
abbrev pub slot_or_next : Option ℕ → Converter → ℕ × Converter
slot_or_next (some slot) s = (slot, s)
slot_or_next none s = (s.next_tool_slot, record s { next_tool_slot = s.next_tool_slot + 1 })

-- The slot of a delta with this explicit index and id.
unfoldable pub resolve_slot : Option ℕ → Option String → Converter → ℕ × Converter
unfolding slot_of_id
resolve_slot (some i) tc_id s = (i, s)
resolve_slot none (some id) s = slot_or_next (slot_of_id id s.tool_blocks) s
resolve_slot none none s = (unwrap_or s.last_tool_slot 0, s)

-- A fresh id, or a fragment without one at a slot with no open block.
unfoldable pub is_new_call : Option String → Option ToolBlockState → Bool
is_new_call (some id) (some existing) = not (existing.id == id)
is_new_call (some id) none = true
is_new_call none (some existing) = false
is_new_call none none = true

-- The id of a new block: its own, or one made of the next slot number.
abbrev pub block_id : Option String → Converter → String × Converter
block_id (some id) s = (id, s)
block_id none s = (
  String.◌++◌ "call_synth_" (decimal s.next_tool_slot),
  record s { next_tool_slot = s.next_tool_slot + 1 },
)

unfoldable pub call_name : Value → String
call_name tc = unwrap_or (and_then (Json.get "function" tc) (get_str "name")) ""

abbrev pub push_slot : ℕ → List ℕ → List ℕ
push_slot slot order = if contains order slot then order else order ++ slot ∷ []

-- The block takes the next index, and its slot.
unfoldable pub open_tool : ℕ → String → String → Step
open_tool slot id name s = (
  block_start s.content_block_index (
        ("type", string "tool_use")
        ∷ ("id", string id)
        ∷ ("name", string name)
        ∷ ("input", json [])
        ∷ [])
      ∷ [],
  record s {
    content_block_index = s.content_block_index + 1;
    tool_block_order = push_slot slot s.tool_block_order;
    tool_blocks =
        Maps.insert slot (record { id = id; block_index = s.content_block_index }) s.tool_blocks;
  },
)

unfoldable pub start_call : ℕ → Option String → Value → Step
start_call slot tc_id tc s =
    if is_new_call tc_id (Maps.get slot s.tool_blocks)
    then (let (id, s') = block_id tc_id s in open_tool slot id (call_name tc) s')
    else ([], s)

abbrev pub arguments_at : Option ToolBlockState → String → List SseEventData
arguments_at none args = []
arguments_at (some tool_state) args =
    block_delta tool_state.block_index
      (("type", string "input_json_delta") ∷ ("partial_json", string args) ∷ [])
    ∷ []

-- `if !args.is_empty()`
abbrev pub push_fragment : ℕ → Option String → Step
push_fragment slot none = skip
push_fragment slot (some args) =
    if args == "" then skip else λ s. (arguments_at (Maps.get slot s.tool_blocks) args, s)

-- The fragment of the arguments, if there is one.
unfoldable pub push_arguments : ℕ → Value → Step
push_arguments slot tc =
    push_fragment slot (and_then (Json.get "function" tc) (get_str "arguments"))

unfoldable pub tool_call : Value → Step
tool_call tc s =
    let (slot, s') = resolve_slot (get_u64 "index" tc) (call_id tc) s in
    (start_call slot (call_id tc) tc then push_arguments slot tc)
      (record s' { last_tool_slot = some slot })

unfoldable pub tool_calls : List Value → Step
tool_calls [] = skip
tool_calls (tc ∷ tcs) = tool_call tc then tool_calls tcs
