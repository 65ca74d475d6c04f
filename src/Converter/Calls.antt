-- ===== src/Converter/Calls.antt =====
-- Tool call deltas: the blocks that they start and the arguments that they add keep the client
-- following.
use aperture_router.Prelude.{
  Bool, ◌∙◌, if◌then◌else◌, ◌≡◌, refl, ℕ, ◌+◌, ◌<◌, String, true, false, none, some, Option, ◌||◌,
  arith, List, ◌==◌, ==_iff, string_eq, nat_eq, [], ◌∷◌, ◌++◌, contains, and_then,
}
use aperture_router.Maps
use aperture_router.Maps.{get-insert}
use aperture_router.Json
use aperture_router.Json.{get_u64, string, Value, json, get_str}
use aperture_router.Converter.{ToolBlockState, Converter, Step, skip}
use aperture_router.Converter.Tools.{
  call_id, push_fragment, push_slot, open_tool, start_call, push_arguments, tool_call, tool_calls,
  resolve_slot, is_new_call, block_id, call_name, arguments_at, slot_or_next, slot_of_id,
}
use aperture_router.Converter.Chunk.{on_tool_calls}
use aperture_router.Converter.Monitor.{feed, Client, opened}
use aperture_router.Converter.Relation.{
  IsCovered, IsNodup, Runs, Keeps, Any, IsFree, Keeps-then, Keeps-if, Keeps-skip, Keeps-split,
  Keeps-to_any,
}
use aperture_router.Converter.Protocol.{
  Keeps-stop_thinking, Keeps-stop_text, receive-block_start, receive-block_delta, feed_one,
}

contains-snoc :
    (x slot : ℕ) (order : List ℕ)
    → contains (order ++ slot ∷ []) x ≡ contains order x || (slot == x)
contains-snoc x slot [] = ground (arith, ==_iff x slot, ==_iff slot x)
contains-snoc x slot (y ∷ order) = ground (arith, contains-snoc x slot order)

snoc-IsNodup :
    (slot : ℕ) (order : List ℕ)
    → IsNodup order
    → contains order slot ≡ false
    → IsNodup (order ++ slot ∷ [])
snoc-IsNodup slot [] n h = (refl, tt)
snoc-IsNodup slot (y ∷ order) (a, n) h =
    ground
      (arith, snoc-IsNodup slot order n, contains-snoc y slot order, ==_iff slot y, ==_iff y slot)

push_slot-IsNodup : (slot : ℕ) (order : List ℕ) → IsNodup order → IsNodup (push_slot slot order)
push_slot-IsNodup slot order n = ground (arith, snoc-IsNodup slot order n)

-- The state behind a new tool block.
abbrev with_tool : ℕ → String → Converter → Converter
with_tool slot id s = record s {
  content_block_index = s.content_block_index + 1;
  tool_block_order = push_slot slot s.tool_block_order;
  tool_blocks =
      Maps.insert slot (record { id = id; block_index = s.content_block_index }) s.tool_blocks;
}

module _ (slot : ℕ) (id : String) (s : Converter) (c : Client) (r : Runs s c)
    (free : IsFree s) where
  with_tool-tools :
      (i : ℕ) (st : ToolBlockState)
      → Maps.get i (with_tool slot id s).tool_blocks ≡ some st
      → ((opened true c).is_open st.block_index ≡ true)
        × (st.block_index < s.content_block_index + 1)
  with_tool-tools i st e = ground (
    arith,
    r.follows.next,
    r.follows.tools i st,
    get-insert slot i (record { id = id; block_index = s.content_block_index }) s.tool_blocks,
    ==_iff slot i,
  )

  with_tool-apart :
      (i j : ℕ) (st tu : ToolBlockState)
      → Maps.get i (with_tool slot id s).tool_blocks ≡ some st
      → Maps.get j (with_tool slot id s).tool_blocks ≡ some tu
      → st.block_index ≡ tu.block_index
      → i ≡ j
  with_tool-apart i j st tu e f g = ground (
    arith,
    r.follows.tools i st,
    r.follows.tools j tu,
    r.follows.apart i j st tu,
    get-insert slot i (record { id = id; block_index = s.content_block_index }) s.tool_blocks,
    get-insert slot j (record { id = id; block_index = s.content_block_index }) s.tool_blocks,
    ==_iff slot i,
    ==_iff slot j,
  )

  with_tool-listed :
      (i : ℕ) (st : ToolBlockState)
      → Maps.get i (with_tool slot id s).tool_blocks ≡ some st
      → contains (push_slot slot s.tool_block_order) i ≡ true
  with_tool-listed i st e = ground (
    arith,
    r.follows.listed i st,
    get-insert slot i (record { id = id; block_index = s.content_block_index }) s.tool_blocks,
    contains-snoc i slot s.tool_block_order,
    ==_iff slot i,
  )

  with_tool-found :
      Maps.get slot (with_tool slot id s).tool_blocks
      ≡ some (record { id = id; block_index = s.content_block_index })
  with_tool-found =
      get-insert slot slot (record { id = id; block_index = s.content_block_index }) s.tool_blocks
      ∙ rw ((==_iff slot slot).1 refl) refl

  -- The new block is the last of all.
  with_tool-IsCovered :
      (i : ℕ) (b : Bool)
      → i == c.next ≡ b
      → (if b then true else c.is_open i) ≡ true
      → (if b then true else c.is_tool i) ≡ true
      → IsCovered (with_tool slot id s).tool_blocks i
  with_tool-IsCovered i true e o t = (
    slot,
    record { id = id; block_index = s.content_block_index },
    with_tool-found,
    ground (arith, r.follows.next, ==_iff i c.next),
  )
  with_tool-IsCovered i false e o t =
      let (j, st, found, le) = r.follows.covered i o t in
      (
        slot,
        record { id = id; block_index = s.content_block_index },
        with_tool-found,
        omega (arith, le, r.follows.tools j st found),
      )

  with_tool-Runs : Runs (with_tool slot id s) (opened true c)
  with_tool-Runs = record {
    follows = record {
      not_ended = r.follows.not_ended;
      next = ground (arith, r.follows.next);
      single = r.follows.single;
      current = λ e. ground arith;
      tools = with_tool-tools;
      apart = with_tool-apart;
      order = push_slot-IsNodup slot s.tool_block_order r.follows.order;
      listed = with_tool-listed;
      others = λ i o t. ground (arith, r.follows.next, r.follows.others i);
      covered = λ i o t. with_tool-IsCovered i (i == c.next) refl o t;
    };
    running = r.running;
    started = r.started;
  }

-- The numbers of the slots are not the client's business.
slots-Runs :
    (s : Converter) (c : Client) (n : ℕ) (slot : Option ℕ)
    → Runs s c
    → Runs (record s { next_tool_slot = n; last_tool_slot = slot }) c
slots-Runs s c n slot r = record {
  follows = record {
    not_ended = r.follows.not_ended;
    next = r.follows.next;
    single = r.follows.single;
    current = r.follows.current;
    tools = r.follows.tools;
    apart = r.follows.apart;
    order = r.follows.order;
    listed = r.follows.listed;
    others = r.follows.others;
    covered = r.follows.covered;
  };
  running = r.running;
  started = r.started;
}

Keeps-open_tool : (slot : ℕ) (id name : String) → Keeps IsFree (open_tool slot id name) IsFree
unfolding open_tool
Keeps-open_tool slot id name = record {
  at = λ s c r p. (
    opened true c,
    feed_one c _ _ (
        receive-block_start c s.content_block_index
          (("type", string "tool_use")
            ∷ ("id", string id)
            ∷ ("name", string name)
            ∷ ("input", json [])
            ∷ [])
          r.running (ground (arith, r.follows.next))),
    with_tool-Runs slot id s c r p,
    p,
  );
}

-- The step that `start_call` takes for a new block.
abbrev open_call : ℕ → Option String → Value → Step
open_call slot tc_id tc s = let (id, s') = block_id tc_id s in open_tool slot id (call_name tc) s'

Keeps-open_call :
    (slot : ℕ) (tc_id : Option String) (tc : Value) → Keeps IsFree (open_call slot tc_id tc) IsFree
Keeps-open_call slot (some id) tc = Keeps-open_tool slot id (call_name tc)
Keeps-open_call slot none tc = record {
  at = λ s c r p.
      (Keeps-open_tool slot (block_id none s).0 (call_name tc)).at _ c
        (slots-Runs s c (s.next_tool_slot + 1) s.last_tool_slot r) p;
}

Keeps-start_call :
    (slot : ℕ) (tc_id : Option String) (tc : Value) → Keeps IsFree (start_call slot tc_id tc) IsFree
unfolding start_call
Keeps-start_call slot tc_id tc = record {
  at =
      (Keeps-split (λ s. is_new_call tc_id (Maps.get slot s.tool_blocks)) (open_call slot tc_id tc)
        skip (record { at = λ s c r p. (Keeps-open_call slot tc_id tc).at s c r p.0 })
        (record { at = λ s c r p. (c, unfold feed in refl, r, p.0) })).at;
}

-- The argument delta of a slot names a block that is open.
arguments_at-fed :
    (s : Converter) (c : Client) (slot : ℕ) (args : String) (st : Option ToolBlockState)
    → Runs s c
    → Maps.get slot s.tool_blocks ≡ st
    → feed c (arguments_at st args) ≡ some c
unfolding feed
arguments_at-fed s c slot args none r e = refl
arguments_at-fed s c slot args (some st) r e = feed_one c c _ (
    receive-block_delta c st.block_index
      (("type", string "input_json_delta") ∷ ("partial_json", string args) ∷ []) r.running
      (r.follows.tools slot st e).0)

Keeps-push_fragment :
    (slot : ℕ) (fragment : Option String) → Keeps IsFree (push_fragment slot fragment) IsFree
Keeps-push_fragment slot none = Keeps-skip
Keeps-push_fragment slot (some args) =
    Keeps-if (args == "") skip (λ s. (arguments_at (Maps.get slot s.tool_blocks) args, s))
      Keeps-skip (record { at = λ s c r p. (c, arguments_at-fed s c slot args _ r refl, r, p) })

Keeps-push_arguments : (slot : ℕ) (tc : Value) → Keeps IsFree (push_arguments slot tc) IsFree
unfolding push_arguments
Keeps-push_arguments slot tc =
    Keeps-push_fragment slot (and_then (Json.get "function" tc) (get_str "arguments"))

-- Resolving a slot only counts slots.
slot_or_next-Runs :
    (found : Option ℕ) (s : Converter) (c : Client) (slot : ℕ)
    → Runs s c
    → IsFree s
    → Runs (record (slot_or_next found s).1 { last_tool_slot = some slot }) c
      × IsFree (slot_or_next found s).1
slot_or_next-Runs (some i) s c slot r p = (slots-Runs s c s.next_tool_slot (some slot) r, p)
slot_or_next-Runs none s c slot r p = (slots-Runs s c (s.next_tool_slot + 1) (some slot) r, p)

resolve_slot-Runs :
    (index : Option ℕ) (id : Option String) (s : Converter) (c : Client) (slot : ℕ)
    → Runs s c
    → IsFree s
    → Runs (record (resolve_slot index id s).1 { last_tool_slot = some slot }) c
      × IsFree (resolve_slot index id s).1
unfolding resolve_slot
resolve_slot-Runs (some i) id s c slot r p = (slots-Runs s c s.next_tool_slot (some slot) r, p)
resolve_slot-Runs none (some id) s c slot r p =
    slot_or_next-Runs (slot_of_id id s.tool_blocks) s c slot r p
resolve_slot-Runs none none s c slot r p = (slots-Runs s c s.next_tool_slot (some slot) r, p)

Keeps-tool_call : (tc : Value) → Keeps IsFree (tool_call tc) IsFree
unfolding tool_call
Keeps-tool_call tc = record {
  at = λ s c r p.
      let (slot, s') = resolve_slot (get_u64 "index" tc) (call_id tc) s in
      let (r', p') = resolve_slot-Runs (get_u64 "index" tc) (call_id tc) s c slot r p in
      (Keeps-then (start_call slot (call_id tc) tc) (push_arguments slot tc)
          (Keeps-start_call slot (call_id tc) tc) (Keeps-push_arguments slot tc)).at
        _ c r' p';
}

Keeps-tool_calls : (tcs : List Value) → Keeps IsFree (tool_calls tcs) IsFree
unfolding tool_calls
Keeps-tool_calls [] = Keeps-skip
Keeps-tool_calls (tc ∷ tcs) = Keeps-then _ _ (Keeps-tool_call tc) (Keeps-tool_calls tcs)

pub Keeps-on_tool_calls : (tcs : Option (List Value)) → Keeps Any (on_tool_calls tcs) Any
unfolding on_tool_calls
Keeps-on_tool_calls none = Keeps-skip
Keeps-on_tool_calls (some tcs) =
    Keeps-then _ _ Keeps-stop_thinking
      (Keeps-then _ _ Keeps-stop_text (Keeps-to_any _ (Keeps-tool_calls tcs)))
