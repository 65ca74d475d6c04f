-- ===== src/Converter/Closing.antt =====
-- Closing the message: every open block is stopped once, and the client sees the end.
use aperture_router.Prelude.{
  ◌<◌, ◌==◌, Bool-cases, ◌⊎◌, ◌≡◌, refl, ◌∙◌, ℕ, String, true, false, none, some, arith, List,
  ==_iff, nat_eq, [], ◌∷◌, ◌++◌, contains, Option-cases, inl, inr,
}
use aperture_router.Maps
use aperture_router.Maps.{Map}
use aperture_router.Converter.{
  SseEventData, ToolBlockState, Converter, ◌then◌, stop_text, stop_thinking, stop_tools,
  close_open_blocks, close_with_stop_reason, finish, block_stop, message_delta, message_stop,
  stop_reason_of,
}
use aperture_router.Converter.Monitor.{Phase, feed, Client, closed, feed-append, receive}
use aperture_router.Converter.Relation.{IsCovered, busy, Follows, IsNodup, Runs}
use aperture_router.Converter.Protocol.{Keeps-stop_thinking, Keeps-stop_text, receive-block_stop}

-- The block is the block of some slot.
abbrev pub IsHeld : Converter → ℕ → Type 0
IsHeld s i =
    (slot : ℕ) × (st : ToolBlockState) × (Maps.get slot s.tool_blocks ≡ some st)
    × (st.block_index ≡ i)

-- A slot has a later block.
abbrev pub IsOvertaken : Converter → ℕ → Type 0
IsOvertaken s i =
    (slot : ℕ) × (st : ToolBlockState) × (Maps.get slot s.tool_blocks ≡ some st)
    × (i < st.block_index)

-- The block is stopped, or it is a tool call that no slot holds any more, while some slot has a
-- later one.
abbrev pub IsSettled : Converter → Client → ℕ → Type 0
IsSettled s c i = (c.is_open i ≡ false) ⊎ ((c.is_tool i ≡ true) × ¬ IsHeld s i × IsOvertaken s i)

pub record IsDone (s : Converter) (c : Client) : Type 0 where
  pub flag : s.message_ended ≡ true
  pub phase : c.phase ≡ Phase.ended
  pub settled : (i : ℕ) → IsSettled s c i

module _ (blocks : Map ℕ ToolBlockState)
    (apart : (i j : ℕ) (st tu : ToolBlockState)
      → Maps.get i blocks ≡ some st
      → Maps.get j blocks ≡ some tu
      → st.block_index ≡ tu.block_index
      → i ≡ j) where
  abbrev IsOpenAt : List ℕ → Client → Type 0
  IsOpenAt order c =
      (slot : ℕ) (st : ToolBlockState)
      → contains order slot ≡ true
      → Maps.get slot blocks ≡ some st
      → c.is_open st.block_index ≡ true

  -- From `c` to `d`: the tool blocks of the order are stopped, and no other block is opened or has
  -- become another kind.
  record AreStopped (order : List ℕ) (c d : Client) : Type 0 where
    running : d.phase ≡ Phase.running
    stopped :
        (slot : ℕ) (st : ToolBlockState)
        → contains order slot ≡ true
        → Maps.get slot blocks ≡ some st
        → d.is_open st.block_index ≡ false
    still : (i : ℕ) → d.is_open i ≡ true → c.is_open i ≡ true
    kinds : (i : ℕ) → d.is_tool i ≡ c.is_tool i

  AreStopped-closed :
      (slot : ℕ) (st : ToolBlockState) (order : List ℕ) (c d : Client)
      → Maps.get slot blocks ≡ some st
      → AreStopped order (closed st.block_index c) d
      → AreStopped (slot ∷ order) c d
  AreStopped-closed slot st order c d e a = record {
    running = a.running;
    stopped = λ j tu h f. elim (Bool-cases (slot == j)) [
      | inr other ↦ a.stopped j tu (ground arith) f
      | inl same ↦ elim (Bool-cases (d.is_open tu.block_index)) [
        | inr off ↦ off
        | inl on ↦ absurd (ground (arith, a.still tu.block_index on, ==_iff slot j, e, f))
      ]
    ];
    still = λ i o. ground (arith, a.still i o);
    kinds = a.kinds;
  }

  IsOpenAt-closed :
      (slot : ℕ) (st : ToolBlockState) (order : List ℕ) (c : Client)
      → contains order slot ≡ false
      → Maps.get slot blocks ≡ some st
      → IsOpenAt (slot ∷ order) c
      → IsOpenAt order (closed st.block_index c)
  IsOpenAt-closed slot st order c fresh e o j tu h f =
      ground (arith, o j tu, apart slot j st tu e f)

  AreStopped-missing :
      (slot : ℕ) (order : List ℕ) (c d : Client)
      → Maps.get slot blocks ≡ none
      → AreStopped order c d
      → AreStopped (slot ∷ order) c d
  AreStopped-missing slot order c d e a = record {
    running = a.running;
    stopped = λ j tu h f. elim (Bool-cases (slot == j)) [
      | inr other ↦ a.stopped j tu (ground arith) f
      | inl same ↦ absurd (ground (arith, ==_iff slot j, e, f))
    ];
    still = a.still;
    kinds = a.kinds;
  }

  stop_tools_missing :
      (slot : ℕ) (order : List ℕ)
      → Maps.get slot blocks ≡ none
      → stop_tools blocks (slot ∷ order) ≡ stop_tools blocks order
  unfolding stop_tools
  stop_tools_missing slot order e = ground arith

  stop_tools_found :
      (slot : ℕ) (order : List ℕ) (st : ToolBlockState)
      → Maps.get slot blocks ≡ some st
      → stop_tools blocks (slot ∷ order) ≡ block_stop st.block_index ∷ stop_tools blocks order
  unfolding stop_tools
  stop_tools_found slot order st e = ground arith

  feed_stop :
      (c : Client) (index : ℕ) (es : List SseEventData)
      → c.phase ≡ Phase.running
      → c.is_open index ≡ true
      → feed c (block_stop index ∷ es) ≡ feed (closed index c) es
  unfolding feed
  feed_stop c index es p o = rw (receive-block_stop c index p o) refl

  stop_tools-fed :
      (order : List ℕ) (c : Client)
      → IsNodup order
      → c.phase ≡ Phase.running
      → IsOpenAt order c
      → (d : Client) × (feed c (stop_tools blocks order) ≡ some d) × AreStopped order c d
  stop_tools-fed [] c n p o = (
    c,
    unfold feed stop_tools in refl,
    record { running = p; stopped = λ j tu h. absurd (cc h); still = λ i o. o; kinds = λ i. refl },
  )
  stop_tools-fed (slot ∷ order) c (a, n) p o = elim (Option-cases (Maps.get slot blocks)) [
    | inl missing ↦
        let (d, fed, a') = stop_tools-fed order c n p (λ j tu h f. o j tu (ground arith) f) in
        rw (stop_tools_missing slot order missing)
          (d, fed, AreStopped-missing slot order c d missing a')
    | inr (st, found) ↦
        let at_slot = o slot st (ground (arith, ==_iff slot slot)) found in
        let (d, fed, a') =
          stop_tools-fed order (closed st.block_index c) n p
            (IsOpenAt-closed slot st order c a found o) in
        rw
          (
            stop_tools_found slot order st found,
            feed_stop c st.block_index (stop_tools blocks order) p at_slot,
          )
          (d, fed, AreStopped-closed slot st order c d found a')
  ]

abbrev with_end : Converter → Converter
with_end s = record s { message_ended = true }

-- Closing does not look at the flag that is set before it.
close_open_blocks-with_end :
    (s : Converter)
    → ((close_open_blocks (with_end s)).0 ≡ (close_open_blocks s).0)
      × ((close_open_blocks (with_end s)).1.message_ended ≡ true)
      × ((close_open_blocks (with_end s)).1.tool_blocks ≡ (close_open_blocks s).1.tool_blocks)
unfolding close_open_blocks stop_thinking stop_text ◌then◌
close_open_blocks-with_end s = ground arith

is_tool_of_open :
    (s : Converter) (c : Client) (i : ℕ)
    → Follows s c
    → busy s ≡ false
    → c.is_open i ≡ true
    → c.is_tool i ≡ true
is_tool_of_open s c i f b o = elim (Bool-cases (c.is_tool i)) [
  | inl tool ↦ tool
  | inr other ↦ absurd (ground (arith, f.others i o other))
]

covered-IsOvertaken :
    (s : Converter) (i : ℕ) → ¬ IsHeld s i → IsCovered s.tool_blocks i → IsOvertaken s i
covered-IsOvertaken s i lost (slot, st, found, le) = elim (Bool-cases (st.block_index == i)) [
  | inl same ↦ absurd (lost (slot, st, found, (==_iff st.block_index i).0 same))
  | inr other ↦ (slot, st, found, ground (arith, le, ==_iff st.block_index i))
]

-- Behind the stops of a state without an open text or thinking block.
AreStopped-IsSettled :
    (s : Converter) (c d : Client) (f : Follows s c)
    → busy s ≡ false
    → AreStopped s.tool_blocks f.apart s.tool_block_order c d
    → (i : ℕ) → IsSettled s d i
AreStopped-IsSettled s c d f b a i = elim (Bool-cases (d.is_open i)) [
  | inr off ↦ inl off
  | inl on ↦
      let tool = is_tool_of_open s c i f b (a.still i on) in
      let lost : ¬ IsHeld s i =
        λ (slot, st, e, at_i). ground (arith, at_i, on, a.stopped slot st (f.listed slot st e) e) in
      inr (a.kinds i ∙ tool, lost, covered-IsOvertaken s i lost (f.covered i (a.still i on) tool))
]

close_open_blocks-fed :
    (s : Converter) (c : Client)
    → Runs s c
    → (d : Client) × (feed c (close_open_blocks s).0 ≡ some d)
      × (d.phase ≡ Phase.running)
      × ((i : ℕ) → IsSettled (close_open_blocks s).1 d i)
unfolding close_open_blocks ◌then◌
close_open_blocks-fed s c r =
    let (d, fed, r', p) = Keeps-stop_thinking.at s c r tt in
    let (e, fed', r'', q) = Keeps-stop_text.at (stop_thinking s).1 d r' p in
    let (f, fed'', stops) =
      stop_tools-fed _ r''.follows.apart _ e r''.follows.order r''.running
        (λ slot st h g. (r''.follows.tools slot st g).0) in
    (
      f,
      feed-append c d _ _ fed ∙ feed-append d e _ _ fed' ∙ fed'',
      stops.running,
      AreStopped-IsSettled _ e f r''.follows (ground (arith, q)) stops,
    )

-- Being settled looks at the slots of the converter and the blocks of the client only.
IsSettled-same :
    (s t : Converter) (c : Client) (i : ℕ)
    → s.tool_blocks ≡ t.tool_blocks
    → IsSettled t c i
    → IsSettled s (record c { phase = Phase.ended }) i
IsSettled-same s t c i e (inl off) = inl off
IsSettled-same s t c i e (inr (tool, lost, (slot, st, f, g))) =
    inr (tool, λ (j, tu, h, k). lost (j, tu, rw (← e) h, k), (slot, st, rw e f, g))

finish-fed :
    (reason : String) (s : Converter) (c : Client)
    → c.phase ≡ Phase.running
    → feed c (finish reason s).0 ≡ some (record c { phase = Phase.ended })
unfolding feed receive finish
finish-fed reason s c p = rw p refl

-- Closing: the events of the open blocks' stops, then the end.
closing_run :
    (reason : String) (s : Converter)
    → s.message_ended ≡ false
    → ((close_with_stop_reason reason s).0
        ≡ (close_open_blocks s).0
          ++ message_delta (stop_reason_of reason) (close_open_blocks (with_end s)).1.output_tokens
            ∷ message_stop
            ∷ [])
      × ((close_with_stop_reason reason s).1.message_ended ≡ true)
      × ((close_with_stop_reason reason s).1.tool_blocks ≡ (close_open_blocks s).1.tool_blocks)
unfolding close_with_stop_reason ◌then◌ finish
closing_run reason s e = ground (arith, close_open_blocks-with_end s)

pub close_with_stop_reason-fed :
    (reason : String) (s : Converter) (c : Client)
    → Runs s c
    → (d : Client) × (feed c (close_with_stop_reason reason s).0 ≡ some d)
      × IsDone (close_with_stop_reason reason s).1 d
unfolding finish
close_with_stop_reason-fed reason s c r =
    let (d, fed, p, settled) = close_open_blocks-fed s c r in
    let fed' = finish-fed reason (close_open_blocks (with_end s)).1 d p in
    let (events, flag, same) = closing_run reason s r.follows.not_ended in
    (
      record d { phase = Phase.ended },
      rw events (feed-append c d _ _ fed ∙ fed'),
      record {
        flag = flag;
        phase = refl;
        settled = λ i.
            IsSettled-same (close_with_stop_reason reason s).1 (close_open_blocks s).1 d i same
              (settled i);
      },
    )
