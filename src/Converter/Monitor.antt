-- ===== src/Converter/Monitor.antt =====
-- What a client of the Anthropic stream expects, as a machine that reads the events: one message,
-- whose content blocks are numbered from 0 in the order in which they start, and where deltas and
-- stops name a block that is open; behind the message_delta only message_stop may come. It is
-- independent of how the converter keeps its books, and remembers which blocks are tool calls.
use aperture_router.Prelude.{
  ap, Option-cases, inl, inr, ℕ, ◌+◌, ◌≡◌, String, Bool, true, false, Option, none, some, List, [],
  ◌∷◌, ◌++◌, if◌then◌else◌, ◌==◌, string_eq, nat_eq, and_then,
}
use aperture_router.Json.{Value, get_u64, get, get_str}
use aperture_router.Converter.{SseEventData}

pub data Phase : Type 0 where
  waiting running closing ended : Phase

pub record Client : Type 0 where
  pub phase : Phase
  pub next : ℕ
  pub is_open : ℕ → Bool
  pub is_tool : ℕ → Bool

abbrev pub idle : Client
idle = record { phase = Phase.waiting; next = 0; is_open = λ i. false; is_tool = λ i. false }

-- Whether the content block of a start event is a tool call.
abbrev pub is_tool_use : Option Value → Bool
is_tool_use none = false
is_tool_use (some block) = elim (get_str "type" block) [
  | none ↦ false
  | some kind ↦ kind == "tool_use"
]

-- A block with the next number starts.
abbrev pub opened : Bool → Client → Client
opened tool c = record c {
  next = c.next + 1;
  is_open = λ i. if i == c.next then true else c.is_open i;
  is_tool = λ i. if i == c.next then tool else c.is_tool i;
}

abbrev pub closed : ℕ → Client → Client
closed index c = record c { is_open = λ i. if i == index then false else c.is_open i }

abbrev start_at : Client → Bool → Option ℕ → Option Client
start_at c tool none = none
start_at c tool (some index) = if index == c.next then some (opened tool c) else none

abbrev delta_at : Client → Option ℕ → Option Client
delta_at c none = none
delta_at c (some index) = if c.is_open index then some c else none

abbrev stop_at : Client → Option ℕ → Option Client
stop_at c none = none
stop_at c (some index) = if c.is_open index then some (closed index c) else none

abbrev while_running : Client → String → Value → Option Client
while_running c event_type payload =
    if event_type == "content_block_start"
    then start_at c (is_tool_use (get "content_block" payload)) (get_u64 "index" payload)
    else if event_type == "content_block_delta"
    then delta_at c (get_u64 "index" payload)
    else if event_type == "content_block_stop"
    then stop_at c (get_u64 "index" payload)
    else if event_type == "message_delta"
    then some (record c { phase = Phase.closing })
    else none

abbrev in_phase : Phase → Client → SseEventData → Option Client
in_phase Phase.waiting c e =
    if e.event_type == "message_start" then some (record c { phase = Phase.running }) else none
in_phase Phase.running c e = while_running c e.event_type e.payload
in_phase Phase.closing c e =
    if e.event_type == "message_stop" then some (record c { phase = Phase.ended }) else none
in_phase Phase.ended c e = none

-- `none` is an event that the client does not expect.
unfoldable pub receive : Client → SseEventData → Option Client
receive c e = in_phase c.phase c e

unfoldable pub feed : Client → List SseEventData → Option Client
feed c [] = some c
feed c (e ∷ es) = and_then (receive c e) (λ c'. feed c' es)

pub feed-append :
    (c c' : Client) (xs ys : List SseEventData)
    → feed c xs ≡ some c'
    → feed c (xs ++ ys) ≡ feed c' ys
unfolding feed
feed-append c c' [] ys h = let e : c ≡ c' = cc in ap (λ (d : Client). feed d ys) e
feed-append c c' (x ∷ xs) ys h = elim (Option-cases (receive c x)) [
  | inl refused ↦ absurd (cc (rw refused at h))
  | inr (d, taken) ↦ rw taken (feed-append d c' xs ys (rw taken at h))
]
