-- ===== src/Converter/Session.antt =====
-- Whole streams: what `process_openai_chunk` and `close_stream` push is a message that the client
-- takes.
use aperture_router.Maps
use aperture_router.Prelude.{
  ◌%◌, ◌^◌, Bool-cases, ◌≡◌, refl, ◌∙◌, ℕ, String, Bool, true, false, none, some, Option, ◌&&◌,
  arith, List, not, if◌then◌else◌, ◌==◌, nat_eq, string_eq, [], ◌∷◌, and_then, inl, inr,
}
use aperture_router.Json.{get_u64, Value, get, get_str, get_array}
use aperture_router.Converter.{
  new, Converter, Step, skip, ◌then◌, close_with_stop_reason, close_stream, message_start,
}
use aperture_router.Converter.Chunk.{
  read_output, read_input, start_message, read_usage, on_delta, on_finish, choice_of,
  process_openai_chunk, get_reasoning,
}
use aperture_router.Converter.Monitor.{Phase, feed, Client, idle, feed-append, receive}
use aperture_router.Converter.Relation.{
  Follows, Runs, Keeps, Any, Keeps-then, Keeps-skip, Keeps-silent,
}
use aperture_router.Converter.Contents.{Keeps-on_reasoning, Keeps-on_content}
use aperture_router.Converter.Calls.{Keeps-on_tool_calls}
use aperture_router.Converter.Closing.{IsDone, IsSettled, close_with_stop_reason-fed}

-- A list of parsed chunks, in their order.
unfoldable pub process_chunks : List Value → Step
process_chunks [] = skip
process_chunks (v ∷ vs) = process_openai_chunk v then process_chunks vs

-- The finish reason of a chunk, if it is one that closes the message.
abbrev pub closes : Option String → Bool
closes none = false
closes (some reason) = not (reason == "null") && not (reason == "")

abbrev pub is_last : Value → Bool
is_last v = closes (and_then (choice_of v) (get_str "finish_reason"))

-- Before the first chunk the client waits; then it runs.
abbrev IsReady : Converter → Client → Type 0
IsReady s c = Follows s c × (c.phase ≡ (if s.message_started then Phase.running else Phase.waiting))

start_message_on : (s : Converter) → s.message_started ≡ true → start_message s ≡ ([], s)
unfolding start_message
start_message_on s e = ground arith

start_message_off :
    (s : Converter)
    → s.message_started ≡ false
    → start_message s ≡ (message_start s ∷ [], record s { message_started = true })
unfolding start_message
start_message_off s e = ground arith

feed-message_start :
    (s : Converter) (c : Client)
    → c.phase ≡ Phase.waiting
    → feed c (message_start s ∷ []) ≡ some (record c { phase = Phase.running })
unfolding feed receive
feed-message_start s c p = rw p refl

started-Runs :
    (s : Converter) (c : Client)
    → Follows s c
    → Runs (record s { message_started = true }) (record c { phase = Phase.running })
started-Runs s c f = record {
  follows = record {
    not_ended = f.not_ended;
    next = f.next;
    single = f.single;
    current = f.current;
    tools = f.tools;
    apart = f.apart;
    order = f.order;
    listed = f.listed;
    others = f.others;
    covered = f.covered;
  };
  running = refl;
  started = refl;
}

start_message-fed :
    (s : Converter) (c : Client)
    → IsReady s c
    → (d : Client) × (feed c (start_message s).0 ≡ some d) × Runs (start_message s).1 d
start_message-fed s c (f, p) = elim (Bool-cases s.message_started) [
  | inl on ↦
      rw (start_message_on s on)
        (c, unfold feed in refl, record { follows = f; running = ground arith; started = on })
  | inr off ↦ rw (start_message_off s off) (
    record c { phase = Phase.running },
    feed-message_start s c (ground arith),
    started-Runs s c f,
  )
]

usage-Runs :
    (s : Converter) (c : Client) (n m : ℕ) (b : Bool)
    → Runs s c
    → Runs (record s { input_tokens = n; output_tokens = m; output_tokens_from_upstream = b }) c
usage-Runs s c n m b r = record {
  follows = record {
    not_ended = r.follows.not_ended;
    next = r.follows.next;
    single = r.follows.single;
    current = r.follows.current;
    tools = r.follows.tools;
    apart = r.follows.apart;
    order = r.follows.order;
    listed = r.follows.listed;
    others = r.follows.others;
    covered = r.follows.covered;
  };
  running = r.running;
  started = r.started;
}

read_input-Runs : (n : Option ℕ) (s : Converter) (c : Client) → Runs s c → Runs (read_input n s) c
read_input-Runs none s c r = r
read_input-Runs (some n) s c r =
    usage-Runs s c (n % 2 ^ 32) s.output_tokens s.output_tokens_from_upstream r

read_output-Runs : (n : Option ℕ) (s : Converter) (c : Client) → Runs s c → Runs (read_output n s) c
read_output-Runs none s c r = r
read_output-Runs (some n) s c r = usage-Runs s c s.input_tokens (n % 2 ^ 32) true r

Keeps-read_usage : (usage : Option Value) → Keeps Any (read_usage usage) Any
unfolding read_usage
Keeps-read_usage none = Keeps-skip
Keeps-read_usage (some usage) = Keeps-silent (read_usage (some usage)) (λ s c r p. (
  refl,
  read_output-Runs (get_u64 "completion_tokens" usage) _ c
      (read_input-Runs (get_u64 "prompt_tokens" usage) s c r),
  tt,
))

Keeps-on_delta : (delta : Option Value) → Keeps Any (on_delta delta) Any
unfolding on_delta
Keeps-on_delta none = Keeps-skip
Keeps-on_delta (some delta) = Keeps-then _ _ (Keeps-on_reasoning (get_reasoning delta)) (
    Keeps-then _ _ (Keeps-on_content (get_str "content" delta))
      (Keeps-on_tool_calls (get_array "tool_calls" delta)))

-- What a chunk leaves behind: the end, or a message that runs on.
abbrev Outcome : Bool → Converter → Client → Type 0
Outcome true s c = IsDone s c
Outcome false s c = Runs s c

finish_if-fed :
    (b : Bool) (reason : String) (s : Converter) (c : Client)
    → Runs s c
    → (d : Client) × (feed c ((if b then close_with_stop_reason reason else skip) s).0 ≡ some d)
      × Outcome b ((if b then close_with_stop_reason reason else skip) s).1 d
finish_if-fed true reason s c r = close_with_stop_reason-fed reason s c r
finish_if-fed false reason s c r = (c, unfold feed in refl, r)

on_finish-fed :
    (reason : Option String) (s : Converter) (c : Client)
    → Runs s c
    → (d : Client) × (feed c (on_finish reason s).0 ≡ some d)
      × Outcome (closes reason) (on_finish reason s).1 d
unfolding on_finish
on_finish-fed none s c r = (c, unfold feed in refl, r)
on_finish-fed (some reason) s c r = finish_if-fed (closes (some reason)) reason s c r

process_openai_chunk-fed :
    (v : Value) (s : Converter) (c : Client)
    → IsReady s c
    → (d : Client) × (feed c (process_openai_chunk v s).0 ≡ some d)
      × Outcome (is_last v) (process_openai_chunk v s).1 d
unfolding process_openai_chunk ◌then◌
process_openai_chunk-fed v s c ready =
    let (d, fed0, r0) = start_message-fed s c ready in
    let (e, fed1, r1, u1) = (Keeps-read_usage (get "usage" v)).at _ d r0 tt in
    let (f, fed2, r2, u2) = (Keeps-on_delta (and_then (choice_of v) (get "delta"))).at _ e r1 tt in
    let (g, fed3, o) = on_finish-fed (and_then (choice_of v) (get_str "finish_reason")) _ f r2 in
    (g, feed-append c d _ _ fed0 ∙ feed-append d e _ _ fed1 ∙ feed-append e f _ _ fed2 ∙ fed3, o)

-- No chunk of the list closes the message.
abbrev pub IsUnfinished : List Value → Type 0
IsUnfinished [] = Unit
IsUnfinished (v ∷ vs) = (is_last v ≡ false) × IsUnfinished vs

Runs-IsReady : (s : Converter) (c : Client) → Runs s c → IsReady s c
Runs-IsReady s c r = (r.follows, rw r.started r.running)

process_next-fed : (b : Bool) (s : Converter) (c : Client) → Outcome b s c → b ≡ false → IsReady s c
process_next-fed true s c o e = absurd (cc e)
process_next-fed false s c o e = Runs-IsReady s c o

process_chunks-fed :
    (vs : List Value) (s : Converter) (c : Client)
    → IsUnfinished vs
    → IsReady s c
    → (d : Client) × (feed c (process_chunks vs s).0 ≡ some d) × IsReady (process_chunks vs s).1 d
unfolding process_chunks ◌then◌
process_chunks-fed [] s c u ready = (c, unfold feed in refl, ready)
process_chunks-fed (v ∷ vs) s c (last, u) ready =
    let (d, fed0, o) = process_openai_chunk-fed v s c ready in
    let (e, fed1, ready') =
      process_chunks-fed vs (process_openai_chunk v s).1 d u
        (process_next-fed (is_last v) _ d o last) in
    (e, feed-append c d _ _ fed0 ∙ fed1, ready')

close_stream_started :
    (s : Converter) → s.message_started ≡ true → close_stream s ≡ close_with_stop_reason "stop" s
unfolding close_stream
close_stream_started s e = ground arith

close_stream_ended : (s : Converter) → s.message_ended ≡ true → close_stream s ≡ ([], s)
unfolding close_stream close_with_stop_reason
close_stream_ended s e = ground arith

-- `close_stream` behind a chunk: the end is pushed if it has not been yet.
close_stream-fed :
    (b : Bool) (s : Converter) (c : Client)
    → Outcome b s c
    → (d : Client) × (feed c (close_stream s).0 ≡ some d)
      × (d.phase ≡ Phase.ended)
      × ((i : ℕ) → IsSettled (close_stream s).1 d i)
close_stream-fed true s c r =
    rw (close_stream_ended s r.flag) (c, unfold feed in refl, r.phase, r.settled)
close_stream-fed false s c r =
    let (d, fed, q) = close_with_stop_reason-fed "stop" s c r in
    rw (close_stream_started s r.started) (d, fed, q.phase, q.settled)

new-IsReady : (msg_id model : String) → IsReady (new msg_id model) idle
unfolding new Maps.get
new-IsReady msg_id model = (
  record {
    not_ended = refl;
    next = refl;
    single = refl;
    current = λ e. absurd (cc e);
    tools = λ slot st e. absurd (cc e);
    apart = λ i j st tu e f g. absurd (cc e);
    order = tt;
    listed = λ slot st e. absurd (cc e);
    others = λ i e. absurd (cc e);
    covered = λ i e. absurd (cc e);
  },
  refl,
)

-- Whatever the chunks hold: the events for chunks without a finish reason, one more chunk and the
-- end of the stream are, in that order, events that the client takes: one message, numbered blocks,
-- deltas and stops only of blocks that are open, and nothing but message_stop behind the
-- message_delta. They end the message, and then every block that was started has been stopped, but
-- for a tool call that no slot of the converter holds any more while some slot has a later one.
pub stream-IsTaken :
    (msg_id model : String) (vs : List Value) (v : Value)
    → IsUnfinished vs
    → (d : Client) × (feed idle
          ((process_chunks vs then process_openai_chunk v then close_stream) (new msg_id model)).0
        ≡ some d)
      × (d.phase ≡ Phase.ended)
      × ((i : ℕ)
          → IsSettled
              ((process_chunks vs then process_openai_chunk v then close_stream)
                (new msg_id model)).1
              d
              i)
unfolding ◌then◌
stream-IsTaken msg_id model vs v u =
    let (c, fed0, ready) =
      process_chunks-fed vs (new msg_id model) idle u (new-IsReady msg_id model) in
    let (d, fed1, o) = process_openai_chunk-fed v _ c ready in
    let (e, fed2, p, settled) = close_stream-fed (is_last v) _ d o in
    (e, feed-append idle c _ _ fed0 ∙ feed-append c d _ _ fed1 ∙ fed2, p, settled)
