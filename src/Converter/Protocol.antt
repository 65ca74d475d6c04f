-- ===== src/Converter/Protocol.antt =====
-- The steps on text and thinking blocks keep the client following.
use aperture_router.Json.{Value}
use aperture_router.Converter.{json, count_token}
use aperture_router.Prelude.{
  ◌==◌, if◌then◌else◌, ℕ, ◌+◌, ◌≡◌, refl, String, Bool, true, false, ◌&&◌, ◌||◌, some, List, [],
  ◌∷◌, arith, ==_iff, nat_eq, Bool-cases, inl, inr,
}
use aperture_router.Converter.{
  SseEventData, Converter, stop_thinking, stop_text, block_stop, block_start, block_delta,
}
use aperture_router.Converter.Monitor.{is_tool_use, Phase, Client, opened, closed, feed, receive}
use aperture_router.Converter.Relation.{IsCovered, busy, Runs, Keeps, Any, HasNoThinking, IsFree}

pub feed_one : (c d : Client) (e : SseEventData) → receive c e ≡ some d → feed c (e ∷ []) ≡ some d
unfolding feed
feed_one c d e h = rw h

pub receive-block_stop :
    (c : Client) (index : ℕ)
    → c.phase ≡ Phase.running
    → c.is_open index ≡ true
    → receive c (block_stop index) ≡ some (closed index c)
unfolding receive
receive-block_stop c index p o = rw (p, o)

pub receive-block_delta :
    (c : Client) (index : ℕ) (fields : List (String × Value))
    → c.phase ≡ Phase.running
    → c.is_open index ≡ true
    → receive c (block_delta index fields) ≡ some c
unfolding receive
receive-block_delta c index fields p o = rw (p, o)

pub receive-block_start :
    (c : Client) (index : ℕ) (fields : List (String × Value))
    → c.phase ≡ Phase.running
    → index ≡ c.next
    → receive c (block_start index fields) ≡ some (opened (is_tool_use (some (json fields))) c)
unfolding receive
receive-block_start c index fields p e = rw (p, (==_iff index c.next).1 e)

-- The state behind the stop of the block that is open at the index.
abbrev past_block : Bool → Bool → Converter → Converter
past_block text thinking s = record s {
  text_block_open = text;
  thinking_block_open = thinking;
  content_block_index = s.content_block_index + 1;
}

module _ (s : Converter) (c : Client) (r : Runs s c) where
  past_block-Runs :
      (text thinking : Bool)
      → busy s ≡ true
      → text ≡ false
      → thinking ≡ false
      → Runs (past_block text thinking s) (closed s.content_block_index c)
  past_block-Runs text thinking b p q = record {
    follows = record {
      not_ended = r.follows.not_ended;
      next = rw (p, q) (ground (arith, r.follows.next));
      single = rw p refl;
      current = λ e. absurd (cc (rw (p, q) at e));
      tools = λ slot st e. ground (arith, r.follows.tools slot st e);
      apart = r.follows.apart;
      order = r.follows.order;
      listed = r.follows.listed;
      others = λ i o t. absurd (ground (arith, r.follows.others i));
      covered = λ i o t. r.follows.covered i (ground arith) t;
    };
    running = r.running;
    started = r.started;
  }

  stop-Runs :
      (text thinking : Bool)
      → busy s ≡ true
      → text ≡ false
      → thinking ≡ false
      → (d : Client) × (feed c (block_stop s.content_block_index ∷ []) ≡ some d)
        × Runs (past_block text thinking s) d
  stop-Runs text thinking b p q = (
    closed s.content_block_index c,
    feed_one c _ _ (receive-block_stop c s.content_block_index r.running (r.follows.current b)),
    past_block-Runs text thinking b p q,
  )

  -- A delta changes only the token counts.
  pub delta-Runs :
      (fields : List (String × Value))
      → busy s ≡ true
      → (d : Client) × (feed c (block_delta s.content_block_index fields ∷ []) ≡ some d)
        × Runs (count_token s) d
  delta-Runs fields b = (
    c,
    feed_one c _ _
        (receive-block_delta c s.content_block_index fields r.running (r.follows.current b)),
    record {
      follows = record {
        not_ended = r.follows.not_ended;
        next = r.follows.next;
        single = r.follows.single;
        current = r.follows.current;
        tools = r.follows.tools;
        apart = r.follows.apart;
        order = r.follows.order;
        listed = r.follows.listed;
        others = r.follows.others;
        covered = r.follows.covered;
      };
      running = r.running;
      started = r.started;
    },
  )

  start-IsCovered :
      (i : ℕ) {tool : Bool}
      → tool ≡ false
      → (b : Bool) → i == c.next ≡ b
      → (if b then true else c.is_open i) ≡ true
      → (if b then tool else c.is_tool i) ≡ true
      → IsCovered s.tool_blocks i
  start-IsCovered i k true e o t = absurd (cc (k, t))
  start-IsCovered i k false e o t = r.follows.covered i o t

  -- A text or thinking block starts where none is open.
  pub start-Runs :
      (fields : List (String × Value)) (text thinking : Bool)
      → IsFree s
      → text || thinking ≡ true
      → text && thinking ≡ false
      → is_tool_use (some (json fields)) ≡ false
      → (d : Client) × (feed c (block_start s.content_block_index fields ∷ []) ≡ some d)
        × Runs (record s { text_block_open = text; thinking_block_open = thinking }) d
  start-Runs fields text thinking (p, q) b n k = (
    opened (is_tool_use (some (json fields))) c,
    feed_one c _ _ (
        receive-block_start c s.content_block_index fields r.running
          (ground (arith, r.follows.next))),
    record {
      follows = record {
        not_ended = r.follows.not_ended;
        next = ground (arith, r.follows.next);
        single = n;
        current = λ e. ground (arith, r.follows.next);
        tools = λ slot st e. ground (arith, r.follows.tools slot st e);
        apart = r.follows.apart;
        order = r.follows.order;
        listed = r.follows.listed;
        others = λ i o t. ground (arith, r.follows.next, r.follows.others i);
        covered = λ i o t. start-IsCovered i k (i == c.next) refl o t;
      };
      running = r.running;
      started = r.started;
    },
  )

pub stop_thinking_on :
    (s : Converter)
    → s.thinking_block_open ≡ true
    → stop_thinking s
      ≡ (block_stop s.content_block_index ∷ [], past_block s.text_block_open false s)
unfolding stop_thinking
stop_thinking_on s e = ground arith

pub stop_thinking_off : (s : Converter) → s.thinking_block_open ≡ false → stop_thinking s ≡ ([], s)
unfolding stop_thinking
stop_thinking_off s e = ground arith

pub stop_text_on :
    (s : Converter)
    → s.text_block_open ≡ true
    → stop_text s
      ≡ (block_stop s.content_block_index ∷ [], past_block false s.thinking_block_open s)
unfolding stop_text
stop_text_on s e = ground arith

pub stop_text_off : (s : Converter) → s.text_block_open ≡ false → stop_text s ≡ ([], s)
unfolding stop_text
stop_text_off s e = ground arith

pub Keeps-stop_thinking : Keeps Any stop_thinking HasNoThinking
Keeps-stop_thinking = record {
  at = λ s c r p. elim (Bool-cases s.thinking_block_open) [
    | inr off ↦ rw (stop_thinking_off s off) (c, unfold feed in refl, r, off)
    | inl on ↦
        let (d, fed, r') =
          stop-Runs s c r s.text_block_open false (ground arith) (ground (arith, r.follows.single))
            refl in
        rw (stop_thinking_on s on) (d, fed, r', refl)
  ];
}

pub Keeps-stop_text : Keeps HasNoThinking stop_text IsFree
Keeps-stop_text = record {
  at = λ s c r p. elim (Bool-cases s.text_block_open) [
    | inr off ↦ rw (stop_text_off s off) (c, unfold feed in refl, r, (off, p))
    | inl on ↦
        let (d, fed, r') = stop-Runs s c r false s.thinking_block_open (ground arith) refl p in
        rw (stop_text_on s on) (d, fed, r', (refl, p))
  ];
}
