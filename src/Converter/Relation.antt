-- ===== src/Converter/Relation.antt =====
-- How the converter's state follows what the client has seen, and what it takes for a step to keep
-- that.
use aperture_router.Prelude.{
  ◌≤◌, ℕ, ◌+◌, ◌<◌, ◌≡◌, refl, ◌∙◌, Bool, true, false, ◌&&◌, ◌||◌, some, List, [], ◌∷◌,
  if◌then◌else◌, nat_eq, contains,
}
use aperture_router.Maps
use aperture_router.Maps.{Map}
use aperture_router.Converter.{ToolBlockState, Converter, Step, skip, ◌then◌}
use aperture_router.Converter.Monitor.{Phase, Client, feed, feed-append}

abbrev pub busy : Converter → Bool
busy s = s.text_block_open || s.thinking_block_open

-- No slot stands twice in the order.
abbrev pub IsNodup : List ℕ → Type 0
IsNodup [] = Unit
IsNodup (x ∷ xs) = (contains xs x ≡ false) × IsNodup xs

-- Some slot has a block at this index or a later one.
abbrev pub IsCovered : Map ℕ ToolBlockState → ℕ → Type 0
IsCovered blocks i =
    (slot : ℕ) × (st : ToolBlockState) × (Maps.get slot blocks ≡ some st) × (i ≤ st.block_index)

-- While the message runs: the client's next number is the converter's index, past the block that is
-- open there; the open text or thinking block and every tool block are open for the client; different
-- slots have different blocks, all below the index; every slot with a block stands in the order; and
-- what else is open for the client is a tool call, with the block of some slot at or behind it.
pub record Follows (s : Converter) (c : Client) : Type 0 where
  pub not_ended : s.message_ended ≡ false
  pub next : c.next ≡ (if busy s then s.content_block_index + 1 else s.content_block_index)
  pub single : s.text_block_open && s.thinking_block_open ≡ false
  pub current : busy s ≡ true → c.is_open s.content_block_index ≡ true
  pub tools :
      (slot : ℕ) (st : ToolBlockState)
      → Maps.get slot s.tool_blocks ≡ some st
      → (c.is_open st.block_index ≡ true) × (st.block_index < s.content_block_index)
  pub apart :
      (i j : ℕ) (st tu : ToolBlockState)
      → Maps.get i s.tool_blocks ≡ some st
      → Maps.get j s.tool_blocks ≡ some tu
      → st.block_index ≡ tu.block_index
      → i ≡ j
  pub order : IsNodup s.tool_block_order
  pub listed :
      (slot : ℕ) (st : ToolBlockState)
      → Maps.get slot s.tool_blocks ≡ some st
      → contains s.tool_block_order slot ≡ true
  pub others :
      (i : ℕ)
      → c.is_open i ≡ true
      → c.is_tool i ≡ false
      → (busy s ≡ true) × (i ≡ s.content_block_index)
  pub covered : (i : ℕ) → c.is_open i ≡ true → c.is_tool i ≡ true → IsCovered s.tool_blocks i

pub record Runs (s : Converter) (c : Client) : Type 0 where
  pub follows : Follows s c
  pub running : c.phase ≡ Phase.running
  pub started : s.message_started ≡ true

-- From a state with `P` the client takes all that the step pushes, goes on to follow, and `Q`
-- holds.
pub record Keeps (P : Converter → Type 0) (m : Step) (Q : Converter → Type 0) : Type 0 where
  pub at :
      (s : Converter) (c : Client)
      → Runs s c
      → P s
      → (d : Client) × (feed c (m s).0 ≡ some d) × Runs (m s).1 d × Q (m s).1

abbrev pub Any : Converter → Type 0
Any s = Unit

abbrev pub HasNoThinking : Converter → Type 0
HasNoThinking s = s.thinking_block_open ≡ false

abbrev pub HasThinking : Converter → Type 0
HasThinking s = s.thinking_block_open ≡ true

abbrev pub HasText : Converter → Type 0
HasText s = s.text_block_open ≡ true

abbrev pub IsFree : Converter → Type 0
IsFree s = (s.text_block_open ≡ false) × (s.thinking_block_open ≡ false)

module _ {P Q R : Converter → Type 0} where
  pub Keeps-then : (m n : Step) → Keeps P m Q → Keeps Q n R → Keeps P (m then n) R
  unfolding ◌then◌
  Keeps-then m n km kn = record {
    at = λ s c r p.
        let (d, fed, r', q) = km.at s c r p in
        let (e, fed', r'', t) = kn.at (m s).1 d r' q in
        (e, feed-append c d (m s).0 (n (m s).1).0 fed ∙ fed', r'', t);
  }

module _ {P Q : Converter → Type 0} where
  pub Keeps-if :
      (b : Bool) (m n : Step) → Keeps P m Q → Keeps P n Q → Keeps P (if b then m else n) Q
  Keeps-if true m n km kn = km
  Keeps-if false m n km kn = kn

  -- A step that pushes nothing.
  pub Keeps-silent :
      (m : Step)
      → ((s : Converter) (c : Client)
          → Runs s c
          → P s
          → ((m s).0 ≡ []) × Runs (m s).1 c × Q (m s).1)
      → Keeps P m Q
  Keeps-silent m k = record {
    at = λ s c r p. let (e, r', q) = k s c r p in (c, rw e (unfold feed in refl), r', q);
  }

  pub Keeps-to_any : (m : Step) → Keeps P m Q → Keeps P m Any
  Keeps-to_any m k = record {
    at = λ s c r p. let (d, fed, r', q) = k.at s c r p in (d, fed, r', tt);
  }

module _ {P : Converter → Type 0} where
  pub Keeps-skip : Keeps P skip P
  Keeps-skip = record { at = λ s c r p. (c, unfold feed in refl, r, p) }

-- A step that looks at one flag first.
module _ {P Q : Converter → Type 0} (b : Converter → Bool) (m n : Step) where
  Keeps-split_at :
      (s : Converter) (c : Client)
      → Runs s c
      → P s
      → Keeps (λ t. P t × (b t ≡ true)) m Q
      → Keeps (λ t. P t × (b t ≡ false)) n Q
      → (x : Bool) → b s ≡ x
      → (d : Client) × (feed c (if x then m s else n s).0 ≡ some d)
        × Runs (if x then m s else n s).1 d
        × Q (if x then m s else n s).1
  Keeps-split_at s c r p km kn true e = km.at s c r (p, e)
  Keeps-split_at s c r p km kn false e = kn.at s c r (p, e)

  pub Keeps-split :
      Keeps (λ t. P t × (b t ≡ true)) m Q
      → Keeps (λ t. P t × (b t ≡ false)) n Q
      → Keeps P (λ s. if b s then m s else n s) Q
  Keeps-split km kn = record { at = λ s c r p. Keeps-split_at s c r p km kn (b s) refl }
