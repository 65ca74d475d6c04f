-- ===== src/Conversion/Thinking.antt =====
-- Reasoning blocks of an assistant's message leave no trace in the request that goes upstream.
use aperture_router.Prelude.{
  inr, ◌⊎◌, inl, sym, ℕ, ◌+◌, ◌≡◌, refl, arith, String, Bool, true, false, not, ◌&&◌, Option, none,
  some, List, [], ◌∷◌, any, keep, ◌==◌, ==_iff, string_eq, keep-keep, unwrap_or,
}
use aperture_router.Json.{Value, items-to_items, array_of, get_str}
use aperture_router.Conversion.Content.{filter_map, block_type}
use aperture_router.Conversion.Messages.{
  text_block, is_tool_use, keeps_reasoning_out, tool_calls_from, assistant_messages,
  convert_anthropic_message_expanded,
}

reasoning_name : (a b : Bool) → not a && not b ≡ false → (a ≡ true) ⊎ (b ≡ true)
reasoning_name true b h = inl refl
reasoning_name false true h = inr refl
reasoning_name false false h = absurd (cc h)

reasoning_block :
    (b : Value)
    → keeps_reasoning_out b ≡ false
    → (block_type b == "text" ≡ false) × (is_tool_use b ≡ false)
reasoning_block b h = by_type (get_str "type" b) h
  where
    by_type :
        (t : Option String)
        → not (unwrap_or t "" == "thinking") && not (unwrap_or t "" == "redacted_thinking") ≡ false
        → (unwrap_or t "text" == "text" ≡ false) × (unwrap_or t "text" == "tool_use" ≡ false)
    by_type none k = absurd (cc k)
    by_type (some t) k = elim (reasoning_name (t == "thinking") (t == "redacted_thinking") k) [
      | inl e ↦ rw ((==_iff t "thinking").0 e) (refl, refl)
      | inr e ↦ rw ((==_iff t "redacted_thinking").0 e) (refl, refl)
    ]

any_tool_use-keep :
    (bs : List Value) → any is_tool_use (keep keeps_reasoning_out bs) ≡ any is_tool_use bs
any_tool_use-keep [] = refl
any_tool_use-keep (b ∷ bs) = ground (arith, any_tool_use-keep bs, reasoning_block b)

texts-keep :
    (bs : List Value)
    → filter_map text_block (keep keeps_reasoning_out bs) ≡ filter_map text_block bs
unfolding filter_map text_block
texts-keep [] = refl
texts-keep (b ∷ bs) = ground (arith, texts-keep bs, reasoning_block b)

module _ (to_string : Value → String) where
  tool_calls-keep :
      (n : ℕ) (bs : List Value)
      → tool_calls_from to_string n (keep keeps_reasoning_out bs) ≡ tool_calls_from to_string n bs
  unfolding tool_calls_from
  tool_calls-keep n [] = refl
  tool_calls-keep n (b ∷ bs) =
      ground (arith, tool_calls-keep n bs, tool_calls-keep (n + 1) bs, reasoning_block b)

  assistant_messages-keep :
      (bs : List Value)
      → assistant_messages to_string (keep keeps_reasoning_out bs) ≡ assistant_messages to_string bs
  unfolding assistant_messages
  assistant_messages-keep bs =
      rw
        (
          any_tool_use-keep bs,
          texts-keep bs,
          tool_calls-keep 0 bs,
          keep-keep keeps_reasoning_out keeps_reasoning_out bs (λ b h. h),
        )
        refl

  -- The request for an assistant's message with blocks is the one for the blocks without the
  -- thinking and redacted thinking among them: reasoning changes nothing that goes upstream.
  pub reasoning-IsDropped :
      (bs : List Value)
      → convert_anthropic_message_expanded to_string "assistant" (some (array_of bs))
        ≡ convert_anthropic_message_expanded to_string "assistant"
            (some (array_of (keep keeps_reasoning_out bs)))
  unfolding convert_anthropic_message_expanded
  reasoning-IsDropped bs =
      rw (items-to_items bs, items-to_items (keep keeps_reasoning_out bs))
        (sym (assistant_messages-keep bs))
