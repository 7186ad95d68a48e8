-- ===== src/Bridge/Stream/Message.antt =====
-- `message_to_sse` of src/bridge/stream.rs: the events of a message that is there as a whole.
use brigh_to_router.Prelude.{
  ℕ, ◌+◌, ◌%◌, ◌≡◌, refl, ◌∙◌, ap, Bool, true, false, Option, none, some, List, [], ◌∷◌, ◌++◌,
  ==_refl, if◌then◌else◌, if_intro, u32_mod, arith,
}
use brigh_to_router.Prelude.Eq.{list_beq}
use brigh_to_router.Prelude.Text.{Text, codes}
use brigh_to_router.Contract.Config.{unwrap_or}
use brigh_to_router.Json.{
  Value, obj, end, Codec, get, as_str, as_u64, as_array, and_then, nonempty, is_empty,
}
use brigh_to_router.Bridge.{BridgeContext, bridge_message_id, thinking_signature}
use brigh_to_router.Bridge.Stream.Events.{
  Event, message_start, block_start, block_delta, block_stop, message_delta, message_stop,
  text_block, thinking_block, tool_use_block, Delta, text_delta, thinking_delta, signature_delta,
  input_json_delta,
}
use brigh_to_router.Bridge.Stream.Phase.{before, between, ended, accept, run, run-append}

-- A field that is a text.
text_field : Value → Text → Option Text
text_field v k = and_then (get v k) as_str

-- A delta that is sent where it has a text.
delta_if_any : ℕ → Text → Delta → List Event
delta_if_any i s d = if is_empty s then [] else block_delta i d ∷ []

module _ (codec : Codec) where
  text_events : ℕ → Value → List Event
  unfolding text_field delta_if_any
  text_events i block =
      let s = unwrap_or (text_field block (codes "text")) [] in
      block_start i text_block ∷ delta_if_any i s (text_delta s) ++ block_stop i ∷ []

  thinking_events : ℕ → Value → List Event
  unfolding text_field delta_if_any
  thinking_events i block =
      let s = unwrap_or (text_field block (codes "thinking")) [] in
      let signature =
        unwrap_or (text_field block (codes "signature")) (thinking_signature codec s) in
      block_start i thinking_block ∷ delta_if_any i s (thinking_delta s)
      ++ block_delta i (signature_delta signature) ∷ block_stop i ∷ []

  tool_use_events : ℕ → Value → List Event
  unfolding text_field
  tool_use_events i block =
      block_start i (
        tool_use_block (unwrap_or (text_field block (codes "id")) [])
          (unwrap_or (text_field block (codes "name")) (codes "tool")))
      ∷ block_delta i
          (input_json_delta (codec.encode (unwrap_or (get block (codes "input")) (obj end))))
      ∷ block_stop i
      ∷ []

  -- The events of a block, none where its type is not known.
  block_events : ℕ → Value → Option (List Event)
  unfolding text_events thinking_events tool_use_events
  block_events i block =
      let kind = unwrap_or (text_field block (codes "type")) [] in
      if list_beq kind (codes "text")
      then some (text_events i block)
      else if list_beq kind (codes "thinking")
      then some (thinking_events i block)
      else if list_beq kind (codes "tool_use")
      then some (tool_use_events i block)
      else none

  -- One empty block, where none was emitted.
  blank_block : Bool → List Event
  blank_block true = []
  blank_block false = block_start 0 text_block ∷ block_stop 0 ∷ []

  -- A block that emits nothing is not counted.
  counted : Option (List Event) → List Event → List Event → List Event
  counted none skipped next = skipped
  counted (some es) skipped next = es ++ next

  blocks_events : ℕ → Bool → List Value → List Event
  unfolding block_events blank_block counted
  blocks_events i emitted [] = blank_block emitted
  blocks_events i emitted (block ∷ blocks) =
      counted (block_events i block) (blocks_events i emitted blocks)
        (blocks_events ((i + 1) % u32_mod) true blocks)

  content_blocks : Value → List Value
  content_blocks message = unwrap_or (and_then (get message (codes "content")) as_array) []

  usage_field : Value → Text → Option ℕ
  usage_field message k = and_then (and_then (get message (codes "usage")) (λ u. get u k)) as_u64

  message_end : Value → List Event
  unfolding text_field usage_field
  message_end message =
      message_delta (unwrap_or (text_field message (codes "stop_reason")) (codes "end_turn"))
        (unwrap_or (usage_field message (codes "output_tokens")) 0)
      ∷ message_stop
      ∷ []

  unfoldable pub message_to_sse : Value → BridgeContext → List Event
  unfolding text_field blocks_events content_blocks usage_field message_end
  message_to_sse message ctx =
      message_start
          (unwrap_or (nonempty (text_field message (codes "id")))
            (bridge_message_id ctx.request_id none))
          (unwrap_or (text_field message (codes "model")) ctx.public_model)
          (unwrap_or (usage_field message (codes "input_tokens")) ctx.estimated_input_tokens)
        ∷ blocks_events 0 false (content_blocks message)
      ++ message_end message

  -- A block takes the client past it.
  BlockOk : ℕ → Bool → List Event → Type 0
  BlockOk i any es = run (some (between i any)) es ≡ some (between ((i + 1) % u32_mod) true)

  text_events-BlockOk : (i : ℕ) (any : Bool) (block : Value) → BlockOk i any (text_events i block)
  unfolding BlockOk text_events delta_if_any run accept
  text_events-BlockOk i any block = ground (arith, ==_refl i)

  thinking_events-BlockOk :
      (i : ℕ) (any : Bool) (block : Value) → BlockOk i any (thinking_events i block)
  unfolding BlockOk thinking_events delta_if_any run accept
  thinking_events-BlockOk i any block = ground (arith, ==_refl i)

  tool_use_events-BlockOk :
      (i : ℕ) (any : Bool) (block : Value) → BlockOk i any (tool_use_events i block)
  unfolding BlockOk tool_use_events run accept
  tool_use_events-BlockOk i any block = ground (arith, ==_refl i)

  EventsOk : ℕ → Bool → Option (List Event) → Type 0
  EventsOk i any none = Unit
  EventsOk i any (some es) = BlockOk i any es

  block_events-EventsOk :
      (i : ℕ) (any : Bool) (block : Value) → EventsOk i any (block_events i block)
  unfolding EventsOk block_events
  block_events-EventsOk i any block =
      let kind = unwrap_or (text_field block (codes "type")) [] in
      let tool =
        if list_beq kind (codes "tool_use") then some (tool_use_events i block) else none in
      let thinking =
        if list_beq kind (codes "thinking") then some (thinking_events i block) else tool in
      if_intro (EventsOk i any) (list_beq kind (codes "text")) (some (text_events i block)) thinking
        (λ e. text_events-BlockOk i any block)
        (λ e.
          if_intro (EventsOk i any) (list_beq kind (codes "thinking"))
            (some (thinking_events i block)) tool (λ e. thinking_events-BlockOk i any block)
            (λ e.
              if_intro (EventsOk i any) (list_beq kind (codes "tool_use"))
                (some (tool_use_events i block)) none (λ e. tool_use_events-BlockOk i any block)
                (λ e. tt)))

  -- Events that take the client to the end of the blocks, with one of them at least.
  ToEnd : ℕ → Bool → List Event → Type 0
  ToEnd i any es = (k : ℕ) × (run (some (between i any)) es ≡ some (between k true))

  counted-ToEnd :
      (i : ℕ) (any : Bool) (o : Option (List Event)) (skipped next : List Event)
      → EventsOk i any o
      → ToEnd i any skipped
      → ToEnd ((i + 1) % u32_mod) true next
      → ToEnd i any (counted o skipped next)
  unfolding ToEnd counted EventsOk BlockOk
  counted-ToEnd i any none skipped next h s n = s
  counted-ToEnd i any (some es) skipped next h s (k, n) =
      (k, run-append (some (between i any)) es next ∙ ap (λ p. run p next) h ∙ n)

  blocks_events-ToEnd :
      (i : ℕ) (any : Bool) (blocks : List Value)
      → (if any then 0 else i) ≡ 0
      → ToEnd i any (blocks_events i any blocks)
  unfolding blocks_events blank_block ToEnd run accept
  blocks_events-ToEnd i true [] h = (i, refl)
  blocks_events-ToEnd i false [] h = (1, rw h refl)
  blocks_events-ToEnd i any (block ∷ blocks) h =
      counted-ToEnd i any (block_events i block) _ _ (block_events-EventsOk i any block)
        (blocks_events-ToEnd i any blocks h)
        (blocks_events-ToEnd ((i + 1) % u32_mod) true blocks refl)

  -- The events that `message_to_sse` makes of any JSON value are one complete message for the
  -- client: it starts, it has at least one block, every block is opened, filled and closed under
  -- consecutive indices, and it ends.
  pub message_to_sse_complete :
      (message : Value) (ctx : BridgeContext)
      → run (some before) (message_to_sse message ctx) ≡ some ended
  unfolding message_to_sse message_end ToEnd run accept
  message_to_sse_complete message ctx =
      let blocks = content_blocks message in
      let (k, h) = blocks_events-ToEnd 0 false blocks refl in
      run-append (some (between 0 false)) (blocks_events 0 false blocks) (message_end message)
      ∙ ap (λ p. run p (message_end message)) h
