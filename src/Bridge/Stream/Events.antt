-- ===== src/Bridge/Stream/Events.antt =====
-- The state of the translator, and the operations that open and close blocks.
use brigh_to_router.Prelude.{
  ℕ, ◌+◌, ◌%◌, Bool, true, false, Option, none, some, List, [], ◌∷◌, ◌++◌, ltb, if◌then◌else◌,
  u32_mod,
}
use brigh_to_router.Prelude.Maps.{Map}
use brigh_to_router.Prelude.Text.{Text}
use brigh_to_router.Json.{Codec, Bytes, is_empty}
use brigh_to_router.Bridge.{
  BridgeContext, BridgeError, bridge_message_id, thinking_signature, status, message,
}

pub record ToolCallState : Type 0 where
  pub id : Option Text
  pub name : Option Text
  pub arguments : Text

pub data OpenBlock : Type 0 where
  text : ℕ → OpenBlock
  thinking : ℕ → Text → OpenBlock

pub record SseTranslator : Type 0 where
  pub ctx : BridgeContext
  pub buffer : Bytes
  pub started : Bool
  pub finished : Bool
  pub upstream_id : Option Text
  pub next_index : ℕ
  pub open_block : Option OpenBlock
  pub tools : Map ℕ ToolCallState
  pub finish_reason : Option Text
  pub usage_input : ℕ
  pub usage_output : ℕ
  pub emitted_block : Bool
  pub error : Option BridgeError

-- The events, with what varies in their JSON.
pub data Block : Type 0 where
  text_block thinking_block : Block
  tool_use_block : Text → Text → Block

pub data Delta : Type 0 where
  text_delta thinking_delta signature_delta input_json_delta : Text → Delta

pub data Event : Type 0 where
  message_start : Text → Text → ℕ → Event
  block_start : ℕ → Block → Event
  block_delta : ℕ → Delta → Event
  block_stop : ℕ → Event
  message_delta : Text → ℕ → Event
  message_stop : Event
  error_event : ℕ → Text → Event

unfoldable pub new : BridgeContext → SseTranslator
new ctx = record {
  ctx = ctx;
  buffer = [];
  started = false;
  finished = false;
  upstream_id = none;
  next_index = 0;
  open_block = none;
  tools = [];
  finish_reason = none;
  usage_input = 0;
  usage_output = 0;
  emitted_block = false;
  error = none;
}

abbrev pub Emit : Type 0
Emit = SseTranslator × List Event

-- One operation after another.
infixl 5 ◌>>◌
abbrev pub ◌>>◌ : Emit → (SseTranslator → Emit) → Emit
(t, es) >> f = let r = f t in (r.0, es ++ r.1)

unfoldable pub ensure_started : SseTranslator → Emit
ensure_started t = if t.started then (t, []) else (
  record t { started = true },
  message_start (bridge_message_id t.ctx.request_id t.upstream_id) t.ctx.public_model
        (if ltb 0 t.usage_input then t.usage_input else t.ctx.estimated_input_tokens)
      ∷ [],
)

module _ (codec : Codec) where
  unfoldable pub closing : Option OpenBlock → List Event
  closing none = []
  closing (some (text i)) = block_stop i ∷ []
  closing (some (thinking i s)) =
      block_delta i (signature_delta (thinking_signature codec s)) ∷ block_stop i ∷ []

  unfoldable pub close_open : SseTranslator → Emit
  unfolding closing
  close_open t = (record t { open_block = none }, closing t.open_block)

  -- `next_index += 1` wraps around.
  unfoldable pub open_new : OpenBlock → Block → SseTranslator → Emit
  open_new b kind t = (
    record t {
      next_index = (t.next_index + 1) % u32_mod;
      open_block = some b;
      emitted_block = true;
    },
    block_start t.next_index kind ∷ [],
  )

  unfoldable pub fresh_block : (ℕ → OpenBlock) → Block → SseTranslator → Emit
  unfolding open_new
  fresh_block b kind t = (ensure_started t >> close_open) >> λ u. open_new (b u.next_index) kind u

  unfoldable pub text_at : Option OpenBlock → SseTranslator → Emit
  unfolding fresh_block
  text_at (some (text i)) t = (t, [])
  text_at (some (thinking i s)) t = fresh_block text text_block t
  text_at none t = fresh_block text text_block t

  unfoldable pub open_text : SseTranslator → Emit
  unfolding text_at
  open_text t = text_at t.open_block t

  unfoldable pub thinking_at : Option OpenBlock → SseTranslator → Emit
  unfolding fresh_block
  thinking_at (some (thinking i s)) t = (t, [])
  thinking_at (some (text i)) t = fresh_block (λ i. thinking i []) thinking_block t
  thinking_at none t = fresh_block (λ i. thinking i []) thinking_block t

  unfoldable pub open_thinking : SseTranslator → Emit
  unfolding thinking_at
  open_thinking t = thinking_at t.open_block t

  -- The index that `open_text` and `open_thinking` return is that of the block left open.
  unfoldable pub open_index : Option OpenBlock → ℕ
  open_index none = 0
  open_index (some (text i)) = i
  open_index (some (thinking i s)) = i

  unfoldable pub put_text : Text → SseTranslator → Emit
  unfolding open_index
  put_text s t =
      (record t { emitted_block = true }, block_delta (open_index t.open_block) (text_delta s) ∷ [])

  unfoldable pub emit_text : Text → SseTranslator → Emit
  unfolding put_text
  emit_text s t = if is_empty s then (t, []) else open_text t >> put_text s

  unfoldable pub accumulate : Text → Option OpenBlock → Option OpenBlock
  accumulate s none = none
  accumulate s (some (text i)) = some (text i)
  accumulate s (some (thinking i acc)) = some (thinking i (acc ++ s))

  unfoldable pub put_thinking : Text → SseTranslator → Emit
  unfolding open_index accumulate
  put_thinking s t = (
    record t { open_block = accumulate s t.open_block; emitted_block = true },
    block_delta (open_index t.open_block) (thinking_delta s) ∷ [],
  )

  unfoldable pub emit_thinking : Text → SseTranslator → Emit
  unfolding put_thinking
  emit_thinking s t = if is_empty s then (t, []) else open_thinking t >> put_thinking s

  unfoldable pub fail : BridgeError → SseTranslator → Emit
  fail e t =
      if t.finished
      then (t, [])
      else close_open t >> λ u.
          (record u { error = some e; finished = true }, error_event (status e) (message e) ∷ [])

  unfoldable pub abort : ℕ → Text → SseTranslator → Emit
  abort s m t =
      if t.finished
      then (t, [])
      else close_open t >> λ u. (
        record u { error = some (BridgeError.upstream m); finished = true },
        error_event s m ∷ [],
      )
