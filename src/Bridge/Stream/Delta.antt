-- ===== src/Bridge/Stream/Delta.antt =====
-- What one JSON value of the upstream stream does to the translator, and the end of the stream.
pub mod Going
pub mod Finalize
use brigh_to_router.Prelude.{
  ℕ, zero, suc, ◌+◌, ◌%◌, Bool, true, false, not, Option, none, some, List, [], ◌∷◌, ◌++◌, ltb,
  ◌==◌, if◌then◌else◌, u32_mod,
}
use brigh_to_router.Prelude.Eq.{list_beq}
use brigh_to_router.Prelude.Maps.{Map}
use brigh_to_router.Prelude.Result.{Result, ok, err}
use brigh_to_router.Prelude.Text.{Text, codes}
use brigh_to_router.Contract.Config.{or_else, unwrap_or}
use brigh_to_router.Json.{
  Value, null, boolean, num, other_num, str, arr, obj, Fields, Codec, get, get_field, get_str,
  as_str, as_u64, as_object, as_array, is_null, and_then, first, nonempty, is_empty,
}
use brigh_to_router.Bridge.{BridgeError, upstream}
use brigh_to_router.Bridge.Response.{
  stop_reason, usage_from, tool_input, synthetic_tool_id, error_message,
}
use brigh_to_router.Bridge.Stream.Events.{
  SseTranslator, ToolCallState, Event, block_start, block_delta, block_stop, message_delta,
  message_stop, tool_use_block, text_block, input_json_delta, Emit, ◌>>◌, ensure_started,
  close_open, emit_text, emit_thinking,
}

-- Emissions that may end in an error.
abbrev pub Try : Type 0
Try = SseTranslator × List Event × Option BridgeError

abbrev pub fine : Emit → Try
fine (t, es) = (t, es, none)

-- `BTreeMap::entry(index).or_default()` and a change of it, by ascending index.
blank : ToolCallState
blank = record { id = none; name = none; arguments = [] }

update_tool : ℕ → (ToolCallState → ToolCallState) → Map ℕ ToolCallState → Map ℕ ToolCallState
unfolding blank
update_tool i f [] = (i, f blank) ∷ []
update_tool i f ((j, s) ∷ m) =
    if i == j
    then (j, f s) ∷ m
    else if ltb i j
    then (i, f blank) ∷ (j, s) ∷ m
    else (j, s) ∷ update_tool i f m

module _ (codec : Codec) where
  append_tool_arguments : Value → ToolCallState → ToolCallState
  append_tool_arguments (str s) t = record t { arguments = t.arguments ++ s }
  append_tool_arguments (obj fs) t = record t { arguments = codec.encode (obj fs) }
  append_tool_arguments v t = t

  maybe_arguments : Option Value → ToolCallState → ToolCallState
  unfolding append_tool_arguments
  maybe_arguments none t = t
  maybe_arguments (some v) t = append_tool_arguments v t

  name_once : Fields → ToolCallState → ToolCallState
  name_once o t = record t { name = or_else t.name (nonempty (get_str o (codes "name"))) }

  name_and_arguments : Fields → Option Fields → ToolCallState → ToolCallState
  unfolding name_once maybe_arguments
  name_and_arguments call none t = name_once call t
  name_and_arguments call (some function) t =
      maybe_arguments (get_field function (codes "arguments")) (name_once function t)

  tool_change : Fields → ToolCallState → ToolCallState
  unfolding name_and_arguments
  tool_change call t =
      name_and_arguments call (and_then (get_field call (codes "function")) as_object)
        (record t { id = or_else t.id (nonempty (get_str call (codes "id"))) })

  unfoldable pub tool_delta : Fields → ℕ → SseTranslator → SseTranslator
  unfolding update_tool tool_change
  tool_delta call position t =
      let i = unwrap_or (and_then (get_field call (codes "index")) as_u64) position in
      record t { tools = update_tool i (tool_change call) t.tools }

  unfoldable pub legacy_tool_delta : Fields → SseTranslator → SseTranslator
  unfolding update_tool name_once maybe_arguments
  legacy_tool_delta call t = record t {
    tools =
        update_tool 0 (λ s. maybe_arguments (get_field call (codes "arguments")) (name_once call s))
          t.tools;
  }

  maybe_tool : Option Fields → ℕ → SseTranslator → SseTranslator
  maybe_tool none position t = t
  maybe_tool (some call) position t = tool_delta call position t

  tool_deltas : List Value → ℕ → SseTranslator → SseTranslator
  unfolding maybe_tool
  tool_deltas [] position t = t
  tool_deltas (v ∷ vs) position t =
      tool_deltas vs (position + 1) (maybe_tool (as_object v) position t)

  maybe_legacy : Option Fields → SseTranslator → SseTranslator
  maybe_legacy none t = t
  maybe_legacy (some call) t = legacy_tool_delta call t

  tools_of : Fields → SseTranslator → SseTranslator
  unfolding tool_deltas maybe_legacy
  tools_of delta t =
      maybe_legacy (and_then (get_field delta (codes "function_call")) as_object)
        (tool_deltas (unwrap_or (and_then (get_field delta (codes "tool_calls")) as_array) []) 0 t)

  is_text_kind : Text → Bool
  is_text_kind k = if list_beq k (codes "text") then true else list_beq k (codes "output_text")

  -- The text of a part, if it is one; an empty one emits nothing.
  part_text : Value → Text
  unfolding is_text_kind
  part_text part =
      if is_text_kind (unwrap_or (and_then (get part (codes "type")) as_str) (codes "text"))
      then unwrap_or (and_then (get part (codes "text")) as_str) []
      else []

  emit_parts : List Value → SseTranslator → Emit
  unfolding part_text
  emit_parts [] t = (t, [])
  emit_parts (v ∷ vs) t = emit_text codec (part_text v) t >> emit_parts vs

  emit_content : Value → SseTranslator → Emit
  unfolding emit_parts
  emit_content (str s) t = emit_text codec s t
  emit_content v t = emit_parts (unwrap_or (as_array v) []) t

  maybe_content : Option Value → SseTranslator → Emit
  unfolding emit_content
  maybe_content none t = (t, [])
  maybe_content (some v) t = emit_content v t

  -- The reasoning, where a missing one is as an empty one.
  reasoning : Fields → Text
  reasoning delta =
      unwrap_or
        (and_then
          (or_else (get_field delta (codes "reasoning_content"))
            (get_field delta (codes "reasoning")))
          as_str)
        []

  -- `process_delta`, and `process_message`, which has the same body.
  unfoldable pub process_delta : Fields → SseTranslator → Emit
  unfolding reasoning maybe_content tools_of
  process_delta delta t =
      (emit_thinking codec (reasoning delta) t >> maybe_content (get_field delta (codes "content")))
      >> λ u. (tools_of delta u, [])

  delta_or_message : Option Fields → Option Fields → SseTranslator → Emit
  delta_or_message (some delta) m t = process_delta delta t
  delta_or_message none (some m) t = process_delta m t
  delta_or_message none none t = (t, [])

  finish_with : Option Text → SseTranslator → Emit
  finish_with none t = (t, [])
  finish_with (some reason) t = close_open codec (record t { finish_reason = some reason })

  process_choice : Option Fields → SseTranslator → Emit
  unfolding delta_or_message finish_with
  process_choice none t = (t, [])
  process_choice (some choice) t =
      delta_or_message (and_then (get_field choice (codes "delta")) as_object)
        (and_then (get_field choice (codes "message")) as_object) t
      >> finish_with (get_str choice (codes "finish_reason"))

  note_usage : ℕ × ℕ → SseTranslator → SseTranslator
  note_usage (input, output) t = record t {
    usage_input = if ltb 0 input then input else t.usage_input;
    usage_output = if ltb 0 output then output else t.usage_output;
  }

  error_of : Option Value → Option Value
  error_of none = none
  error_of (some v) = if is_null v then none else some v

  -- The identifier and the usage that the chunk tells.
  note_chunk : Value → Fields → SseTranslator → SseTranslator
  unfolding note_usage
  note_chunk v object t =
      note_usage (usage_from v)
        (record t { upstream_id = or_else t.upstream_id (nonempty (get_str object (codes "id"))) })

  first_choice : Fields → Option Fields
  first_choice object =
      and_then (and_then (and_then (get_field object (codes "choices")) as_array) first) as_object

  process_object : Value → Fields → Option Value → SseTranslator → Try
  unfolding process_choice note_chunk first_choice
  process_object v object (some e) t = (t, [], some (upstream (error_message e)))
  process_object v object none t =
      fine (process_choice (first_choice object) (note_chunk v object t))

  as_chunk : Value → Option Fields → SseTranslator → Try
  unfolding process_object error_of
  as_chunk v none t = (t, [], some (upstream (codes "upstream SSE chunk is not an object")))
  as_chunk v (some object) t =
      process_object v object (error_of (get_field object (codes "error"))) t

  unfoldable pub process_value : Value → SseTranslator → Try
  unfolding as_chunk
  process_value v t = as_chunk v (as_object v) t

  tool_events : ℕ → Text → Text → Value → List Event
  tool_events i id name input =
      block_start i (tool_use_block id name)
      ∷ block_delta i (input_json_delta (codec.encode input))
      ∷ block_stop i
      ∷ []

  then_try : Emit → (SseTranslator → Try) → Try
  then_try (t, es) f = let r = f t in (r.0, es ++ r.1, r.2)

  -- One buffered tool call: its name, its arguments and its identifier.
  emit_tool : ℕ → ToolCallState → Option Text → Result Value BridgeError → SseTranslator → Try
  unfolding tool_events
  emit_tool order s none input t =
      (t, [], some (upstream (codes "upstream tool call is missing a function name")))
  emit_tool order s (some name) (err e) t = (t, [], some e)
  emit_tool order s (some name) (ok input) t = (
    record t { next_index = (t.next_index + 1) % u32_mod; emitted_block = true },
    tool_events t.next_index (unwrap_or s.id (synthetic_tool_id t.ctx.request_id order)) name input,
    none,
  )

  -- `?` stops at the first error.
  and_tools : Try → (SseTranslator → Try) → Try
  unfolding then_try
  and_tools (t, es, none) f = then_try (t, es) f
  and_tools (t, es, some e) f = (t, es, some e)

  emit_tools : ℕ → List (ℕ × ToolCallState) → SseTranslator → Try
  unfolding emit_tool and_tools
  emit_tools order [] t = (t, [], none)
  emit_tools order ((i, s) ∷ rest) t =
      and_tools (emit_tool order s s.name (tool_input codec (some (str s.arguments))) t)
        (emit_tools (order + 1) rest)

  ensure_block : SseTranslator → Emit
  ensure_block t = if t.emitted_block then (t, []) else (
    record t { next_index = (t.next_index + 1) % u32_mod; emitted_block = true },
    block_start t.next_index text_block ∷ block_stop t.next_index ∷ [],
  )

  any_tool : Map ℕ ToolCallState → Bool
  any_tool [] = false
  any_tool (s ∷ m) = true

  end_message : Bool → SseTranslator → Emit
  end_message has_tools t = (
    record t { finished = true },
    message_delta (stop_reason t.finish_reason has_tools) t.usage_output ∷ message_stop ∷ [],
  )

  -- The blocks of the tools, one at least, and the end of the message.
  finalize_tools : Map ℕ ToolCallState → SseTranslator → Try
  unfolding emit_tools ensure_block end_message any_tool
  finalize_tools tools t =
      and_tools (emit_tools 0 tools (record t { tools = [] }))
        λ u. fine (ensure_block u >> end_message (any_tool tools))

  unfoldable pub finalize : SseTranslator → Try
  unfolding finalize_tools
  finalize t =
      if t.finished
      then (t, [], none)
      else then_try (ensure_started t >> close_open codec) λ u. finalize_tools u.tools u
