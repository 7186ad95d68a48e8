-- ===== src/Bridge/Stream/Render.antt =====
-- The JSON and the bytes of the events.
use brigh_to_router.Prelude.{ℕ, List, [], ◌∷◌, ◌++◌}
use brigh_to_router.Prelude.Text.{Text, codes}
use brigh_to_router.Json.{Value, null, num, str, arr, obj, nil, Fields, end, field, Codec, Bytes}
use brigh_to_router.Bridge.{sse_event, anthropic_sse_error}
use brigh_to_router.Bridge.Stream.Events.{
  Event, message_start, block_start, block_delta, block_stop, message_delta, message_stop,
  error_event, Block, text_block, thinking_block, tool_use_block, Delta, text_delta, thinking_delta,
  signature_delta, input_json_delta,
}

-- A field that is a text, before others.
texts : Text → Text → Fields → Fields
texts k s fs = field k (str s) fs

block_value : Block → Value
unfolding texts
block_value text_block = obj (texts (codes "text") [] (texts (codes "type") (codes "text") end))
block_value thinking_block =
    obj (texts (codes "thinking") [] (texts (codes "type") (codes "thinking") end))
block_value (tool_use_block id name) = obj (
    texts (codes "id") id (
      field (codes "input") (obj end)
        (texts (codes "name") name (texts (codes "type") (codes "tool_use") end))))

delta_value : Delta → Value
unfolding texts
delta_value (text_delta s) =
    obj (texts (codes "text") s (texts (codes "type") (codes "text_delta") end))
delta_value (thinking_delta s) =
    obj (texts (codes "thinking") s (texts (codes "type") (codes "thinking_delta") end))
delta_value (signature_delta s) =
    obj (texts (codes "signature") s (texts (codes "type") (codes "signature_delta") end))
delta_value (input_json_delta s) =
    obj (texts (codes "partial_json") s (texts (codes "type") (codes "input_json_delta") end))

started_message : Text → Text → ℕ → Value
unfolding texts
started_message id model tokens = obj (
    field (codes "content") (arr nil) (
      texts (codes "id") id (
        texts (codes "model") model (
          texts (codes "role") (codes "assistant") (
            field (codes "stop_reason") null (
              field (codes "stop_sequence") null (
                texts (codes "type") (codes "message") (
                  field (codes "usage")
                    (obj (
                      field (codes "cache_creation_input_tokens") (num 0) (
                        field (codes "cache_read_input_tokens") (num 0) (
                          field (codes "input_tokens") (num tokens)
                            (field (codes "output_tokens") (num 0) end)))))
                    end))))))))

-- The name of the event stands in its JSON too; an error is one of the bridge's.
module _ (codec : Codec) where
  named : Text → Fields → Bytes
  unfolding texts
  named event fs = sse_event codec event (obj fs)

  unfoldable pub render : Event → Bytes
  unfolding texts named block_value delta_value started_message
  render (message_start id model tokens) = named (codes "message_start") (
      field (codes "message") (started_message id model tokens)
        (texts (codes "type") (codes "message_start") end))
  render (block_start i b) = named (codes "content_block_start") (
      field (codes "content_block") (block_value b)
        (field (codes "index") (num i) (texts (codes "type") (codes "content_block_start") end)))
  render (block_delta i d) = named (codes "content_block_delta") (
      field (codes "delta") (delta_value d)
        (field (codes "index") (num i) (texts (codes "type") (codes "content_block_delta") end)))
  render (block_stop i) =
      named (codes "content_block_stop")
        (field (codes "index") (num i) (texts (codes "type") (codes "content_block_stop") end))
  render (message_delta reason tokens) = named (codes "message_delta") (
      field (codes "delta")
        (obj (texts (codes "stop_reason") reason (field (codes "stop_sequence") null end)))
        (texts (codes "type") (codes "message_delta")
          (field (codes "usage") (obj (field (codes "output_tokens") (num tokens) end)) end)))
  render message_stop =
      named (codes "message_stop") (texts (codes "type") (codes "message_stop") end)
  render (error_event status message) = anthropic_sse_error codec status message

  unfoldable pub render_all : List Event → Bytes
  render_all [] = []
  render_all (e ∷ es) = render e ++ render_all es
