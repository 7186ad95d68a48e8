-- ===== src/Bridge/Tests.antt =====
-- The bridge at concrete inputs: a codec whose every JSON text is a chunk of a stream that opens a
-- thinking block, then a text block, and calls a tool.
use brigh_to_router.Prelude.{
  ◌≡◌, ◌≢◌, refl, All, false, true, some, List, [], ◌∷◌, map, if◌then◌else◌, arith,
}
use brigh_to_router.Prelude.Result.{Result, ok, err}
use brigh_to_router.Prelude.Text.{Text, codes}
use brigh_to_router.Json.{Value, null, str, arr, obj, nil, cons, end, field, Codec, Bytes}
use brigh_to_router.Bridge.{BridgeContext, too_large}
use brigh_to_router.Bridge.Limited.{
  read_body_limited, declares_more, within, concat, read_body_limited-within,
}
use brigh_to_router.Bridge.Request.Messages.{converted_messages}
use brigh_to_router.Bridge.Request.Leading.{is_system, after_system, converted_messages_led}
use brigh_to_router.Bridge.Stream.Events.{new, ◌>>◌}
use brigh_to_router.Bridge.Stream.Phase.{before, ended, run}
use brigh_to_router.Bridge.Stream.Feed.{feed_all, finish, is_finished}
use brigh_to_router.Bridge.Stream.Feed.Complete.{feed_all-finish_complete}
use brigh_to_router.Bridge.Stream.Message.{message_to_sse, message_to_sse_complete}

abbrev pub call : Value
call = obj (
    field (codes "function")
      (obj
        (field (codes "name") (str (codes "f")) (field (codes "arguments") (str (codes "{}")) end)))
      end)

abbrev pub delta : Value
delta = obj (
    field (codes "reasoning") (str (codes "hm")) (
      field (codes "content") (str (codes "hi"))
        (field (codes "tool_calls") (arr (cons call nil)) end)))

abbrev pub chunk : Value
chunk = obj (field (codes "choices") (arr (cons (obj (field (codes "delta") delta end)) nil)) end)

abbrev pub parse_chunk : Text → Result Value Text
parse_chunk [] = err (codes "expected value")
parse_chunk (c ∷ s) = ok chunk

abbrev pub codec : Codec
codec = record {
  parse = parse_chunk;
  parse_bytes = parse_chunk;
  encode = λ v. codes "{}";
  lossy = λ b. b;
  utf8 = λ s. s;
}

abbrev ctx : BridgeContext
ctx = record { public_model = codes "m"; request_id = codes "r"; estimated_input_tokens = 7 }

-- The line is cut in its midst, and the end mark has no newline.
abbrev chunks : List Bytes
chunks = codes "data: {1" ∷ codes "}\n\ndata: [DO" ∷ codes "NE]" ∷ []

abbrev saved : Value
saved = obj (
    field (codes "content")
      (arr (cons (obj (field (codes "type") (str (codes "thinking")) end)) (cons null nil))) end)

feed_all-finish_complete_example :
    (run (some before) (feed_all codec chunks (new ctx) >> finish codec).1 ≡ some ended)
    × (is_finished (feed_all codec chunks (new ctx) >> finish codec).0 ≡ true)
feed_all-finish_complete_example = feed_all-finish_complete codec ctx chunks

message_to_sse_complete_example : run (some before) (message_to_sse codec saved ctx) ≡ some ended
message_to_sse_complete_example = message_to_sse_complete codec saved ctx

read_body_limited-within_example :
    read_body_limited (some 3) (map ok chunks) 4
    ≡ (if declares_more (some 3) 4 then err too_large else within 4 (concat chunks))
read_body_limited-within_example = read_body_limited-within (some 3) chunks 4 (ground arith)

-- A system text among the messages, and one at the top.
abbrev asked : List Value
asked =
    obj
      (field (codes "content") (str (codes "s")) (field (codes "role") (str (codes "system")) end))
    ∷ obj
        (field (codes "content") (str (codes "hi")) (field (codes "role") (str (codes "user")) end))
    ∷ []

abbrev sent : List Value
sent =
    obj (
      field (codes "content") (str (codes "t\n\ns"))
        (field (codes "role") (str (codes "system")) end))
    ∷ obj
        (field (codes "content") (str (codes "hi")) (field (codes "role") (str (codes "user")) end))
    ∷ []

asked-sent : converted_messages codec (λ v. some v) (some (str (codes "t"))) asked ≡ ok sent
unfolding converted_messages brigh_to_router.Bridge.Request.Content.join_parts
    brigh_to_router.Bridge.Response.◌>>=◌ brigh_to_router.Bridge.Request.Body.parse_system
    brigh_to_router.Bridge.Request.Body.system_message_text
    brigh_to_router.Bridge.Request.Body.unless_blank brigh_to_router.Json.is_null
    brigh_to_router.Json.get brigh_to_router.Json.get_field brigh_to_router.Json.as_str
    brigh_to_router.Json.as_object brigh_to_router.Json.get_str
    brigh_to_router.Bridge.Request.Messages.collect
    brigh_to_router.Bridge.Request.Messages.convert_message
    brigh_to_router.Bridge.Request.Messages.lead brigh_to_router.Bridge.Request.Messages.by_role
    brigh_to_router.Bridge.Request.Messages.some_messages
    brigh_to_router.Bridge.Request.Content.convert_user_message
    brigh_to_router.Bridge.Request.Content.message_of brigh_to_router.Prelude.Text.trim
    brigh_to_router.Prelude.Text.trim_end brigh_to_router.Prelude.Text.trim_start
    brigh_to_router.Prelude.Text.is_whitespace
asked-sent = refl

converted_messages_led_example :
    All (λ v. is_system v ≡ false) (after_system sent) × (after_system sent ≢ [])
converted_messages_led_example =
    converted_messages_led codec (λ v. some v) (some (str (codes "t"))) asked sent asked-sent
