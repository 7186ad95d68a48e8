-- ===== src/Bridge/Request/Messages.antt =====
-- `anthropic_to_openai` of src/bridge/request.rs: the messages and the whole body. The conversion of a
-- number to floating point and back is the JSON package's, and so a parameter.
use brigh_to_router.Prelude.{
  ℕ, true, false, Option, none, some, List, [], ◌∷◌, ◌++◌, ltb, if◌then◌else◌,
}
use brigh_to_router.Prelude.Eq.{list_beq}
use brigh_to_router.Prelude.Result.{Result, ok, err}
use brigh_to_router.Prelude.Text.{Text, codes}
use brigh_to_router.Contract.Config.{unwrap_or}
use brigh_to_router.Json.{
  Value, null, boolean, num, str, arr, obj, Fields, end, field, Codec, Bytes, get, get_field,
  get_str, as_str, as_u64, as_bool, as_object, as_array, and_then, nonempty, is_empty, from_list,
}
use brigh_to_router.Bridge.{BridgeError, invalid_request, unsupported}
use brigh_to_router.Bridge.Response.{◌>>=◌, push}
use brigh_to_router.Bridge.Request.Content.{
  needed, join_parts, expect_block_type, message_of, is_thinking, convert_user_message,
}
use brigh_to_router.Bridge.Request.Body.{
  present, parse_system, system_message_text, unless_blank, convert_tools, convert_tool_choice,
}

-- A field that may be there.
pub maybe_field : Text → Option Value → Fields → Fields
maybe_field k none fs = fs
maybe_field k (some v) fs = field k v fs

-- The texts and the tool calls of an assistant's message.
abbrev pub Said : Type 0
Said = List Text × List Value

texts_value : List Text → Value
texts_value [] = null
texts_value (s ∷ ss) = str (join_parts (s ∷ ss))

calls_value : List Value → Option Value
calls_value [] = none
calls_value (v ∷ vs) = some (arr (from_list (v ∷ vs)))

unfoldable pub assistant_message : Said → List Value
unfolding texts_value calls_value
assistant_message ([], []) = []
assistant_message (texts, calls) =
    obj (
      field (codes "content") (texts_value texts) (
        field (codes "role") (str (codes "assistant"))
          (maybe_field (codes "tool_calls") (calls_value calls) end)))
    ∷ []

module _ (codec : Codec) (as_finite : Value → Option Value) where
  call_value : Fields → Result Value BridgeError
  call_value object = do
    id ← needed (nonempty (get_str object (codes "id"))) (codes "tool_use id is missing")
    name ← needed (nonempty (get_str object (codes "name"))) (codes "tool_use name is missing")
    input ←
        needed (and_then (get_field object (codes "input")) as_object)
          (codes "tool_use input must be an object")
    ok (
        obj (
          field (codes "function")
            (obj (
              field (codes "arguments") (str (codec.encode (obj input)))
                (field (codes "name") (str name) end)))
            (field (codes "id") (str id) (field (codes "type") (str (codes "function")) end))))

  assistant_block : Text → Fields → Result Said BridgeError
  unfolding call_value
  assistant_block kind object =
      if list_beq kind (codes "text")
      then needed (get_str object (codes "text")) (codes "text block is missing text")
        >>= (λ s. ok (s ∷ [], []))
      else if list_beq kind (codes "tool_use")
      then call_value object >>= (λ call. ok ([], call ∷ []))
      else if is_thinking kind
      then ok ([], [])
      else err (
          unsupported
            (codes "assistant content block type '" ++ kind ++ codes "' is not supported"))

  pub assistant_blocks : List Value → Result Said BridgeError
  unfolding assistant_block
  assistant_blocks [] = ok ([], [])
  assistant_blocks (v ∷ vs) = do
    object ← needed (as_object v) (codes "content block must be an object")
    typed ← expect_block_type object (codes "assistant")
    kind ← needed (get_str object (codes "type")) (codes "content block type is missing")
    block ← assistant_block kind object
    rest ← assistant_blocks vs
    ok (block.0 ++ rest.0, block.1 ++ rest.1)

  unfoldable pub convert_assistant_message : Value → Result (List Value) BridgeError
  unfolding assistant_blocks
  convert_assistant_message (str s) =
      ok (if is_empty s then [] else message_of (codes "assistant") (str s) ∷ [])
  convert_assistant_message v = do
    blocks ← needed (as_array v) (codes "assistant content must be a string or an array")
    said ← assistant_blocks blocks
    ok (assistant_message said)

  unfoldable pub by_role : Text → Value → Result (List Value) BridgeError
  by_role role content =
      if list_beq role (codes "user")
      then convert_user_message content
      else if list_beq role (codes "assistant")
      then convert_assistant_message content
      else if list_beq role (codes "system")
      then err (invalid_request (codes "system-role message must be handled before conversion"))
      else err (invalid_request (codes "unsupported message role '" ++ role ++ codes "'"))

  unfoldable pub convert_message : Value → Result (List Value) BridgeError
  unfolding by_role
  convert_message message = do
    object ← needed (as_object message) (codes "message must be an object")
    role ← needed (get_str object (codes "role")) (codes "message role is missing")
    content ← needed (get_field object (codes "content")) (codes "message content is missing")
    by_role role content

  -- The system texts and the other messages, each in their order.
  unfoldable pub collect : List Value → Result (List Text × List Value) BridgeError
  collect [] = ok ([], [])
  collect (v ∷ vs) =
      let rest = collect vs in
      if list_beq (unwrap_or (and_then (get v (codes "role")) as_str) []) (codes "system")
      then needed (get v (codes "content")) (codes "message content is missing") >>= (λ content.
        system_message_text content
        >>= (λ text. rest >>= (λ r. ok (push (and_then text unless_blank) r.0, r.1))))
      else convert_message v >>= (λ messages. rest >>= (λ r. ok (r.0, messages ++ r.1)))

  -- One system message, in front of the others.
  unfoldable pub lead : List Text → List Value → List Value
  lead [] messages = messages
  lead (s ∷ ss) messages = message_of (codes "system") (str (join_parts (s ∷ ss))) ∷ messages

  unfoldable pub some_messages : List Value → Result (List Value) BridgeError
  some_messages [] = err (invalid_request (codes "request contains no convertible messages"))
  some_messages (v ∷ vs) = ok (v ∷ vs)

  any_message : List Value → Result (Unit {0}) BridgeError
  any_message [] = err (invalid_request (codes "messages must contain at least one message"))
  any_message (v ∷ vs) = ok tt

  unfoldable pub converted_messages : Option Value → List Value → Result (List Value) BridgeError
  unfolding some_messages
  converted_messages system messages = do
    top ← parse_system system
    collected ← collect messages
    others ← some_messages collected.1
    ok (lead (push (and_then top unless_blank) collected.0) others)

  maybe_tools : Option Value → Result (Option Value) BridgeError
  maybe_tools none = ok none
  maybe_tools (some v) = convert_tools v >>= (λ tools. ok (some tools))

  maybe_choice : Option Value → Result (Option Value × Option Value) BridgeError
  maybe_choice none = ok (none, none)
  maybe_choice (some v) =
      convert_tool_choice v >>= (λ c. ok (some c.0, if c.1 then some (boolean false) else none))

  stop_texts : List Value → List Value
  stop_texts [] = []
  stop_texts (str s ∷ vs) = str s ∷ stop_texts vs
  stop_texts (v ∷ vs) = stop_texts vs

  positive : Option ℕ → Option ℕ
  positive none = none
  positive (some n) = if ltb 0 n then some n else none

  user_id : Fields → Option Text
  user_id object = nonempty (
      and_then
        (and_then (and_then (get_field object (codes "metadata")) as_object)
          (λ m. get_field m (codes "user_id")))
        as_str)

  body_value : Fields → Text → ℕ → List Value → Option Value → Option Value × Option Value → Value
  unfolding calls_value stop_texts user_id
  body_value object model max_tokens messages tools (choice, parallel) =
      let stream = unwrap_or (and_then (get_field object (codes "stream")) as_bool) false in
      let stops =
        stop_texts (unwrap_or (and_then (get_field object (codes "stop_sequences")) as_array) []) in
      obj (
        field (codes "max_tokens") (num max_tokens) (
          field (codes "messages") (arr (from_list messages)) (
            field (codes "model") (str model) (
              maybe_field (codes "parallel_tool_calls") parallel (
                maybe_field (codes "stop") (calls_value stops) (
                  field (codes "stream") (boolean stream) (
                    maybe_field (codes "stream_options")
                      (if stream
                        then some (obj (field (codes "include_usage") (boolean true) end))
                        else none)
                      (maybe_field (codes "temperature")
                        (and_then (get_field object (codes "temperature")) as_finite)
                        (maybe_field (codes "tool_choice") choice (
                          maybe_field (codes "tools") tools (
                            maybe_field (codes "top_p")
                              (and_then (get_field object (codes "top_p")) as_finite)
                              (maybe_field (codes "user")
                                (and_then (user_id object) (λ s. some (str s))) end))))))))))))

  parsed_body : Result Value Text → Result Value BridgeError
  parsed_body (ok v) = ok v
  parsed_body (err e) = err (invalid_request (codes "invalid JSON: " ++ e))

  unfoldable pub anthropic_to_openai : Bytes → Text → Result Bytes BridgeError
  unfolding parsed_body any_message positive maybe_tools maybe_choice body_value
  anthropic_to_openai body model = do
    value ← parsed_body (codec.parse_bytes body)
    object ← needed (as_object value) (codes "request body must be a JSON object")
    messages ←
        needed (and_then (get_field object (codes "messages")) as_array)
          (codes "messages must be an array")
    any ← any_message messages
    max_tokens ←
        needed (positive (and_then (get_field object (codes "max_tokens")) as_u64))
          (codes "max_tokens must be a positive integer")
    converted ← converted_messages (get_field object (codes "system")) messages
    tools ← maybe_tools (present (get_field object (codes "tools")))
    choice ← maybe_choice (present (get_field object (codes "tool_choice")))
    ok (codec.utf8 (codec.encode (body_value object model max_tokens converted tools choice)))
