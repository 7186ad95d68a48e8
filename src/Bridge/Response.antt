-- ===== src/Bridge/Response.antt =====
-- src/bridge/response.rs: one OpenAI completion becomes an Anthropic message, and the parts that the
-- stream shares.
use brigh_to_router.Prelude.{
  ℕ, ◌+◌, ◌/◌, ◌%◌, zero, suc, Bool, true, false, ◌||◌, Option, none, some, List, [], ◌∷◌, ◌++◌,
  take, ltb, if◌then◌else◌,
}
use brigh_to_router.Prelude.Eq.{list_beq}
use brigh_to_router.Prelude.Result.{Result, ok, err}
use brigh_to_router.Prelude.Text.{Text, codes, trim}
use brigh_to_router.Contract.Config.{or_else, unwrap_or}
use brigh_to_router.Json.{
  Value, null, num, str, arr, obj, Fields, end, field, Codec, Bytes, get, get_field, get_str,
  as_str, as_u64, as_object, as_array, and_then, first, nonempty, is_empty, from_list,
}
use brigh_to_router.Bridge.{
  BridgeContext, BridgeError, upstream, is_alphanumeric, keep, bridge_message_id,
  thinking_signature,
}

infixl 5 ◌>>=◌
unfoldable pub ◌>>=◌ {ℓ κ} :
    {A : Type ℓ} {B : Type κ}
    → Result A BridgeError
    → (A → Result B BridgeError)
    → Result B BridgeError
ok a >>= f = f a
err e >>= f = err e

-- `ok_or_else` with an upstream error.
abbrev pub required {ℓ} : {A : Type ℓ} → Option A → Text → Result A BridgeError
required none m = err (upstream m)
required (some a) m = ok a

is_one_of : Text → List Text → Bool
is_one_of s [] = false
is_one_of s (n ∷ ns) = list_beq s n || is_one_of s ns

reason_of : Option Text → Bool → Text
unfolding is_one_of
reason_of none has_tools = if has_tools then codes "tool_use" else codes "end_turn"
reason_of (some s) has_tools =
    if is_one_of s (codes "length" ∷ codes "max_tokens" ∷ [])
    then codes "max_tokens"
    else if list_beq s (codes "content_filter")
    then codes "end_turn"
    else if has_tools
    then codes "tool_use"
    else codes "end_turn"

unfoldable pub stop_reason : Option Text → Bool → Text
unfolding reason_of
stop_reason finish has_tools = reason_of finish has_tools

unfoldable pub usage_from : Value → ℕ × ℕ
usage_from v =
    let usage = unwrap_or (get v (codes "usage")) v in
    (
      unwrap_or
          (and_then (or_else (get usage (codes "prompt_tokens")) (get usage (codes "input_tokens")))
            as_u64)
          0,
      unwrap_or
          (and_then
            (or_else (get usage (codes "completion_tokens")) (get usage (codes "output_tokens")))
            as_u64)
          0,
    )

-- `{"message": …}`, or a text.
unfoldable pub error_message : Value → Text
error_message e =
    unwrap_or (or_else (and_then (get e (codes "message")) as_str) (as_str e))
      (codes "upstream returned an error")

-- The texts of the parts whose type, if they have one, is one of `kinds`.
part_text : List Text → Option Fields → Option Text
unfolding is_one_of
part_text kinds none = none
part_text kinds (some o) =
    if is_one_of (unwrap_or (get_str o (codes "type")) (codes "text")) kinds
    then get_str o (codes "text")
    else none

abbrev pub push {ℓ} : {A : Type ℓ} → Option A → List A → List A
push none xs = xs
push (some x) xs = x ∷ xs

unfoldable pub part_texts : List Text → List Value → List Text
unfolding part_text
part_texts kinds [] = []
part_texts kinds (v ∷ vs) = push (part_text kinds (as_object v)) (part_texts kinds vs)

content_texts : Value → Result (List Text) BridgeError
content_texts null = ok []
content_texts (str s) = ok (s ∷ [])
content_texts v = do
  parts ← required (as_array v) (codes "upstream message content is not text")
  ok (part_texts (codes "text" ∷ codes "output_text" ∷ codes "refusal" ∷ []) parts)

unfoldable pub extract_text_blocks : Option Value → Result (List Text) BridgeError
unfolding content_texts
extract_text_blocks none = ok []
extract_text_blocks (some v) = content_texts v

-- A number in decimal; the fuel is the number and one more, and it has fewer digits.
decimal_on : ℕ → ℕ → Text
decimal_on zero n = []
decimal_on (suc fuel) n =
    let front = decimal_on fuel (n / 10) in
    if ltb n 10 then (n + b'0') ∷ [] else front ++ (n % 10 + b'0') ∷ []

pub decimal : ℕ → Text
unfolding decimal_on
decimal n = decimal_on (suc n) n

tool_id : Text → ℕ → Text
tool_id [] i = codes "toolu_bridge_" ++ decimal i
tool_id (c ∷ s) i = codes "toolu_bridge_" ++ (c ∷ s) ++ b'_' ∷ decimal i

unfoldable pub synthetic_tool_id : Text → ℕ → Text
unfolding tool_id
synthetic_tool_id request_id i = tool_id (take 32 (keep is_alphanumeric request_id)) i

module _ (codec : Codec) where
  raw_arguments : Option Value → Result Text BridgeError
  raw_arguments none = ok (codes "{}")
  raw_arguments (some null) = ok (codes "{}")
  raw_arguments (some (str s)) = ok s
  raw_arguments (some (obj fs)) = ok (codec.encode (obj fs))
  raw_arguments (some v) =
      err (upstream (codes "upstream tool arguments must be a JSON string or object"))

  parsed : Text → Result Value Text → Result Value BridgeError
  parsed m (ok v) = ok v
  parsed m (err e) = err (upstream (m ++ e))

  object_of : Option Fields → Result Value BridgeError
  object_of none = err (upstream (codes "upstream tool arguments must be a JSON object"))
  object_of (some fs) = ok (obj fs)

  parse_arguments : Text → Result Value BridgeError
  unfolding parsed object_of
  parse_arguments raw = if is_empty raw then ok (obj end) else do
    v ← parsed (codes "upstream tool arguments are not valid JSON: ") (codec.parse raw)
    object_of (as_object v)

  unfoldable pub tool_input : Option Value → Result Value BridgeError
  unfolding raw_arguments parse_arguments
  tool_input arguments = do raw ← raw_arguments arguments; parse_arguments (trim raw)

  unfoldable pub tool_block : Fields → ℕ → Text → Result Value BridgeError
  tool_block call i request_id = do
    function ←
        required (and_then (get_field call (codes "function")) as_object)
          (codes "upstream tool call has no function")
    name ←
        required (nonempty (get_str function (codes "name")))
          (codes "upstream tool call has no name")
    let id = unwrap_or (nonempty (get_str call (codes "id"))) (synthetic_tool_id request_id i)
    input ← tool_input (get_field function (codes "arguments"))
    ok (
        obj (
          field (codes "id") (str id) (
            field (codes "input") input (
              field (codes "name") (str name)
                (field (codes "type") (str (codes "tool_use")) end)))))

  tool_blocks : List Value → ℕ → Text → Result (List Value) BridgeError
  tool_blocks [] i request_id = ok []
  tool_blocks (v ∷ vs) i request_id = do
    object ← required (as_object v) (codes "upstream tool call must be an object")
    block ← tool_block object i request_id
    rest ← tool_blocks vs (i + 1) request_id
    ok (block ∷ rest)

  legacy_blocks : Option Fields → Text → Result (List Value) BridgeError
  legacy_blocks none request_id = ok []
  legacy_blocks (some call) request_id = do
    block ← tool_block (field (codes "function") (obj call) end) 0 request_id
    ok (block ∷ [])

  or_legacy : List Value → Option Fields → Text → Result (List Value) BridgeError
  unfolding legacy_blocks
  or_legacy [] call request_id = legacy_blocks call request_id
  or_legacy (v ∷ vs) call request_id = ok (v ∷ vs)

  unfoldable pub extract_tool_calls : Fields → Text → Result (List Value) BridgeError
  unfolding tool_blocks or_legacy
  extract_tool_calls message request_id = do
    calls ←
        tool_blocks (unwrap_or (and_then (get_field message (codes "tool_calls")) as_array) []) 0
          request_id
    or_legacy calls (and_then (get_field message (codes "function_call")) as_object) request_id

  text_value : Text → Value
  text_value s = obj (field (codes "text") (str s) (field (codes "type") (str (codes "text")) end))

  thinking_value : Text → Value
  thinking_value s = obj (
      field (codes "signature") (str (thinking_signature codec s))
        (field (codes "thinking") (str s) (field (codes "type") (str (codes "thinking")) end)))

  thinking_part : Option Text → List Value
  unfolding thinking_value
  thinking_part none = []
  thinking_part (some s) = thinking_value s ∷ []

  text_parts : List Text → List Value
  unfolding text_value
  text_parts [] = []
  text_parts ([] ∷ ss) = text_parts ss
  text_parts ((c ∷ s) ∷ ss) = text_value (c ∷ s) ∷ text_parts ss

  or_refusal : List Text → Option Text → List Text
  or_refusal [] refusal = push refusal []
  or_refusal (s ∷ ss) refusal = s ∷ ss

  or_blank : List Value → List Value
  unfolding text_value
  or_blank [] = text_value [] ∷ []
  or_blank (v ∷ vs) = v ∷ vs

  any_value : List Value → Bool
  any_value [] = false
  any_value (v ∷ vs) = true

  -- `.or_else` over the three names, then the text if it is not empty.
  reasoning : Fields → Option Text
  reasoning m = nonempty (
      and_then
        (or_else (get_field m (codes "reasoning_content"))
          (or_else (get_field m (codes "reasoning")) (get_field m (codes "thinking"))))
        as_str)

  unfoldable pub content_of : Fields → Text → Result (List Value × Bool) BridgeError
  unfolding thinking_part text_parts or_refusal or_blank any_value reasoning
  content_of m request_id = do
    texts ← extract_text_blocks (get_field m (codes "content"))
    calls ← extract_tool_calls m request_id
    let blocks = text_parts (or_refusal texts (nonempty (get_str m (codes "refusal"))))
    ok (or_blank (thinking_part (reasoning m) ++ blocks ++ calls), any_value calls)

  message_value : BridgeContext → Fields → Value → Fields → List Value × Bool → Value
  message_value ctx object value choice (content, has_tools) =
      let (prompt, completion) = usage_from value in
      obj (
        field (codes "content") (arr (from_list content)) (
          field (codes "id") (str (bridge_message_id ctx.request_id (get_str object (codes "id"))))
            (field (codes "model") (str ctx.public_model) (
              field (codes "role") (str (codes "assistant")) (
                field (codes "stop_reason")
                  (str (stop_reason (get_str choice (codes "finish_reason")) has_tools))
                  (field (codes "stop_sequence") null (
                    field (codes "type") (str (codes "message")) (
                      field (codes "usage")
                        (obj (
                          field (codes "cache_creation_input_tokens") (num 0) (
                            field (codes "cache_read_input_tokens") (num 0) (
                              field (codes "input_tokens")
                                (num (if ltb 0 prompt then prompt else ctx.estimated_input_tokens))
                                (field (codes "output_tokens") (num completion) end)))))
                        end))))))))

  no_error : Option Value → Result (Unit {0}) BridgeError
  no_error none = ok tt
  no_error (some e) = err (upstream (error_message e))

  build_from : BridgeContext → Value → Result Value BridgeError
  unfolding no_error message_value
  build_from ctx value = do
    object ← required (as_object value) (codes "upstream response must be a JSON object")
    unit ← no_error (get_field object (codes "error"))
    choice ←
        required
          (and_then (and_then (and_then (get_field object (codes "choices")) as_array) first)
            as_object)
          (codes "upstream response has no choices")
    message ←
        required (and_then (get_field choice (codes "message")) as_object)
          (codes "upstream choice has no message")
    content ← content_of message ctx.request_id
    ok (message_value ctx object value choice content)

  unfoldable pub build_message : Bytes → BridgeContext → Result Value BridgeError
  unfolding parsed build_from
  build_message body ctx = do
    value ← parsed (codes "invalid upstream JSON: ") (codec.parse_bytes body)
    build_from ctx value

  unfoldable pub openai_to_anthropic : Bytes → BridgeContext → Result Bytes BridgeError
  openai_to_anthropic body ctx = do
    value ← build_message body ctx
    ok (codec.utf8 (codec.encode value))
