-- ===== src/Bridge/Request/Body.antt =====
-- The system texts and the tools of src/bridge/request.rs.
use brigh_to_router.Prelude.{Bool, false, Option, none, some, List, [], ◌∷◌, ◌++◌, if◌then◌else◌}
use brigh_to_router.Prelude.Eq.{list_beq}
use brigh_to_router.Prelude.Result.{Result, ok, err}
use brigh_to_router.Prelude.Text.{Text, codes, trim}
use brigh_to_router.Contract.Config.{unwrap_or}
use brigh_to_router.Json.{
  Value, str, arr, obj, Fields, end, field, get_field, get_str, as_bool, as_object, as_array,
  is_null, and_then, nonempty, is_empty, from_list,
}
use brigh_to_router.Bridge.{BridgeError, unsupported}
use brigh_to_router.Bridge.Response.{◌>>=◌}
use brigh_to_router.Bridge.Request.Content.{needed, join_parts, expect_block_type}

-- An option that is not null.
pub present : Option Value → Option Value
present none = none
present (some v) = if is_null v then none else some v

-- The text of a system block, whose kind is named in the refusal by `front`.
system_block : Text → Fields → Text → Result Text BridgeError
system_block front object kind =
    if list_beq kind (codes "text")
    then needed (get_str object (codes "text")) (codes "system text block is missing text")
    else err (unsupported (front ++ kind ++ codes "' is not supported"))

system_blocks : List Value → Result (List Text) BridgeError
unfolding system_block
system_blocks [] = ok []
system_blocks (v ∷ vs) = do
  object ← needed (as_object v) (codes "system block must be an object")
  typed ← expect_block_type object (codes "system")
  kind ← needed (get_str object (codes "type")) (codes "system block type is missing")
  text ← system_block (codes "system block type '") object kind
  rest ← system_blocks vs
  ok (text ∷ rest)

parse_system_value : Value → Result (Option Text) BridgeError
unfolding system_blocks
parse_system_value (str s) = ok (some s)
parse_system_value v = do
  blocks ← needed (as_array v) (codes "system must be a string or an array of text blocks")
  parts ← system_blocks blocks
  ok (some (join_parts parts))

unfoldable pub parse_system : Option Value → Result (Option Text) BridgeError
unfolding present parse_system_value
parse_system system = elim (present system) [ none ↦ ok none | some v ↦ parse_system_value v ]

content_blocks : List Value → Result (List Text) BridgeError
unfolding system_block
content_blocks [] = ok []
content_blocks (v ∷ vs) = do
  object ← needed (as_object v) (codes "system content block must be an object")
  kind ← needed (get_str object (codes "type")) (codes "system content block type is missing")
  text ← system_block (codes "system-role content block type '") object kind
  rest ← content_blocks vs
  ok (text ∷ rest)

content_text : Value → Result Text BridgeError
unfolding content_blocks
content_text (str s) = ok s
content_text v = do
  blocks ← needed (as_array v) (codes "system content must be a string or an array")
  parts ← content_blocks blocks
  ok (join_parts parts)

unfoldable pub unless_blank : Text → Option Text
unless_blank s = if is_empty (trim s) then none else some s

unfoldable pub system_message_text : Value → Result (Option Text) BridgeError
unfolding content_text unless_blank
system_message_text content = do text ← content_text content; ok (unless_blank text)

convert_tool : Value → Result Value BridgeError
convert_tool tool = do
  object ← needed (as_object tool) (codes "tool must be an object")
  name ← needed (nonempty (get_str object (codes "name"))) (codes "tool name is missing")
  schema ←
      needed (and_then (get_field object (codes "input_schema")) as_object)
        (codes "tool input_schema must be an object")
  let named = field (codes "name") (str name) (field (codes "parameters") (obj schema) end)
  let described : Fields = elim (get_str object (codes "description")) [
    | none ↦ named
    | some d ↦ field (codes "description") (str d) named
  ]
  ok (
      obj (
        field (codes "function") (obj described)
          (field (codes "type") (str (codes "function")) end)))

each_tool : List Value → Result (List Value) BridgeError
unfolding convert_tool
each_tool [] = ok []
each_tool (v ∷ vs) = do tool ← convert_tool v; rest ← each_tool vs; ok (tool ∷ rest)

unfoldable pub convert_tools : Value → Result Value BridgeError
unfolding each_tool
convert_tools tools = do
  vs ← needed (as_array tools) (codes "tools must be an array")
  out ← each_tool vs
  ok (arr (from_list out))

chosen : Text → Fields → Result Value BridgeError
chosen kind object =
    if list_beq kind (codes "auto")
    then ok (str (codes "auto"))
    else if list_beq kind (codes "any")
    then ok (str (codes "required"))
    else if list_beq kind (codes "none")
    then ok (str (codes "none"))
    else if list_beq kind (codes "tool")
    then needed (nonempty (get_str object (codes "name"))) (codes "tool_choice name is missing")
      >>= (λ name. ok (
          obj (
            field (codes "function") (obj (field (codes "name") (str name) end))
              (field (codes "type") (str (codes "function")) end))))
    else err (unsupported (codes "tool_choice type '" ++ kind ++ codes "' is not supported"))

-- The choice, and whether calls in parallel are refused.
unfoldable pub convert_tool_choice : Value → Result (Value × Bool) BridgeError
unfolding chosen
convert_tool_choice tool_choice = do
  object ← needed (as_object tool_choice) (codes "tool_choice must be an object")
  kind ← needed (get_str object (codes "type")) (codes "tool_choice type is missing")
  choice ← chosen kind object
  ok (
    choice,
    unwrap_or (and_then (get_field object (codes "disable_parallel_tool_use")) as_bool) false,
  )
