-- ===== src/Bridge/Request/Content.antt =====
-- The messages of src/bridge/request.rs. A function that pushes messages returns what it pushes.
use brigh_to_router.Prelude.{
  Bool, false, ◌||◌, Option, none, some, List, [], ◌∷◌, ◌++◌, if◌then◌else◌,
}
use brigh_to_router.Prelude.Eq.{list_beq}
use brigh_to_router.Prelude.Result.{Result, ok, err}
use brigh_to_router.Prelude.Text.{Text, codes}
use brigh_to_router.Contract.Config.{unwrap_or}
use brigh_to_router.Json.{
  Value, str, arr, obj, Fields, end, field, get_field, get_str, as_bool, as_object, as_array,
  and_then, nonempty, from_list,
}
use brigh_to_router.Bridge.{BridgeError, invalid_request, unsupported}
use brigh_to_router.Bridge.Response.{◌>>=◌}

-- `ok_or_else` with an invalid request.
abbrev pub needed {ℓ} : {A : Type ℓ} → Option A → Text → Result A BridgeError
needed none m = err (invalid_request m)
needed (some a) m = ok a

unfoldable pub join_parts : List Text → Text
join_parts [] = []
join_parts (s ∷ []) = s
join_parts (s ∷ t ∷ ts) = s ++ (b'\n' ∷ b'\n' ∷ join_parts (t ∷ ts))

pub expect_block_type : Fields → Text → Result (Unit {0}) BridgeError
expect_block_type object role = elim (get_str object (codes "type")) [
  | none ↦ err (invalid_request (role ++ codes " content block type is missing"))
  | some kind ↦ ok tt
]

pub unsupported_kind : Text → Text → Text → BridgeError
unsupported_kind front kind back = unsupported (front ++ kind ++ back)

pub text_part : Text → Value
text_part s = obj (field (codes "text") (str s) (field (codes "type") (str (codes "text")) end))

unfoldable pub message_of : Text → Value → Value
message_of role content =
    obj (field (codes "content") content (field (codes "role") (str role) end))

base64_url : Fields → Result Text BridgeError
base64_url source = do
  media_type ←
      needed (nonempty (get_str source (codes "media_type")))
        (codes "base64 image media_type is missing")
  payload ← needed (get_str source (codes "data")) (codes "base64 image data is missing")
  ok (codes "data:" ++ media_type ++ codes ";base64," ++ payload)

image_url : Text → Fields → Result Text BridgeError
unfolding base64_url unsupported_kind
image_url kind source =
    if list_beq kind (codes "base64")
    then base64_url source
    else if list_beq kind (codes "url")
    then needed (nonempty (get_str source (codes "url"))) (codes "image url is missing")
    else err (unsupported_kind (codes "image source type '") kind (codes "' is not supported"))

pub convert_image : Fields → Result Value BridgeError
unfolding image_url
convert_image object = do
  source ←
      needed (and_then (get_field object (codes "source")) as_object)
        (codes "image source is missing")
  kind ← needed (get_str source (codes "type")) (codes "image source type is missing")
  url ← image_url kind source
  ok (
      obj (
        field (codes "image_url") (obj (field (codes "url") (str url) end))
          (field (codes "type") (str (codes "image_url")) end)))

result_part : Text → Fields → Result Value BridgeError
unfolding text_part unsupported_kind
result_part kind object =
    if list_beq kind (codes "text")
    then needed (get_str object (codes "text")) (codes "tool_result text block is missing text")
      >>= (λ s. ok (text_part s))
    else if list_beq kind (codes "image")
    then convert_image object
    else err (unsupported_kind (codes "tool_result block type '") kind (codes "' is not supported"))

result_parts : List Value → Result (List Value) BridgeError
unfolding result_part
result_parts [] = ok []
result_parts (v ∷ vs) = do
  object ← needed (as_object v) (codes "tool_result block must be an object")
  kind ← needed (get_str object (codes "type")) (codes "tool_result block type is missing")
  part ← result_part kind object
  rest ← result_parts vs
  ok (part ∷ rest)

-- A single part that is a text is sent as a text.
pub lone_text : List Value → Value
lone_text (obj fs ∷ []) = elim (get_str fs (codes "text")) [
  | none ↦ arr (from_list (obj fs ∷ []))
  | some s ↦ str s
]
lone_text vs = arr (from_list vs)

convert_tool_result_content : Value → Bool → Result Value BridgeError
unfolding text_part result_parts
convert_tool_result_content (str s) is_error =
    ok (str (if is_error then codes "Error: " ++ s else s))
convert_tool_result_content v is_error = do
  blocks ← needed (as_array v) (codes "tool_result content must be a string or an array")
  parts ← result_parts blocks
  ok (lone_text ((if is_error then text_part (codes "Error:") ∷ [] else []) ++ parts))

unfoldable pub convert_tool_result : Fields → Result Value BridgeError
unfolding convert_tool_result_content
convert_tool_result object = do
  id ←
      needed (nonempty (get_str object (codes "tool_use_id")))
        (codes "tool_result tool_use_id is missing")
  let is_error = unwrap_or (and_then (get_field object (codes "is_error")) as_bool) false
  content ← needed (get_field object (codes "content")) (codes "tool_result content is missing")
  converted ← convert_tool_result_content content is_error
  ok (
      obj (
        field (codes "content") converted
          (field (codes "role") (str (codes "tool")) (field (codes "tool_call_id") (str id) end))))

-- The tool messages and the parts of a user's message, in their orders.
abbrev pub Parts : Type 0
Parts = List Value × List Value

pub is_thinking : Text → Bool
is_thinking kind = list_beq kind (codes "thinking") || list_beq kind (codes "redacted_thinking")

unfoldable pub user_block : Text → Fields → Result Parts BridgeError
unfolding text_part is_thinking unsupported_kind
user_block kind object =
    if list_beq kind (codes "text")
    then needed (get_str object (codes "text")) (codes "text block is missing text")
      >>= (λ s. ok ([], text_part s ∷ []))
    else if list_beq kind (codes "image")
    then convert_image object >>= (λ image. ok ([], image ∷ []))
    else if list_beq kind (codes "tool_result")
    then convert_tool_result object >>= (λ result. ok (result ∷ [], []))
    else if is_thinking kind
    then ok ([], [])
    else err
        (unsupported_kind (codes "user content block type '") kind (codes "' is not supported"))

unfoldable pub user_blocks : List Value → Result Parts BridgeError
unfolding user_block
user_blocks [] = ok ([], [])
user_blocks (v ∷ vs) = do
  object ← needed (as_object v) (codes "content block must be an object")
  typed ← expect_block_type object (codes "user")
  kind ← needed (get_str object (codes "type")) (codes "content block type is missing")
  block ← user_block kind object
  rest ← user_blocks vs
  ok (block.0 ++ rest.0, block.1 ++ rest.1)

unfoldable pub user_message : List Value → List Value
user_message [] = []
user_message (v ∷ vs) = message_of (codes "user") (lone_text (v ∷ vs)) ∷ []

unfoldable pub convert_user_message : Value → Result (List Value) BridgeError
unfolding user_blocks user_message
convert_user_message (str s) = ok (message_of (codes "user") (str s) ∷ [])
convert_user_message v = do
  blocks ← needed (as_array v) (codes "user content must be a string or an array")
  converted ← user_blocks blocks
  ok (converted.0 ++ user_message converted.1)
