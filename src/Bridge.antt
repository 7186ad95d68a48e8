-- ===== src/Bridge.antt =====
-- src/bridge/mod.rs: what the protocol bridge between Anthropic Messages and OpenAI Chat Completions
-- shares. A text is its code points, and the parser and printer of JSON are a parameter.
pub mod Limited
pub mod Request
pub mod Response
pub mod Stream
pub mod Tests
use brigh_to_router.Prelude.{
  ℕ, ◌+◌, ◌*◌, ◌/◌, ◌%◌, ◌≤◌, zero, suc, Bool, true, false, ◌&&◌, ◌||◌, Option, none, some, List,
  [], ◌∷◌, ◌++◌, length, take, ltb, leb, ◌==◌, if◌then◌else◌, u64_mod,
}
use Prim.Native.Nat.{bit_xor}
use brigh_to_router.Prelude.Eq.{list_beq}
use brigh_to_router.Prelude.Result.{Result, ok, err}
use brigh_to_router.Prelude.Text.{Text, codes}
use brigh_to_router.Contract.Config.{or_else, unwrap_or}
use brigh_to_router.Json.{
  Value, str, obj, field, end, Bytes, Codec, get, as_str, nonempty, is_empty, and_then,
}

abbrev pub nonstream_response_limit : ℕ
nonstream_response_limit = 8_388_608

abbrev pub error_body_limit : ℕ
error_body_limit = 65_536

abbrev pub sse_line_limit : ℕ
sse_line_limit = 1_048_576

pub record BridgeContext : Type 0 where
  pub public_model : Text
  pub request_id : Text
  pub estimated_input_tokens : ℕ

pub data BridgeError : Type 0 where
  invalid_request unsupported upstream : Text → BridgeError
  too_large : BridgeError

unfoldable pub status : BridgeError → ℕ
status (invalid_request m) = 400
status (unsupported m) = 400
status (upstream m) = 502
status too_large = 502

unfoldable pub message : BridgeError → Text
message (invalid_request m) = m
message (unsupported m) = m
message (upstream m) = m
message too_large = codes "bridge response exceeded the size limit"

abbrev fnv_step : ℕ → ℕ → ℕ
fnv_step hash byte = bit_xor hash byte * 0x100000001b3 % u64_mod

fnv : ℕ → Bytes → ℕ
fnv hash [] = hash
fnv hash (b ∷ bs) = fnv (fnv_step hash b) bs

hex_digit : ℕ → ℕ
hex_digit d = if ltb d 10 then d + b'0' else d + 87

-- `{:016x}`.
hex : ℕ → ℕ → Text
unfolding hex_digit
hex zero n = []
hex (suc w) n = hex w (n / 16) ++ hex_digit (n % 16) ∷ []

unfoldable pub is_alphanumeric : ℕ → Bool
is_alphanumeric c =
    (leb b'0' c && leb c b'9') || (leb b'a' c && leb c b'z') || (leb b'A' c && leb c b'Z')

is_safe : ℕ → Bool
unfolding is_alphanumeric
is_safe c = is_alphanumeric c || c == b'-' || c == b'_'

unfoldable pub keep : (ℕ → Bool) → Text → Text
keep p [] = []
keep p (c ∷ s) = if p c then c ∷ keep p s else keep p s

prefixed : Text → Text
prefixed [] = codes "msg_bridge"
prefixed (c ∷ s) = codes "msg_bridge_" ++ c ∷ s

id_or : Text → Option Text → Text
unfolding prefixed is_safe keep
id_or request_id (some id) = id
id_or request_id none = prefixed (take 48 (keep is_safe request_id))

unfoldable pub bridge_message_id : Text → Option Text → Text
unfolding id_or
bridge_message_id request_id up = id_or request_id (nonempty up)

unfoldable pub anthropic_error_type : ℕ → Text
anthropic_error_type s =
    if s == 400 || s == 422
    then codes "invalid_request_error"
    else if s == 401
    then codes "authentication_error"
    else if s == 403
    then codes "permission_error"
    else if s == 404
    then codes "not_found_error"
    else if s == 413
    then codes "request_too_large"
    else if s == 429
    then codes "rate_limit_error"
    else if s == 503 || s == 529
    then codes "overloaded_error"
    else codes "api_error"

unfoldable pub truncate_message : Text → Text
truncate_message m = if leb (length m) 2_000 then m else take 2_000 m ++ 0x2026 ∷ []

-- The error envelope as a value.
unfoldable pub error_value : ℕ → Text → Value
error_value s m = obj (
    field (codes "error")
      (obj (
        field (codes "message") (str (truncate_message m))
          (field (codes "type") (str (anthropic_error_type s)) end)))
      (field (codes "type") (str (codes "error")) end))

module _ (codec : Codec) where
  unfoldable pub sse_event : Text → Value → Bytes
  sse_event event v =
      codec.utf8 (codes "event: ")
      ++ codec.utf8 event
      ++ b'\n' ∷ codec.utf8 (codes "data: ")
      ++ codec.utf8 (codec.encode v)
      ++ b'\n' ∷ b'\n' ∷ []

  pub anthropic_error_body : ℕ → Text → Bytes
  anthropic_error_body s m = codec.utf8 (codec.encode (error_value s m))

  parsed_or_plain : Result Value Text → Value
  parsed_or_plain (ok v) = v
  parsed_or_plain (err e) = obj (field (codes "type") (str (codes "error")) end)

  pub anthropic_sse_error : ℕ → Text → Bytes
  unfolding parsed_or_plain
  anthropic_sse_error s m =
      sse_event (codes "error") (parsed_or_plain (codec.parse_bytes (anthropic_error_body s m)))

  unfoldable pub thinking_signature : Text → Text
  unfolding fnv hex
  thinking_signature text =
      codes "brighto-bridge-" ++ hex 16 (fnv 0xcbf29ce484222325 (codec.utf8 text))

is_type_error : Option Text → Bool
is_type_error none = false
is_type_error (some t) = list_beq t (codes "error")

has_error : Option Value → Bool
has_error none = false
has_error (some v) = true

unfoldable pub is_error_value : Value → Bool
unfolding is_type_error has_error
is_error_value v =
    is_type_error (and_then (get v (codes "type")) as_str) && has_error (get v (codes "error"))

-- `/error/message`, else `message`.
unfoldable pub upstream_message : Value → Option Text
upstream_message v =
    or_else (and_then (and_then (get v (codes "error")) (λ e. get e (codes "message"))) as_str)
      (and_then (get v (codes "message")) as_str)

module _ (codec : Codec) where
  translated : ℕ → Bytes → Text → Result Value Text → Bytes
  translated s body fallback (err e) = anthropic_error_body codec s fallback
  translated s body fallback (ok v) =
      if is_error_value v
      then body
      else anthropic_error_body codec s (unwrap_or (upstream_message v) fallback)

  unfoldable pub translate_upstream_error : ℕ → Bytes → Text → Bytes
  unfolding translated
  translate_upstream_error s body fallback = translated s body fallback (codec.parse_bytes body)

  is_error_result : Result Value Text → Bool
  is_error_result (ok v) = is_error_value v
  is_error_result (err e) = false

  unfoldable pub is_anthropic_error_body : Bytes → Bool
  unfolding is_error_result
  is_anthropic_error_body body = is_error_result (codec.parse_bytes body)
