-- ===== src/Handlers/Body.antt =====
-- How src/handlers.rs reads the body of a request: `read_incoming_body`, `collect_remaining_body` and
-- `into_proxy_body`. The chunks of the body may be read errors; the head of a body is parsed by a
-- package, and `scan` is what is seen of it in a prefix.
pub mod Whole
use brigh_to_router.Prelude.{
  ℕ, Bool, true, false, Option, none, some, List, [], ◌∷◌, ◌++◌, length, ltb, leb, if◌then◌else◌,
  saturating_add,
}
use brigh_to_router.Prelude.Result.{Result, ok, err}
use brigh_to_router.Prelude.Text.{Text}
use brigh_to_router.Contract.Config.{unwrap_or}
use brigh_to_router.Json.{Bytes}
use brigh_to_router.Proxy.Attempt.{ProxyRequestBody, buffered, streaming}

pub record RequestHead : Type 0 where
  pub model : Text
  pub stream : Bool
  pub stream_options_present : Bool

pub data BodyReadError : Type 0 where
  too_large read_failed invalid_json : BodyReadError

pub data PrefixScan : Type 0 where
  need_more : PrefixScan
  found : RequestHead → PrefixScan

-- The chunks that are still to come; a streamed body has them as its rest.
abbrev pub Chunks : Type 0
Chunks = List (Result Bytes Text)

pub data IncomingBody : Type 0 where
  whole : RequestHead → Bytes → IncomingBody
  streaming_candidate : RequestHead → Bytes → Chunks → ℕ → IncomingBody

unfoldable pub body_len : IncomingBody → ℕ
body_len (whole head body) = length body
body_len (streaming_candidate head prefix rest content_length) = content_length

unfoldable pub head_of : IncomingBody → RequestHead
head_of (whole head body) = head
head_of (streaming_candidate head prefix rest content_length) = head

abbrev pub fast_upload_min_bytes : ℕ
fast_upload_min_bytes = 65_536

abbrev pub head_prefix_limit : ℕ
head_prefix_limit = 16_384

unfoldable pub collect_remaining_body : ℕ → Bytes → Chunks → Result Bytes BodyReadError
collect_remaining_body max_body_bytes out [] = ok out
collect_remaining_body max_body_bytes out (err e ∷ rest) = err read_failed
collect_remaining_body max_body_bytes out (ok chunk ∷ rest) =
    let later = collect_remaining_body max_body_bytes (out ++ chunk) rest in
    if ltb max_body_bytes (saturating_add (length out) (length chunk)) then err too_large else later

exceeds : Option ℕ → ℕ → Bool
exceeds none max_body_bytes = false
exceeds (some n) max_body_bytes = ltb max_body_bytes n

is_long : Option ℕ → Bool
is_long none = false
is_long (some n) = leb fast_upload_min_bytes n

module _ (parse_head : Bytes → Option RequestHead) (scan : Bytes → PrefixScan)
    (max_body_bytes : ℕ) where
  with_head : Bytes → Option RequestHead → Result IncomingBody BodyReadError
  with_head body none = err invalid_json
  with_head body (some head) = ok (whole head body)

  parsed : Result Bytes BodyReadError → Result IncomingBody BodyReadError
  unfolding with_head
  parsed (err e) = err e
  parsed (ok body) = with_head body (parse_head body)

  -- After a chunk of the prefix: a head whose body need not be changed ends the reading.
  after_scan :
      Bytes
      → Chunks
      → ℕ
      → PrefixScan
      → Result IncomingBody BodyReadError
      → Result IncomingBody BodyReadError
  after_scan prefix rest content_length need_more later = later
  after_scan prefix rest content_length (found head) later =
      if head.stream then later else ok (streaming_candidate head prefix rest content_length)

  read_prefix : ℕ → Bytes → Chunks → Result IncomingBody BodyReadError
  unfolding parsed after_scan
  read_prefix content_length prefix [] = parsed (ok prefix)
  read_prefix content_length prefix (err e ∷ rest) = err read_failed
  read_prefix content_length prefix (ok chunk ∷ rest) =
      let longer = prefix ++ chunk in
      let next = read_prefix content_length longer rest in
      let all = parsed (collect_remaining_body max_body_bytes longer rest) in
      if ltb max_body_bytes (saturating_add (length prefix) (length chunk))
      then err too_large
      else after_scan longer rest content_length (scan longer)
          (if leb head_prefix_limit (length longer) then all else next)

  unfoldable pub read_incoming_body : Option ℕ → Chunks → Result IncomingBody BodyReadError
  unfolding exceeds is_long parsed read_prefix
  read_incoming_body content_length chunks =
      if exceeds content_length max_body_bytes
      then err too_large
      else if is_long content_length
      then read_prefix (unwrap_or content_length 0) [] chunks
      else parsed (collect_remaining_body max_body_bytes [] chunks)

  as_buffered :
      Result IncomingBody BodyReadError → Result (RequestHead × ProxyRequestBody) BodyReadError
  as_buffered (err e) = err e
  as_buffered (ok (whole head body)) = ok (head, buffered body)
  as_buffered (ok (streaming_candidate head prefix rest n)) = ok (head, streaming prefix n)

  unfoldable pub into_proxy_body :
      Bool → IncomingBody → Result (RequestHead × ProxyRequestBody) BodyReadError
  unfolding as_buffered parsed
  into_proxy_body allow_streaming_upload (whole head body) = ok (head, buffered body)
  into_proxy_body true (streaming_candidate head prefix rest content_length) =
      ok (head, streaming prefix content_length)
  into_proxy_body false (streaming_candidate head prefix rest content_length) =
      as_buffered (parsed (collect_remaining_body max_body_bytes prefix rest))
