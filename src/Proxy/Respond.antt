-- ===== src/Proxy/Respond.antt =====
-- `forward_backend_response` and `forward_bridge_response` of src/proxy/mod.rs: the answer to the
-- client, and the one report of the request. The HTTP client's views of a response are its fields.
use brigh_to_router.Prelude.{
  ℕ, Bool, true, false, not, ◌||◌, Option, none, some, List, [], ◌∷◌, ◌++◌, leb, if◌then◌else◌,
}
use brigh_to_router.Prelude.Result.{Result, ok, err}
use brigh_to_router.Prelude.Text.{Text, codes}
use brigh_to_router.Contract.Config.{BackendFormat, open_ai}
use brigh_to_router.Json.{Value, Codec, Bytes}
use brigh_to_router.Bridge.{
  BridgeContext, BridgeError, message, nonstream_response_limit, error_body_limit,
  anthropic_error_body, translate_upstream_error,
}
use brigh_to_router.Bridge.Limited.{read_body_limited}
use brigh_to_router.Bridge.Response.{build_message, decimal}
use brigh_to_router.Bridge.Stream.Message.{message_to_sse}
use brigh_to_router.Bridge.Stream.Render.{render_all}
use brigh_to_router.Ledger.Sink.{Channels}
use brigh_to_router.Proxy.Usage.{UsageAccumulator, parse_usage_from_body}
use brigh_to_router.Proxy.Headers.{
  HeaderMap, Headers, Response, build_response, bridge_json_response, bridge_sse_response,
}
use brigh_to_router.Proxy.Pump.{
  Next, Passed, usage_buffer_limit, pump_stream, pump_body, pump_bridge,
}
use brigh_to_router.Proxy.Reporter.{CompletionReporter, Report, Clock, AppState, finish}

-- A response of a backend: its type in lower case, and its body as a whole, in chunks, or as a stream
-- with its timeouts.
pub record Upstream : Type 0 where
  pub status : ℕ
  pub headers : Headers
  pub content_type : Text
  pub content_length : Option ℕ
  pub bytes : Result Bytes Text
  pub chunks : List (Result Bytes Text)
  pub stream : List Next

-- What the package does for texts and statuses.
pub record Tools : Type 0 where
  pub codec : Codec
  pub chunk_may_have_usage : Bytes → Bool
  pub contains : Text → Text → Bool

-- The report of a response whose usage was read.
abbrev pub used : ℕ → UsageAccumulator → Bool → Option Text → Report
used status acc aborted e = record {
  status = status;
  input_tokens = acc.input_tokens;
  output_tokens = acc.output_tokens;
  estimated = not acc.seen_usage;
  client_aborted = aborted;
  error_class = e;
}

-- The report of a response without usage.
abbrev pub unread : ℕ → Text → Report
unread status e = record {
  status = status;
  input_tokens = 0;
  output_tokens = 0;
  estimated = true;
  client_aborted = false;
  error_class = some e;
}

-- `unwrap_or_default` on a body.
default_body : Result Bytes BridgeError → Bytes
default_body (ok body) = body
default_body (err e) = []

short_enough : Option ℕ → Bool
short_enough none = false
short_enough (some n) = leb n usage_buffer_limit

module _ (H : HeaderMap) (tools : Tools) (accepts : ℕ → Bool) where
  -- The answer, with the chunks of its body, and the report.
  abbrev pub Answer : Type 0
  Answer = Response H (List Bytes) × Report

  -- A body in one piece.
  single : Response H Bytes → Response H (List Bytes)
  single r = record { status = r.status; headers = r.headers; body = r.body ∷ [] }

  upstream_failed : ℕ → Text
  upstream_failed status = codes "upstream returned HTTP " ++ decimal status

  bridge_error : Upstream → BridgeContext → Answer
  unfolding upstream_failed default_body single
  bridge_error u bridge =
      let fallback = upstream_failed u.status in
      let body = default_body (read_body_limited u.content_length u.chunks error_body_limit) in
      (
        single (
            bridge_json_response H u.status
              (translate_upstream_error tools.codec u.status body fallback) bridge.request_id),
        unread u.status fallback,
      )

  -- The answer in JSON to a request that got no usable response.
  bad_gateway : BridgeContext → Text → Response H (List Bytes)
  unfolding single
  bad_gateway bridge m =
      single (bridge_json_response H 502 (anthropic_error_body tools.codec 502 m) bridge.request_id)

  -- A message is printed, or made into a stream. Printing JSON values does not fail.
  bridge_message :
      Bool → Upstream → BridgeContext → UsageAccumulator → Result Value BridgeError → Answer
  unfolding bad_gateway single
  bridge_message stream u bridge acc (err e) =
      (bad_gateway bridge (message e), used 502 acc false (some (message e)))
  bridge_message true u bridge acc (ok v) = (
    bridge_sse_response H u.status
        (render_all tools.codec (message_to_sse tools.codec v bridge) ∷ []) bridge.request_id,
    used u.status acc false none,
  )
  bridge_message false u bridge acc (ok v) = (
    single (
        bridge_json_response H u.status (tools.codec.utf8 (tools.codec.encode v))
          bridge.request_id),
    used u.status acc false none,
  )

  bridge_body : Bool → Upstream → BridgeContext → Result Bytes BridgeError → Answer
  unfolding bad_gateway bridge_message
  bridge_body stream u bridge (err e) = (bad_gateway bridge (message e), unread 502 (message e))
  bridge_body stream u bridge (ok body) =
      bridge_message stream u bridge (parse_usage_from_body tools.codec body open_ai)
        (build_message tools.codec body bridge)

  bridge_stream : Upstream → BridgeContext → Answer
  bridge_stream u bridge =
      let p = pump_bridge tools.codec tools.chunk_may_have_usage accepts bridge u.stream in
      (
        bridge_sse_response H u.status p.out bridge.request_id,
        used u.status p.usage.acc p.usage.client_aborted p.usage.error_class,
      )

  pub forward_bridge_response : Bool → Upstream → BridgeContext → Answer
  unfolding bridge_error bridge_body bridge_stream
  forward_bridge_response stream u bridge =
      if leb 400 u.status
      then bridge_error u bridge
      else if not stream
          || tools.contains u.content_type (codes "application/json")
          || tools.contains u.content_type (codes "+json")
      then bridge_body stream u bridge
          (read_body_limited u.content_length u.chunks nonstream_response_limit)
      else bridge_stream u bridge

  passed_on : Upstream → Passed → Answer
  passed_on u p = (
    build_response H u.status u.headers p.out,
    used u.status p.usage.acc p.usage.client_aborted p.usage.error_class,
  )

  whole_body : BackendFormat → Upstream → Result Bytes Text → Answer
  whole_body format u (ok body) = (
    build_response H u.status u.headers (body ∷ []),
    used u.status (parse_usage_from_body tools.codec body format) false none,
  )
  whole_body format u (err e) = (
    build_response H 502 [] (tools.codec.utf8 (codes "backend read failed") ∷ []),
    unread u.status e,
  )

  pub forward_plain_response : Bool → BackendFormat → Upstream → Answer
  unfolding passed_on whole_body short_enough
  forward_plain_response stream format u =
      if stream
      then passed_on u (pump_stream tools.codec tools.chunk_may_have_usage accepts format u.stream)
      else if short_enough u.content_length
      then whole_body format u u.bytes
      else passed_on u (pump_body tools.codec tools.chunk_may_have_usage accepts format u.stream)

  pub answer_of : Bool → BackendFormat → Option BridgeContext → Upstream → Answer
  answer_of stream format (some bridge) u = forward_bridge_response stream u bridge
  answer_of stream format none u = forward_plain_response stream format u

  -- The report is made by whoever holds the reporter, which is dropped afterwards.
  unfoldable pub forward_backend_response :
      (channels : Channels)
      → Clock
      → Upstream
      → BackendFormat
      → Option BridgeContext
      → CompletionReporter × AppState channels
      → Response H (List Bytes) × (CompletionReporter × AppState channels)
  forward_backend_response channels clock u format bridge (r, s) =
      let (response, report) = answer_of r.stream format bridge u in
      (response, finish channels clock report (r, s))
