-- ===== src/Proxy/Pump.antt =====
-- The tasks that pass a response on as it comes, in `forward_backend_response` and
-- `forward_bridge_response` of src/proxy/mod.rs. What the upstream gives, the package's stream with its
-- timeout, is a list: its end is the end of the stream. `accepts` says whether the n-th send of a task
-- reaches the client.
pub mod Relay
pub mod Complete
use brigh_to_router.Prelude.{
  ℕ, ◌+◌, Bool, true, false, not, ◌&&◌, Option, none, some, List, [], ◌∷◌, ◌++◌, length, leb,
  if◌then◌else◌, saturating_add,
}
use brigh_to_router.Prelude.Text.{Text, codes}
use brigh_to_router.Contract.Config.{BackendFormat, open_ai}
use brigh_to_router.Json.{Codec, Bytes, is_empty}
use brigh_to_router.Bridge.{BridgeContext, BridgeError, message}
use brigh_to_router.Bridge.Stream.Events.{SseTranslator, Event, Emit, new, abort}
use brigh_to_router.Bridge.Stream.Feed
use brigh_to_router.Bridge.Stream.Feed.{is_finished, take_error}
use brigh_to_router.Bridge.Stream.Render.{render_all}
use brigh_to_router.Proxy.Usage.{UsageAccumulator, default, parse_usage_from_body}
use brigh_to_router.Proxy.Tap
use brigh_to_router.Proxy.Tap.{Tapped, fresh}

-- What the next read of the upstream gives.
pub data Next : Type 0 where
  chunk : Bytes → Next
  broken : Text → Next
  idle : Next

pub record Usage : Type 0 where
  pub acc : UsageAccumulator
  pub client_aborted : Bool
  pub error_class : Option Text

-- What went to the client, in order, and what is reported.
pub record Passed : Type 0 where
  pub out : List Bytes
  pub usage : Usage

-- `NONSTREAM_USAGE_BUFFER_LIMIT`.
abbrev pub usage_buffer_limit : ℕ
usage_buffer_limit = 1_048_576

-- The task of a bridged stream, which sends what the translator gives, if anything.
pub record Bridged : Type 0 where
  pub tapped : Tapped
  pub translator : SseTranslator
  pub out : List Bytes
  pub sends : ℕ
  pub client_aborted : Bool
  pub error_class : Option Text

-- The task of a plain response: the body is kept for its usage as long as it is short.
pub keep : Bytes → Bytes × Bool → Bytes × Bool
keep bytes (buffer, false) = (buffer, false)
keep bytes (buffer, true) =
    if leb (saturating_add (length buffer) (length bytes)) usage_buffer_limit
    then (buffer ++ bytes, true)
    else ([], false)

pub opened : BridgeContext → Bridged
opened bridge = record {
  tapped = (fresh, default);
  translator = new bridge;
  out = [];
  sends = 0;
  client_aborted = false;
  error_class = none;
}

-- The translator's own error counts before the stream's.
pub class_of : Option BridgeError → Option Text → Option Text
class_of none e = e
class_of (some b) e = some (message b)

module _ (codec : Codec) (chunk_may_have_usage : Bytes → Bool) (accepts : ℕ → Bool) where
  -- The task of a plain stream: every chunk is tapped and sent on as it is.
  pub stream_turn :
      BackendFormat
      → ℕ
      → List Next
      → Tapped
      → List Bytes
      → List Bytes × (Tapped × (Bool × Option Text))
  stream_turn format n [] t out = (out, (t, (false, none)))
  stream_turn format n (broken e ∷ rest) t out = (out, (t, (false, some e)))
  stream_turn format n (idle ∷ rest) t out = (out, (t, (false, some (codes "idle timeout"))))
  stream_turn format n (chunk bytes ∷ rest) t out =
      let tapped = Tap.feed codec chunk_may_have_usage format bytes t in
      let later = stream_turn format (n + 1) rest tapped (out ++ bytes ∷ []) in
      if accepts n then later else (out, (tapped, (true, none)))

  ended : BackendFormat → List Bytes × (Tapped × (Bool × Option Text)) → Passed
  ended format (out, (t, (aborted, e))) = record {
    out = out;
    usage = record {
      acc = Tap.finish codec chunk_may_have_usage format t;
      client_aborted = aborted;
      error_class = e;
    };
  }

  unfoldable pub pump_stream : BackendFormat → List Next → Passed
  unfolding stream_turn ended
  pump_stream format nexts = ended format (stream_turn format 0 nexts (fresh, default) [])

  pub body_turn :
      ℕ
      → List Next
      → Bytes × Bool
      → List Bytes
      → List Bytes × ((Bytes × Bool) × (Bool × Option Text))
  unfolding keep
  body_turn n [] b out = (out, (b, (false, none)))
  body_turn n (broken e ∷ rest) b out = (out, (b, (false, some e)))
  body_turn n (idle ∷ rest) b out = (out, (b, (false, some (codes "idle timeout"))))
  body_turn n (chunk bytes ∷ rest) b out =
      let kept = keep bytes b in
      let later = body_turn (n + 1) rest kept (out ++ bytes ∷ []) in
      if accepts n then later else (out, (kept, (true, none)))

  kept_usage : BackendFormat → Bytes × Bool → UsageAccumulator
  kept_usage format (buffer, true) = parse_usage_from_body codec buffer format
  kept_usage format (buffer, false) = default

  measured : BackendFormat → List Bytes × ((Bytes × Bool) × (Bool × Option Text)) → Passed
  unfolding kept_usage
  measured format (out, (b, (aborted, e))) = record {
    out = out;
    usage = record { acc = kept_usage format b; client_aborted = aborted; error_class = e };
  }

  unfoldable pub pump_body : BackendFormat → List Next → Passed
  unfolding body_turn measured
  pump_body format nexts = measured format (body_turn 0 nexts ([], true) [])

  -- A last send, of which the result is ignored.
  last_output : Bridged → Emit → Bridged
  last_output b (t, events) =
      let output = render_all codec events in
      if is_empty output then record b { translator = t } else record b {
        translator = t;
        out = if accepts b.sends then b.out ++ output ∷ [] else b.out;
        sends = b.sends + 1;
      }

  -- A send, after which the loop goes on where the client takes it and the translator is not finished.
  after_output : Bridged → Emit → (Bridged → Bridged) → Bridged
  after_output b (t, events) rest =
      let output = render_all codec events in
      let moved =
        if is_empty output
        then record b { translator = t }
        else record b { translator = t; out = b.out ++ output ∷ []; sends = b.sends + 1 } in
      let later = rest moved in
      if not (is_empty output) && not (accepts b.sends)
      then record b { translator = t; sends = b.sends + 1; client_aborted = true }
      else if is_finished t
      then moved
      else later

  pub bridge_turn : List Next → Bridged → Bridged
  unfolding last_output after_output
  bridge_turn [] b = last_output b (Feed.finish codec b.translator)
  bridge_turn (broken e ∷ rest) b =
      last_output (record b { error_class = some e })
        (abort codec 502 (codes "upstream stream failed: " ++ e) b.translator)
  bridge_turn (idle ∷ rest) b =
      last_output (record b { error_class = some (codes "upstream stream idle timeout") })
        (abort codec 504 (codes "upstream stream idle timeout") b.translator)
  bridge_turn (chunk bytes ∷ rest) b =
      after_output
        (record b { tapped = Tap.feed codec chunk_may_have_usage open_ai bytes b.tapped })
        (Feed.feed codec bytes b.translator) (bridge_turn rest)

  translated : Bridged → Passed
  unfolding class_of
  translated b = record {
    out = b.out;
    usage = record {
      acc = Tap.finish codec chunk_may_have_usage open_ai b.tapped;
      client_aborted = b.client_aborted;
      error_class = class_of (take_error b.translator).0 b.error_class;
    };
  }

  unfoldable pub pump_bridge : BridgeContext → List Next → Passed
  unfolding bridge_turn opened translated
  pump_bridge bridge nexts = translated (bridge_turn nexts (opened bridge))
