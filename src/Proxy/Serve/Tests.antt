-- ===== src/Proxy/Serve/Tests.antt =====
-- Whole requests and the tasks of a response, at concrete inputs.
use brigh_to_router.Prelude.{
  ◌≡◌, refl, true, false, none, some, List, [], ◌∷◌, ◌++◌, length, leb, if◌then◌else◌, arith,
}
use brigh_to_router.Prelude.Result.{err}
use brigh_to_router.Prelude.Text.{codes}
use brigh_to_router.Contract.Config.{open_ai}
use brigh_to_router.Budget.Tests.{caller, store, both, reserved}
use brigh_to_router.Bridge.{BridgeContext}
use brigh_to_router.Bridge.Limited.{concat}
use brigh_to_router.Bridge.Stream.Events.{Event}
use brigh_to_router.Bridge.Stream.Feed.{split_lines}
use brigh_to_router.Bridge.Stream.Phase.{before, ended, run}
use brigh_to_router.Bridge.Stream.Render.{render_all}
use brigh_to_router.Bridge.Tests.{codec}
use brigh_to_router.Ledger.Tests.{channels}
use brigh_to_router.Proxy.Usage.{default, parse_usage_from_body}
use brigh_to_router.Proxy.Tap.Frames.{inspect_all}
use brigh_to_router.Proxy.Attempt.{buffered}
use brigh_to_router.Proxy.Pump.{
  Next, chunk, idle, usage_buffer_limit, pump_stream, pump_body, pump_bridge,
}
use brigh_to_router.Proxy.Pump.Relay.{chunks_of, failure_of, pump_stream-relays, pump_body-relays}
use brigh_to_router.Proxy.Pump.Complete.{pump_bridge_complete}
use brigh_to_router.Proxy.Reporter.{AppState, Clock}
use brigh_to_router.Proxy.Respond.{Upstream, Tools}
use brigh_to_router.Proxy.Forward.Tests.{maps, scores, world, incoming, ctx, state}
use brigh_to_router.Proxy.Forward.{World, Forward, Ending, responded, proxy_forward}
use brigh_to_router.Proxy.Serve.{serve}
use brigh_to_router.Proxy.Serve.Settles.{Settled, serve-settles}

-- Two chunks, and then silence.
abbrev nexts : List Next
nexts = chunk (codes "data: {\"us") ∷ chunk (codes "age\":1}\n") ∷ idle ∷ []

pump_stream-relays_example : pump_stream codec (λ line. true) (λ n. true) open_ai nexts ≡ record {
  out = chunks_of nexts;
  usage = record {
    acc =
        inspect_all codec
          (λ line. true)
          open_ai
          ((split_lines [] (concat (chunks_of nexts))).0
            ++ (split_lines [] (concat (chunks_of nexts))).1 ∷ [])
          default;
    client_aborted = false;
    error_class = failure_of nexts;
  };
}
pump_stream-relays_example =
    pump_stream-relays codec (λ line. true) (λ n. true) (λ n. refl) open_ai nexts

pump_body-relays_example : pump_body codec (λ line. true) (λ n. true) open_ai nexts ≡ record {
  out = chunks_of nexts;
  usage = record {
    acc =
        if leb (length (concat (chunks_of nexts))) usage_buffer_limit
        then parse_usage_from_body codec (concat (chunks_of nexts)) open_ai
        else default;
    client_aborted = false;
    error_class = failure_of nexts;
  };
}
pump_body-relays_example =
    pump_body-relays codec (λ line. true) (λ n. true) (λ n. refl) open_ai nexts

abbrev bridge : BridgeContext
bridge = record { public_model = codes "m"; request_id = codes "r"; estimated_input_tokens = 40 }

pump_bridge_complete_example :
    (events : List Event) × (concat (pump_bridge codec (λ line. true) (λ n. true) bridge nexts).out
      ≡ render_all codec events)
    × (run (some before) events ≡ some ended)
pump_bridge_complete_example =
    pump_bridge_complete codec (λ line. true) (λ n. true) (λ n. refl) bridge nexts

abbrev pub tools : Tools
tools = record { codec = codec; chunk_may_have_usage = λ line. true; contains = λ s t. false }

abbrev pub upstream : Upstream
upstream = record {
  status = 200;
  headers = [];
  content_type = codes "text/event-stream";
  content_length = none;
  bytes = err (codes "closed");
  chunks = [];
  stream = nexts;
}

abbrev pub clock : Clock
clock = record { now_secs = 5; now_ms = 5_000; total_ms = 30 }

-- The first backend answers.
abbrev answering : World
answering = record world { execute = λ n. responded 200 }

serve-settles_example :
    (ending : Ending maps) × (after : Forward maps channels) × (final : AppState channels)
    × (proxy_forward maps codec channels scores answering incoming ctx 3 10 3
          (buffered (codes "{}"))
          state
        ≡ some (ending, after))
    × (serve maps tools
          (λ n. true)
          channels
          scores
          answering
          incoming
          ctx
          3
          10
          (λ f. upstream)
          clock
          clock
          3
          (buffered (codes "{}"))
          state
        ≡ some final)
    × Settled maps tools
        (λ n. true)
        channels
        scores
        answering
        incoming
        ctx
        3
        10
        (λ f. upstream)
        clock
        clock
        store
        both
        (some 1)
        state
        ending
        after
        final
serve-settles_example =
    serve-settles maps tools (λ n. true) channels scores answering incoming ctx 3 10 (λ f. upstream)
      clock clock 3 (buffered (codes "{}")) store state.budget caller (codes "m") 40 5 5_000 both
      (some 1) state (omega arith) (omega arith) (omega arith) reserved refl refl refl
