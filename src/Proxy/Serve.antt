-- ===== src/Proxy/Serve.antt =====
-- `proxy_forward` of src/proxy/mod.rs to its end: the loop of Proxy/Forward.antt, the response of
-- Proxy/Respond.antt, and the drop of the reporter. The task of a stream runs to its end here, and
-- what other requests do to the budget and the ledger meanwhile is left out.
pub mod Settles
pub mod Tests
use brigh_to_router.Prelude.{ℕ, Bool, Option, none, some, List}
use brigh_to_router.Json.{Bytes}
use brigh_to_router.Ledger.Sink.{Channels}
use brigh_to_router.Route.Select.{Scores}
use brigh_to_router.Proxy.Headers.{HeaderMap, Response, tag_router_headers}
use brigh_to_router.Proxy.Attempt.{ProxyContext, ProxyRequestBody}
use brigh_to_router.Proxy.Reporter.{Clock, AppState, drop_reporter}
use brigh_to_router.Proxy.Forward.{
  World, Incoming, Forward, Ending, answered, handed, proxy_forward,
}
use brigh_to_router.Proxy.Respond.{Upstream, Tools, forward_backend_response}

module _ (H : HeaderMap) (tools : Tools) (accepts : ℕ → Bool) (channels : Channels)
    (scores : Scores) (w : World) (incoming : Incoming) (ctx : ProxyContext) (fuel later : ℕ)
    (upstream : Forward H channels → Upstream) (clock last : Clock) where
  -- The response that is forwarded has the status that the loop saw.
  finishing : Ending H × Forward H channels → AppState channels
  finishing (answered r, f) = f.state
  finishing (handed status format r name ms, f) =
      drop_reporter channels last
        (forward_backend_response H tools accepts channels clock
          (record (upstream f) { status = status }) format ctx.bridge (r, f.state)).1

  completed : Option (Ending H × Forward H channels) → Option (AppState channels)
  unfolding finishing
  completed none = none
  completed (some r) = some (finishing r)

  unfoldable pub serve : ℕ → ProxyRequestBody → AppState channels → Option (AppState channels)
  unfolding completed
  serve rounds upload s =
      completed
        (proxy_forward H tools.codec channels scores w incoming ctx fuel later rounds upload s)
