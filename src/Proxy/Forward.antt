-- ===== src/Proxy/Forward.antt =====
-- `proxy_forward` of src/proxy/mod.rs: the loop that leases a backend, sends the request to it, and
-- tries another one before the first byte. What the outside does is given by the turn: the other
-- requests, the configuration, the HTTP client and the clocks. `calls` is what the function did, in
-- order. The loop runs on fuel.
pub mod Trace
pub mod Invariant
pub mod Outcome
pub mod Turns
pub mod Settled
pub mod Tests
use brigh_to_router.Prelude.{
  ℕ, zero, suc, ◌+◌, Bool, true, false, not, ◌&&◌, Option, none, some, List, [], ◌∷◌, ◌++◌,
  if◌then◌else◌,
}
use brigh_to_router.Prelude.Eq.{ℕ_eq}
use brigh_to_router.Prelude.Maps.{Map, lookup}
use brigh_to_router.Prelude.Result.{Result, ok, err}
use brigh_to_router.Prelude.Text.{Text, codes}
use brigh_to_router.Contract.Config.{
  Backend, BackendFormat, open_ai, anthropic, EffectiveModelEndpoint, endpoint_for,
}
use brigh_to_router.Contract.Protocol.{parse, as_str, is_openai_chat_family}
use brigh_to_router.Route.Exclusions
use brigh_to_router.Route.Exclusions.{BackendExclusions, default}
use brigh_to_router.Route.Pool.{RamBackendPool, note_result}
use brigh_to_router.Route.Select.{AcquireError, counter_unavailable, Scores}
use brigh_to_router.Route.Acquire.{Outside, Acquired, acquire_excluding, drop}
use brigh_to_router.Route.Report
use brigh_to_router.Route.Report.{unavailable_report}
use brigh_to_router.Bridge.{BridgeContext}
use brigh_to_router.Json.{Codec, Bytes}
use brigh_to_router.Ledger.Sink.{Channels}
use brigh_to_router.Proxy.Target.{is_retryable_status, build_target_url}
use brigh_to_router.Proxy.Headers.{
  HeaderMap, Headers, Response, proxy_error_response, tag_router_headers,
}
use brigh_to_router.Proxy.Attempt.{
  ProxyContext, anthropic_errors, from_ctx, ProxyRequestBody, is_replayable, RequestBody, Refused,
  prepare_body, put_back, auth_key, Request, build_reqwest_request,
}
use brigh_to_router.Proxy.Reporter.{
  CompletionReporter, AppState, Metric, request_total, maybe_rollback, maybe_release,
}

-- What becomes of a request that is sent.
pub data Executed : Type 0 where
  responded : ℕ → Executed
  failed : Text → Executed
  timed_out : Executed

pub record World : Type 0 where
  pub acquiring : ℕ → Outside
  pub config : ℕ → Map ℕ Backend
  pub builds : ℕ → Bool
  pub execute : ℕ → Executed
  pub meanwhile : ℕ → RamBackendPool → RamBackendPool
  pub now : ℕ → ℕ
  pub pre_forward_ms : ℕ → ℕ
  pub ttfb_ms : ℕ → ℕ
  pub elapsed_ms : ℕ → ℕ
  pub report_text : Report.Report → Text

-- The request as it came in.
pub record Incoming : Type 0 where
  pub path_and_query : Option Text
  pub headers : Headers

-- The calls that the function makes on the pool and on the client.
pub data Call (H : HeaderMap) : Type 0 where
  leased dropped : ℕ → Call H
  noted : ℕ → Bool → Call H
  sent : Request H → Call H

pub record Forward (H : HeaderMap) (channels : Channels) : Type 0 where
  pub tried : BackendExclusions
  pub upload : Option ProxyRequestBody
  pub state : AppState channels
  pub calls : List (Call H)

-- An answer of the router's own, or a response to pass on, with its status and its reporter, the name
-- of the backend and the overhead for its headers.
pub data Ending (H : HeaderMap) : Type 0 where
  answered : Response H Bytes → Ending H
  handed : ℕ → BackendFormat → CompletionReporter → Text → ℕ → Ending H

-- `{:?}` of a backend's format.
format_name : BackendFormat → Text
format_name open_ai = codes "OpenAi"
format_name anthropic = codes "Anthropic"

enabled_only : Option Backend → Option Backend
enabled_only none = none
enabled_only (some b) = if b.enabled then some b else none

-- Whether a bridged request may go to the backend.
is_chat : BackendFormat → Text → Bool
is_chat open_ai protocol = is_openai_chat_family (parse protocol)
is_chat anthropic protocol = false

bridge_allows : Option BridgeContext → BackendFormat → Text → Bool
unfolding is_chat
bridge_allows none format protocol = true
bridge_allows (some bridge) format protocol = is_chat format protocol

module _ (H : HeaderMap) (codec : Codec) (channels : Channels) (scores : Scores) (w : World)
    (incoming : Incoming) (ctx : ProxyContext) (fuel later : ℕ) where
  abbrev State : Type 0
  State = Forward H channels

  -- Nothing where a search for a backend ran out of fuel.
  abbrev pub Turned : Type 0
  Turned = Option (Ending H × State)

  -- `request_total_for`.
  pub count : ℕ → State → State
  count status f = record f {
    state = record f.state { metrics = f.state.metrics ++ request_total status ∷ [] };
  }

  pub give_back : ℕ → State → State
  give_back b f = record f {
    state = record f.state { backends = drop b f.state.backends };
    calls = f.calls ++ dropped b ∷ [];
  }

  -- `note_result`.
  pub note : ℕ → ℕ → Bool → State → State
  note n b good f = record f {
    state = record f.state { backends = note_result f.state.backends b good (w.now n) };
    calls = f.calls ++ noted b good ∷ [];
  }

  -- The budget's reservation and the key's slot, which the function owns, are dropped as it returns.
  pub settle : State → State
  settle f = record f {
    state = record f.state {
      budget = maybe_rollback ctx.reservation (maybe_release ctx.concurrency f.state.budget);
    };
  }

  pub reply : ℕ → Text → Option Text → ℕ → State → Turned
  unfolding settle
  reply status message name ms f = some (
    answered (
        tag_router_headers H
          (proxy_error_response H codec (anthropic_errors ctx) ctx.request_id status message)
          ctx.request_id name ms),
    settle f,
  )

  pub unavailable : ℕ → Text → State → Turned
  unfolding count reply
  unavailable n message f = reply 503 message none (w.elapsed_ms n) (count 503 f)

  -- A lease that is still held is dropped before the next turn, and before an error.
  pub release : Option ℕ → State → State
  unfolding give_back
  release none f = f
  release (some b) f = give_back b f

  pub after_lease :
      ℕ
      → Option ℕ
      → Result (Option ℕ) AcquireError
      → State
      → (ℕ → State → Turned)
      → (State → Turned)
      → Turned
  unfolding unavailable release
  after_lease n held (ok (some b)) f rest last =
      rest b (release held (record f { calls = f.calls ++ leased b ∷ [] }))
  after_lease n held (ok none) f rest last = last f
  after_lease n held (err (counter_unavailable message)) f rest last =
      unavailable n message (release held f)

  after_acquired :
      ℕ → Option ℕ → Option Acquired → State → (ℕ → State → Turned) → (State → Turned) → Turned
  unfolding after_lease
  after_acquired n held none f rest last = none
  after_acquired n held (some a) f rest last =
      after_lease n held a.lease
        (record f { tried = a.excluded; state = record f.state { backends = a.pool } }) rest last

  -- `acquire_excluding` and the three ways that follow: another turn, none left, and no counter.
  pub acquire : ℕ → Option ℕ → State → (ℕ → State → Turned) → (State → Turned) → Turned
  unfolding after_acquired
  acquire n held f rest last =
      after_acquired n held
        (acquire_excluding scores ctx.route (w.acquiring n) fuel later f.tried f.state.backends) f
        rest last

  -- Only a request that can be sent again has another turn.
  pub retry : Bool → ℕ → Option ℕ → State → (ℕ → State → Turned) → (State → Turned) → Turned
  unfolding acquire
  retry true n held f rest last = acquire n held f rest last
  retry false n held f rest last = last f

  -- A failed attempt, whose lease is dropped at once.
  give_up : Bool → ℕ → ℕ → Backend → ℕ → Text → State → (ℕ → State → Turned) → Turned
  unfolding retry note give_back count reply
  give_up replayable n b backend status message f rest =
      retry replayable n none (count status (give_back b (note n b false f))) rest
        (reply status message (some backend.name) (w.pre_forward_ms n))

  pub hand_over : ℕ → ℕ → Backend → ℕ → State → Turned
  hand_over n b backend status f = some (
    handed status backend.format
        (record {
          meta = from_ctx ctx;
          backend_id = b;
          stream = ctx.stream;
          pre_forward_ms = w.pre_forward_ms n;
          ttfb_ms = w.ttfb_ms n;
          reservation = ctx.reservation;
          concurrency = ctx.concurrency;
          estimated_input_tokens = ctx.estimated_input_tokens;
          finished = false;
        })
        backend.name (w.pre_forward_ms n),
    f,
  )

  after_sent : Bool → ℕ → ℕ → Backend → Executed → State → (ℕ → State → Turned) → Turned
  unfolding note retry hand_over give_up
  after_sent replayable n b backend (responded status) f rest =
      if is_retryable_status status
      then retry replayable n (some b) (note n b false f) rest (hand_over n b backend status)
      else hand_over n b backend status (note n b true f)
  after_sent replayable n b backend (failed e) f rest =
      give_up replayable n b backend 502 (codes "backend connection failed: " ++ e) f rest
  after_sent replayable n b backend timed_out f rest =
      give_up replayable n b backend 504 (codes "first byte timeout") f rest

  -- The call of the client, while other requests go on.
  send : ℕ → Request H → State → State
  send n r f = record f {
    state = record f.state { backends = w.meanwhile n f.state.backends };
    calls = f.calls ++ sent r ∷ [];
  }

  after_built : Bool → ℕ → ℕ → Backend → Option (Request H) → State → (ℕ → State → Turned) → Turned
  unfolding give_up after_sent send
  after_built replayable n b backend none f rest =
      give_up replayable n b backend 502 (codes "request build failed") f rest
  after_built replayable n b backend (some r) f rest =
      after_sent replayable n b backend (w.execute n) (send n r f) rest

  -- The HTTP client may refuse to build the request.
  when : Bool → Option (Request H) → Option (Request H)
  when true r = r
  when false r = none

  -- A refusal after the lease: the lease is dropped on return.
  pub refuse : ℕ → ℕ → Backend → ℕ → Text → State → Turned
  unfolding count give_back reply
  refuse n b backend status message f =
      reply status message (some backend.name) (w.elapsed_ms n) (give_back b (count status f))

  with_body :
      Bool
      → ℕ
      → ℕ
      → Backend
      → EffectiveModelEndpoint
      → ProxyRequestBody
      → Result RequestBody Refused
      → State
      → (ℕ → State → Turned)
      → Turned
  unfolding after_built when refuse
  with_body replayable n b backend endpoint upload (err (status, message)) f rest =
      refuse n b backend status message f
  with_body replayable n b backend endpoint upload (ok body) f rest =
      after_built replayable n b backend
        (when (w.builds n) (
          build_reqwest_request H b (build_target_url backend.base_url incoming.path_and_query)
            incoming.headers body backend.format (auth_key endpoint backend) ctx.request_id))
        (record f { upload = put_back upload }) rest

  with_upload :
      Bool
      → ℕ
      → ℕ
      → Backend
      → EffectiveModelEndpoint
      → Option ProxyRequestBody
      → State
      → (ℕ → State → Turned)
      → Turned
  unfolding with_body refuse
  with_upload replayable n b backend endpoint none f rest =
      refuse n b backend 502 (codes "request body already consumed") f
  with_upload replayable n b backend endpoint (some upload) f rest =
      with_body replayable n b backend endpoint upload
        (prepare_body codec ctx backend endpoint upload) (record f { upload = none }) rest

  mismatch : Backend → Text → Text
  unfolding format_name
  mismatch backend protocol =
      codes "Claude bridge requires an OpenAI Chat backend; backend '"
      ++ (backend.name
          ++ (codes "' is " ++ (format_name backend.format ++ b'/' ∷ as_str (parse protocol))))

  -- A bridged request goes to no backend of another protocol.
  if_allowed :
      Bool → Bool → ℕ → ℕ → Backend → EffectiveModelEndpoint → State → (ℕ → State → Turned) → Turned
  unfolding count give_back reply mismatch with_upload
  if_allowed true replayable n b backend endpoint f rest =
      with_upload replayable n b backend endpoint f.upload f rest
  if_allowed false replayable n b backend endpoint f rest =
      reply 502 (mismatch backend endpoint.protocol) (some backend.name) (w.elapsed_ms n)
        (count 502 (give_back b f))

  with_backend : Bool → ℕ → ℕ → Option Backend → State → (ℕ → State → Turned) → Turned
  unfolding unavailable give_back bridge_allows if_allowed
  with_backend replayable n b none f rest =
      unavailable n (codes "backend not available") (give_back b f)
  with_backend replayable n b (some backend) f rest =
      let endpoint = endpoint_for ctx.route b in
      if_allowed (bridge_allows ctx.bridge backend.format endpoint.protocol) replayable n b backend
        endpoint f rest

  -- One turn, with its lease.
  attempt : Bool → ℕ → ℕ → State → (ℕ → State → Turned) → Turned
  unfolding with_backend enabled_only
  attempt replayable n b f rest =
      with_backend replayable n b (enabled_only (lookup b (w.config n)))
        (record f { tried = Exclusions.insert b f.tried }) rest

  -- `n` counts the turns, from 1.
  pub forward_from : Bool → ℕ → ℕ → ℕ → State → Turned
  unfolding attempt
  forward_from replayable zero n b f = none
  forward_from replayable (suc rounds) n b f =
      attempt replayable n b f (λ b' f'. forward_from replayable rounds (n + 1) b' f')

  no_backend : State → Turned
  unfolding unavailable
  no_backend f =
      unavailable 0
        (codes "no healthy backend available: "
          ++ w.report_text (unavailable_report f.state.backends ctx.route (w.now 0)))
        f

  start : ProxyRequestBody → AppState channels → State
  start upload s = record { tried = default; upload = some upload; state = s; calls = [] }

  unfoldable pub proxy_forward : ℕ → ProxyRequestBody → AppState channels → Turned
  unfolding acquire start no_backend
  proxy_forward rounds upload s =
      acquire 0 none (start upload s) (forward_from (is_replayable upload) rounds 1) no_backend
