-- ===== src/Handlers/Generate.antt =====
-- `handle_generate` of src/handlers.rs, from an admitted request to the call of the proxy. What a
-- refusal drops is given back to the budget.
pub mod Settles
use brigh_to_router.Prelude.{
  ℕ, ◌/◌, Bool, true, false, not, ◌&&◌, ◌||◌, Option, none, some, List, [], ◌∷◌, ◌++◌, length, ◌==◌,
  if◌then◌else◌,
}
use brigh_to_router.Prelude.Eq.{ℕ_eq, list_eq, list_beq}
use brigh_to_router.Prelude.Maps.{Map, lookup}
use brigh_to_router.Prelude.Result.{Result, ok, err}
use brigh_to_router.Prelude.Text.{Text, codes}
use brigh_to_router.Contract.Config.{
  Backend, ModelRoute, ModelEndpoint, ApiKey, ConfigSnapshot, unwrap_or,
}
use brigh_to_router.Contract.Protocol.{
  ProviderProtocol, parse, label, incoming_path, accepts_incoming_path, is_openai_chat_family,
  qwen_rerank, voyage_rerank, system_one,
}
use brigh_to_router.Auth.{AuthResult, authorize_key, model_allowed}
use brigh_to_router.Budget.{
  RamBudgetStore, BudgetError, rate_limited, budget_exceeded, reserve, rollback,
  acquire_concurrency,
}
use brigh_to_router.Budget.Usage.{ReservedScope}
use brigh_to_router.Json.{Value, Codec, Bytes, is_empty}
use brigh_to_router.Bridge.{BridgeContext, BridgeError, status, message}
use brigh_to_router.Bridge.Request.Messages.{anthropic_to_openai}
use brigh_to_router.Proxy.Headers.{HeaderMap, Headers}
use brigh_to_router.Proxy.Attempt.{
  ProxyContext, ProxyRequestBody, buffered, streaming, open_ai_dialect, anthropic_dialect,
}
use brigh_to_router.Handlers.{extract_api_key, qwen_rerank_upstream_uri}
use brigh_to_router.Handlers.Body.{
  RequestHead, BodyReadError, too_large, read_failed, invalid_json, PrefixScan, Chunks,
  IncomingBody, body_len, head_of, read_incoming_body, into_proxy_body,
}
use brigh_to_router.Handlers.Adapt.{Edits, json_proxy_body_needs_rewrite, rewrite_json_proxy_body}
use brigh_to_router.Handlers.Admission.{
  GenerateRequest, Outside, Admission, Checked, ◌>>=◌, ensure, needed, read_or, messages_path,
  admit,
}

-- A refusal, with the seconds of its `retry-after`, or a call of the proxy. The headers of the
-- Anthropic protocol are not passed on by a bridge.
pub data Outcome : Type 0 where
  refused : ℕ → Text → Option ℕ → Outcome
  forwarded : ProxyContext → ProxyRequestBody → Option Text → Bool → Outcome

module _ (o : Outside) where
  -- A body is streamed where nothing has to be changed in it.
  is_plain : ProviderProtocol → Bool
  is_plain system_one = false
  is_plain _ = true

  no_endpoints : Map ℕ ModelEndpoint → Bool
  no_endpoints [] = true
  no_endpoints (e ∷ es) = false

  is_none : Option ℕ → Bool
  is_none none = true
  is_none (some b) = false

  allow_streaming_upload : Admission → Bool
  unfolding is_plain no_endpoints is_none
  allow_streaming_upload a =
      not a.bridge_request
      && length a.route.backend_ids == 1
      && is_none a.route.fallback_backend_id
      && no_endpoints a.route.endpoints
      && not (json_proxy_body_needs_rewrite a.route a.model a.protocol)
      && is_plain a.protocol

  -- The body, the estimate and the context of a bridge.
  pub record Prepared : Type 0 where
    pub head : RequestHead
    pub body : ProxyRequestBody
    pub est_tokens : ℕ
    pub bridge : Option BridgeContext
    pub uri : Option Text

  translation : Result Bytes BridgeError → Checked Bytes
  translation (ok body) = ok body
  translation (err e) = err (status e, message e)

  bridged : Admission → Prepared → Bytes → Checked Prepared
  unfolding translation
  bridged a p original = do
    body ← translation (anthropic_to_openai o.codec o.as_finite original a.model)
    let est = unwrap_or (o.estimate_input_tokens original a.route) p.est_tokens
    ok (record {
      head = p.head;
      body = buffered body;
      est_tokens = est;
      bridge = some (record {
        public_model = a.model;
        request_id = o.request_id;
        estimated_input_tokens = est;
      });
      uri = some (codes "/v1/chat/completions");
    })

  -- A bridge's body is always buffered, since what it may stream is decided above.
  bridge_body : Admission → Prepared → ProxyRequestBody → Checked Prepared
  unfolding bridged
  bridge_body a p (buffered original) = bridged a p original
  bridge_body a p (streaming prefix n) =
      err (400, codes "Claude bridge requires a buffered request body")

  maybe_bridged : Admission → Prepared → Checked Prepared
  unfolding bridge_body
  maybe_bridged a p = if a.bridge_request then bridge_body a p p.body else ok p

  rewritten : Prepared → Option Bytes → Checked Prepared
  rewritten p none = err (400, codes "could not rewrite adapter request body")
  rewritten p (some body) = ok (record p { body = buffered body })

  changes_body : ProviderProtocol → Bool
  changes_body voyage_rerank = true
  changes_body qwen_rerank = true
  changes_body system_one = true
  changes_body _ = false

  adapt_body : Admission → Prepared → ProxyRequestBody → Checked Prepared
  unfolding no_endpoints rewritten changes_body
  adapt_body a p (buffered body) =
      if no_endpoints a.route.endpoints && json_proxy_body_needs_rewrite a.route a.model a.protocol
      then rewritten p (rewrite_json_proxy_body o.codec o.edits body a.route a.protocol)
      else ok p
  adapt_body a p (streaming prefix n) =
      if not (no_endpoints a.route.endpoints)
        || not (list_beq a.route.provider_model_name a.model)
        || changes_body a.protocol
      then err (400, codes "streaming upload requires no model or adapter body rewrite")
      else ok p

  is_qwen : ProviderProtocol → Bool
  is_qwen qwen_rerank = true
  is_qwen _ = false

  -- The path of a Qwen model is always an address.
  with_uri : Admission → Prepared → Prepared
  unfolding is_qwen
  with_uri a p =
      if is_qwen a.protocol
      then record p { uri = some (qwen_rerank_upstream_uri a.route.provider_model_name) }
      else p

  first_form : Admission → IncomingBody → Option Text → RequestHead × ProxyRequestBody → Prepared
  first_form a incoming path_and_query (head, body) = record {
    head = head;
    body = body;
    est_tokens = o.estimate_tokens_len (body_len incoming) a.route;
    bridge = none;
    uri = path_and_query;
  }

  pub prepare : Option Text → Admission × IncomingBody → Checked Prepared
  unfolding allow_streaming_upload maybe_bridged adapt_body with_uri first_form
  prepare path_and_query (a, incoming) = do
    read ←
        read_or
          (into_proxy_body o.parse_head o.scan o.max_body_bytes (allow_streaming_upload a) incoming)
    p ← maybe_bridged a (first_form a incoming path_and_query read)
    q ← adapt_body a p p.body
    ok (with_uri a q)

  context : Text → Admission → Prepared → List ReservedScope → Option ℕ → ProxyContext
  unfolding no_endpoints
  context path a p scopes guard = record {
    api_key = a.key;
    model_name = a.model;
    route = a.route;
    request_id = o.request_id;
    stream = p.head.stream;
    stream_options_present = p.head.stream_options_present || a.bridge_request;
    protocol = a.protocol;
    rewrite_model_in_proxy = not (no_endpoints a.route.endpoints);
    bridge = p.bridge;
    response_dialect = if list_beq path messages_path then anthropic_dialect else open_ai_dialect;
    reservation = some scopes;
    concurrency = some guard;
    estimated_input_tokens = p.est_tokens;
  }

  -- A refused slot drops the reservation.
  after_slot :
      Text
      → Admission
      → Prepared
      → List ReservedScope
      → RamBudgetStore × Option (Option ℕ)
      → Outcome × RamBudgetStore
  unfolding context
  after_slot path a p scopes (s, none) =
      (refused 429 (codes "concurrency limit reached") none, rollback s scopes)
  after_slot path a p scopes (s, some guard) =
      (forwarded (context path a p scopes guard) p.body p.uri a.bridge_request, s)

  -- The delay of a rate limit is in milliseconds, and its header in seconds.
  after_reserve :
      Text
      → Admission
      → Prepared
      → RamBudgetStore × Result (List ReservedScope) BudgetError
      → Outcome × RamBudgetStore
  unfolding after_slot
  after_reserve path a p (s, err (budget_exceeded remaining)) =
      (refused 429 (codes "budget exceeded") none, s)
  after_reserve path a p (s, err (rate_limited delay)) =
      (refused 429 (codes "rate limited") (some (delay / 1_000)), s)
  after_reserve path a p (s, ok scopes) = after_slot path a p scopes (acquire_concurrency s a.key)

  finish_checks : Text → Checked (Admission × Prepared) → RamBudgetStore → Outcome × RamBudgetStore
  unfolding after_reserve
  finish_checks path (err (code, m)) s = (refused code m none, s)
  finish_checks path (ok (a, p)) s =
      after_reserve path a p (reserve s a.key a.model p.est_tokens o.now_secs o.now_ms)

  pub checks :
      (H : HeaderMap)
      → ConfigSnapshot
      → Text
      → GenerateRequest H
      → Result (Admission × Prepared) (ℕ × Text)
  checks H snapshot path r = do
    admitted ← admit H o snapshot path r
    p ← prepare r.path_and_query admitted
    ok (admitted.0, p)

  pub handle_generate :
      (H : HeaderMap)
      → ConfigSnapshot
      → Text
      → GenerateRequest H
      → RamBudgetStore
      → Outcome × RamBudgetStore
  unfolding finish_checks
  handle_generate H snapshot path r s = finish_checks path (checks H snapshot path r) s
