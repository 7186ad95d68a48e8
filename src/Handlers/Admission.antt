-- ===== src/Handlers/Admission.antt =====
-- The checks of `handle_generate` in src/handlers.rs: the key, the body's head, the model and its
-- route. The hash of a key, the parser of a head, the estimates in floating point, the finite numbers
-- of JSON and the clocks are the outside's.
pub mod Sound
use brigh_to_router.Prelude.{
  ℕ, ◌/◌, Bool, true, false, not, ◌&&◌, ◌||◌, Option, none, some, List, [], ◌∷◌, ◌++◌, length, ◌==◌,
  if◌then◌else◌,
}
use brigh_to_router.Prelude.Eq.{ℕ_eq, list_eq, list_beq}
use brigh_to_router.Prelude.Maps.{Map, lookup}
use brigh_to_router.Prelude.Result.{Result, ok, err}
use brigh_to_router.Prelude.Text.{Text, codes}
use brigh_to_router.Contract.Config.{
  Backend, ModelRoute, ModelEndpoint, ApiKey, ConfigSnapshot, unwrap_or,
}
use brigh_to_router.Contract.Protocol.{
  ProviderProtocol, parse, label, incoming_path, accepts_incoming_path, is_openai_chat_family,
  qwen_rerank, voyage_rerank, system_one,
}
use brigh_to_router.Auth.{AuthResult, authorize_key, model_allowed}
use brigh_to_router.Budget.{
  RamBudgetStore, BudgetError, rate_limited, budget_exceeded, reserve, rollback,
  acquire_concurrency,
}
use brigh_to_router.Budget.Usage.{ReservedScope}
use brigh_to_router.Json.{Value, Codec, Bytes, is_empty}
use brigh_to_router.Bridge.{BridgeContext, BridgeError, status, message}
use brigh_to_router.Bridge.Request.Messages.{anthropic_to_openai}
use brigh_to_router.Proxy.Headers.{HeaderMap, Headers}
use brigh_to_router.Proxy.Attempt.{
  ProxyContext, ProxyRequestBody, buffered, streaming, open_ai_dialect, anthropic_dialect,
}
use brigh_to_router.Handlers.{extract_api_key, parse_content_length}
use brigh_to_router.Handlers.Body.{
  RequestHead, BodyReadError, too_large, read_failed, invalid_json, PrefixScan, Chunks,
  IncomingBody, body_len, head_of, read_incoming_body, into_proxy_body,
}
use brigh_to_router.Handlers.Adapt.{Edits, json_proxy_body_needs_rewrite, rewrite_json_proxy_body}

pub record GenerateRequest (H : HeaderMap) : Type 0 where
  pub headers : H.Map
  pub path_and_query : Option Text
  pub chunks : Chunks

pub record Outside : Type 0 where
  pub codec : Codec
  pub as_finite : Value → Option Value
  pub edits : Edits
  pub hash_key : Text → List ℕ
  pub parse_head : Bytes → Option RequestHead
  pub scan : Bytes → PrefixScan
  pub estimate_tokens_len : ℕ → ModelRoute → ℕ
  pub estimate_input_tokens : Bytes → ModelRoute → Option ℕ
  pub max_body_bytes : ℕ
  pub request_id : Text
  pub now_secs : ℕ
  pub now_ms : ℕ

-- What is known of an admitted request before its body is adapted.
pub record Admission : Type 0 where
  pub key : ApiKey
  pub model : Text
  pub route : ModelRoute
  pub protocol : ProviderProtocol
  pub bridge_request : Bool

abbrev pub Checked {ℓ} : Type ℓ → Type ℓ
Checked A = Result A (ℕ × Text)

infixl 5 ◌>>=◌
unfoldable pub ◌>>=◌ {ℓ κ} :
    {A : Type ℓ} {B : Type κ}
    → Result A (ℕ × Text)
    → (A → Result B (ℕ × Text))
    → Result B (ℕ × Text)
ok a >>= f = f a
err e >>= f = err e

-- A guard, and a value that must be there.
unfoldable pub ensure : Bool → ℕ → Text → Result (Unit {0}) (ℕ × Text)
ensure true code m = ok tt
ensure false code m = err (code, m)

unfoldable pub needed {ℓ} : {A : Type ℓ} → Option A → ℕ → Text → Result A (ℕ × Text)
needed none code m = err (code, m)
needed (some a) code m = ok a

authorized : AuthResult → Checked ApiKey
authorized (AuthResult.ok key) = ok key
authorized (AuthResult.err e) = err (401, codes "invalid API key")

abbrev pub read_or {ℓ} : {A : Type ℓ} → Result A BodyReadError → Result A (ℕ × Text)
read_or (ok a) = ok a
read_or (err too_large) = err (413, codes "request body too large")
read_or (err read_failed) = err (400, codes "request body read failed")
read_or (err invalid_json) = err (400, codes "invalid JSON")

is_enabled : Option Backend → Bool
is_enabled none = false
is_enabled (some b) = b.enabled

any_enabled : Map ℕ Backend → List ℕ → Bool
unfolding is_enabled
any_enabled backends [] = false
any_enabled backends (id ∷ ids) = is_enabled (lookup id backends) || any_enabled backends ids

fallback_enabled : Map ℕ Backend → Option ℕ → Bool
unfolding is_enabled
fallback_enabled backends none = false
fallback_enabled backends (some id) = is_enabled (lookup id backends)

unfoldable pub any_backend_enabled : ConfigSnapshot → ModelRoute → Bool
unfolding any_enabled fallback_enabled
any_backend_enabled snapshot route =
    any_enabled snapshot.backends route.backend_ids
    || fallback_enabled snapshot.backends route.fallback_backend_id

abbrev pub messages_path : Text
messages_path = codes "/v1/messages"

wrong_endpoint : Text → ProviderProtocol → Text → Text
wrong_endpoint model protocol path =
    if list_beq path messages_path && is_openai_chat_family protocol
    then codes "model '"
      ++ (model
          ++ codes
              "' does not accept Anthropic Messages; enable 'Also accept Anthropic Messages (Claude CLI)' on this route")
    else codes "model '"
      ++ (model
          ++ (codes "' is a "
              ++ (label protocol
                  ++ (codes " route (call " ++ (incoming_path protocol ++ b')' ∷ [])))))

unfoldable pub is_bridge_request : ModelRoute → Text → Bool
is_bridge_request route path =
    list_beq path messages_path
    && route.accept_anthropic_messages
    && is_openai_chat_family (parse route.protocol)

module _ (H : HeaderMap) (o : Outside) (snapshot : ConfigSnapshot) (path : Text) where
  -- The checks of the model and its route, once the key and the body's head are known.
  pub route_for : ApiKey → Text → Checked Admission
  unfolding wrong_endpoint
  route_for key model = do
    u ← ensure (not (is_empty model)) 400 (codes "model is required")
    u ← ensure (model_allowed key model) 403 (codes "model not allowed for this key")
    route ← needed (lookup model snapshot.routes) 404 (codes "model not configured")
    u ← ensure route.enabled 403 (codes "model is disabled")
    u ←
        ensure (any_backend_enabled snapshot route) 403
          (codes "model is disabled: no enabled provider backend")
    u ←
        ensure (is_bridge_request route path || accepts_incoming_path (parse route.protocol) path)
          400 (wrong_endpoint model (parse route.protocol) path)
    ok (record {
      key = key;
      model = model;
      route = route;
      protocol = parse route.protocol;
      bridge_request = is_bridge_request route path;
    })

  -- The key is checked before the body is read.
  pub admit : GenerateRequest H → Checked (Admission × IncomingBody)
  unfolding authorized route_for
  admit r = do
    plain ← needed (extract_api_key H r.headers) 401 (codes "missing API key")
    key ← authorized (authorize_key snapshot (o.hash_key plain) o.now_secs)
    incoming ← read_or (
        read_incoming_body o.parse_head o.scan o.max_body_bytes (parse_content_length H r.headers)
          r.chunks)
    a ← route_for key (head_of incoming).model
    ok (a, incoming)
