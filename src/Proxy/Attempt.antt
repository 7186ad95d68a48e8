-- ===== src/Proxy/Attempt.antt =====
-- One attempt of `proxy_forward` in src/proxy/mod.rs: its context, the body and the request that it
-- sends to a backend. A message is text; the client's upload is polled as in Proxy/Upload.antt.
use brigh_to_router.Prelude.{
  ℕ, ◌≡◌, Bool, true, false, not, ◌&&◌, Option, none, some, List, [], ◌∷◌, if◌then◌else◌, arith,
}
use brigh_to_router.Prelude.Eq.{list_beq}
use brigh_to_router.Prelude.Result.{Result, ok, err}
use brigh_to_router.Prelude.Text.{Text, codes}
use brigh_to_router.Contract.Config.{
  Backend, BackendFormat, open_ai, anthropic, EffectiveModelEndpoint, ModelRoute, ApiKey, or_else,
  unwrap_or,
}
use brigh_to_router.Contract.Protocol.{ProviderProtocol, open_ai_responses}
use brigh_to_router.Budget.Usage.{ReservedScope}
use brigh_to_router.Json.{Codec, Bytes}
use brigh_to_router.Bridge.{BridgeContext}
use brigh_to_router.Bridge.Limited.{concat}
use brigh_to_router.Proxy.Upload.{
  ExactLengthUploadBody, new_upload, ExactLengthChunksBody, new_chunks,
}
use brigh_to_router.Proxy.Span.{rewrite_top_level_model_chunks}
use brigh_to_router.Proxy.Target.{splice_include_usage}
use brigh_to_router.Proxy.Headers.{HeaderMap, Headers, request_headers}
use brigh_to_router.Proxy.Reporter.{RequestMeta}

pub data ResponseDialect : Type 0 where
  open_ai_dialect anthropic_dialect : ResponseDialect

pub record ProxyContext : Type 0 where
  pub api_key : ApiKey
  pub model_name : Text
  pub route : ModelRoute
  pub request_id : Text
  pub stream : Bool
  pub stream_options_present : Bool
  pub protocol : ProviderProtocol
  pub rewrite_model_in_proxy : Bool
  pub bridge : Option BridgeContext
  pub response_dialect : ResponseDialect
  pub reservation : Option (List ReservedScope)
  pub concurrency : Option (Option ℕ)
  pub estimated_input_tokens : ℕ

is_anthropic : ResponseDialect → Bool
is_anthropic open_ai_dialect = false
is_anthropic anthropic_dialect = true

unfoldable pub anthropic_errors : ProxyContext → Bool
unfolding is_anthropic
anthropic_errors ctx = is_anthropic ctx.response_dialect

unfoldable pub from_ctx : ProxyContext → RequestMeta
from_ctx ctx = record {
  key_id = ctx.api_key.id;
  team_id = ctx.api_key.team_id;
  model = ctx.model_name;
  request_id = ctx.request_id;
}

-- A buffered body can be sent again, and a streamed one, whose rest is polled, only once.
pub data ProxyRequestBody : Type 0 where
  buffered : Bytes → ProxyRequestBody
  streaming : Bytes → ℕ → ProxyRequestBody

unfoldable pub is_replayable : ProxyRequestBody → Bool
is_replayable (buffered b) = true
is_replayable (streaming prefix content_length) = false

-- `reqwest::Body`: whole bytes, or one of the two bodies of exact length.
pub data RequestBody : Type 0 where
  whole : Bytes → RequestBody
  chunked : ExactLengthChunksBody → RequestBody
  uploaded : ExactLengthUploadBody → RequestBody

unfoldable pub reqwest_body_from_chunks : List Bytes → RequestBody
reqwest_body_from_chunks (chunk ∷ []) = whole chunk
reqwest_body_from_chunks chunks = chunked (new_chunks chunks)

unfoldable pub into_reqwest_body : ProxyRequestBody → RequestBody
into_reqwest_body (buffered b) = whole b
into_reqwest_body (streaming prefix content_length) = uploaded (new_upload prefix content_length)

is_open_ai : BackendFormat → Bool
is_open_ai open_ai = true
is_open_ai anthropic = false

is_responses : ProviderProtocol → Bool
is_responses open_ai_responses = true
is_responses _ = false

-- Whether the option that asks for usage is to be put into the body.
unfoldable pub wants_usage : ProxyContext → BackendFormat → Bool
unfolding is_open_ai is_responses
wants_usage ctx format =
    is_open_ai format
    && ctx.stream
    && not ctx.stream_options_present
    && not (is_responses ctx.protocol)

-- A refused body: the status and the message.
abbrev pub Refused : Type 0
Refused = ℕ × Text

module _ (codec : Codec) where
  -- The body with the endpoint's name of the model, where that is another one.
  rewritten : ProxyContext → EffectiveModelEndpoint → Bytes → Result (Option (List Bytes)) Refused
  rewritten ctx endpoint body =
      if ctx.rewrite_model_in_proxy && not (list_beq endpoint.provider_model_name ctx.model_name)
      then elim (rewrite_top_level_model_chunks codec body endpoint.provider_model_name) [
        | some chunks ↦ ok (some chunks)
        | none ↦ err (400, codes "could not rewrite endpoint model field")
      ]
      else ok none

  materialized : Bytes → Option (List Bytes) → Bytes
  materialized body none = body
  materialized body (some chunks) = concat chunks

  chunks_or : Bytes → Option (List Bytes) → RequestBody
  chunks_or body none = whole body
  chunks_or body (some chunks) = reqwest_body_from_chunks chunks

  buffered_body :
      ProxyContext
      → BackendFormat
      → Bytes
      → Result (Option (List Bytes)) Refused
      → Result RequestBody Refused
  unfolding materialized chunks_or
  buffered_body ctx format body (err e) = err e
  buffered_body ctx format body (ok chunks) =
      if wants_usage ctx format
      then ok (whole (unwrap_or (splice_include_usage (materialized body chunks)) body))
      else ok (chunks_or body chunks)

  -- The body of an attempt: what it takes of the upload is put back where it is buffered.
  unfoldable pub prepare_body :
      ProxyContext
      → Backend
      → EffectiveModelEndpoint
      → ProxyRequestBody
      → Result RequestBody Refused
  unfolding rewritten buffered_body
  prepare_body ctx backend endpoint (buffered body) =
      buffered_body ctx backend.format body (rewritten ctx endpoint body)
  prepare_body ctx backend endpoint (streaming prefix content_length) =
      if wants_usage ctx backend.format
      then err (500, codes "streaming upload cannot mutate request body")
      else ok (into_reqwest_body (streaming prefix content_length))

-- What is left of the upload after an attempt has taken it.
unfoldable pub put_back : ProxyRequestBody → Option ProxyRequestBody
put_back (buffered body) = some (buffered body)
put_back (streaming prefix content_length) = none

-- The endpoint's key counts before the backend's, and no key does where none is wanted.
unfoldable pub auth_key : EffectiveModelEndpoint → Backend → Text
auth_key endpoint backend =
    if list_beq endpoint.auth_mode (codes "none")
    then []
    else unwrap_or (or_else endpoint.provider_key backend.api_key) []

module _ (H : HeaderMap) where
  pub record Request : Type 0 where
    pub backend_id : ℕ
    pub url : Text
    pub headers : H.Map
    pub body : RequestBody

  made : ℕ → Text → RequestBody → Option H.Map → Option Request
  made backend_id url body none = none
  made backend_id url body (some headers) =
      some (record { backend_id = backend_id; url = url; headers = headers; body = body })

  -- The backend's id is only noted here: the address decides where the request goes.
  unfoldable pub build_reqwest_request :
      ℕ → Text → Headers → RequestBody → BackendFormat → Text → Text → Option Request
  unfolding made
  build_reqwest_request backend_id url headers body format key request_id =
      made backend_id url body (request_headers H headers format key request_id)

  pub build_reqwest_request_id :
      (b : ℕ) (url : Text) (headers : Headers) (body : RequestBody) (format : BackendFormat)
      (key request_id : Text) (r : Request)
      → build_reqwest_request b url headers body format key request_id ≡ some r
      → r.backend_id ≡ b
  unfolding build_reqwest_request made
  build_reqwest_request_id b url headers body format key request_id r e = ground (arith, e)
