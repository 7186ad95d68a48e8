-- ===== src/Proxy/Headers.antt =====
-- The headers of what the proxy sends: `build_reqwest_request`, `build_response`,
-- `proxy_error_response`, `bridge_json_response`, `bridge_sse_response` and `tag_router_headers` of
-- src/proxy/mod.rs. The header map is a package's, and so is the test of a header's value.
pub mod Secrets
use brigh_to_router.Prelude.{
  ℕ, ◌≡◌, Bool, true, false, Option, none, some, List, [], ◌∷◌, ◌++◌, if◌then◌else◌,
}
use brigh_to_router.Prelude.Eq.{list_beq}
use brigh_to_router.Prelude.Text.{Text, codes}
use brigh_to_router.Contract.Config.{BackendFormat, open_ai, anthropic}
use brigh_to_router.Json.{Codec, Bytes, is_empty}
use brigh_to_router.Bridge.{anthropic_error_body}
use brigh_to_router.Bridge.Response.{decimal}
use brigh_to_router.Proxy.Target.{must_drop_header}

-- `http::HeaderMap`: `insert` replaces what a name had, and `append` adds to it; `get` gives the
-- first value of a name.
pub record HeaderMap : Type 1 where
  pub Map : Type 0
  pub empty : Map
  pub get : Text → Map → Option Text
  pub insert : Text → Text → Map → Map
  pub append : Text → Text → Map → Map
  pub get-empty : (n : Text) → get n empty ≡ none
  pub get-insert :
      (k n v : Text) (m : Map) → get n (insert k v m) ≡ (if list_beq k n then some v else get n m)
  -- `HeaderValue::from_str` on a text.
  pub is_valid : Text → Bool

abbrev pub Headers : Type 0
Headers = List (Text × Text)

module _ (H : HeaderMap) where
  unfoldable pub copied : Headers → H.Map → H.Map
  copied [] m = m
  copied ((name, value) ∷ hs) m =
      copied hs (if must_drop_header name then m else H.insert name value m)

  -- A value that is no header value is an error.
  checked : Text → Text → H.Map → Option H.Map
  checked name value m = if H.is_valid value then some (H.insert name value m) else none

  -- A version is set only where the client gave none.
  defaulted : Option Text → H.Map → H.Map
  defaulted (some v) m = m
  defaulted none m = H.insert (codes "anthropic-version") (codes "2023-06-01") m

  with_version : Option H.Map → Option H.Map
  unfolding defaulted
  with_version none = none
  with_version (some m) = some (defaulted (H.get (codes "anthropic-version") m) m)

  unfoldable pub with_auth : BackendFormat → Text → H.Map → Option H.Map
  unfolding checked with_version
  with_auth open_ai key m =
      if is_empty key then some m else checked (codes "authorization") (codes "Bearer " ++ key) m
  with_auth anthropic key m =
      if is_empty key then some m else with_version (checked (codes "x-api-key") key m)

  with_id : Text → Option H.Map → Option H.Map
  unfolding checked
  with_id request_id none = none
  with_id request_id (some m) = checked (codes "x-request-id") request_id m

  with_encoding : Option H.Map → Option H.Map
  with_encoding none = none
  with_encoding (some m) = some (H.insert (codes "accept-encoding") (codes "identity") m)

  -- The headers that `build_reqwest_request` builds the request with.
  unfoldable pub request_headers : Headers → BackendFormat → Text → Text → Option H.Map
  unfolding copied with_auth with_id with_encoding
  request_headers headers format auth_key request_id =
      with_encoding (with_id request_id (with_auth format auth_key (copied headers H.empty)))

  pub record Response (Body : Type 0) : Type 0 where
    pub status : ℕ
    pub headers : H.Map
    pub body : Body

  -- All headers but the length are passed on.
  append_all : Headers → H.Map → H.Map
  append_all [] m = m
  append_all ((name, value) ∷ hs) m =
      append_all hs (if list_beq name (codes "content-length") then m else H.append name value m)

  unfoldable pub build_response : {Body : Type 0} → ℕ → Headers → Body → Response Body
  unfolding append_all
  build_response status headers body = record {
    status = status;
    headers = append_all headers H.empty;
    body = body;
  }

  -- A header that is left out where its value is none.
  maybe : Text → Text → H.Map → H.Map
  maybe name value m = if H.is_valid value then H.append name value m else m

  unfoldable pub bridge_json_response : ℕ → Bytes → Text → Response Bytes
  unfolding maybe
  bridge_json_response status body request_id = record {
    status = status;
    headers = maybe (codes "request-id") request_id (
        H.append (codes "cache-control") (codes "no-store")
          (H.append (codes "content-type") (codes "application/json; charset=utf-8") H.empty));
    body = body;
  }

  unfoldable pub bridge_sse_response : {Body : Type 0} → ℕ → Body → Text → Response Body
  unfolding maybe
  bridge_sse_response status body request_id = record {
    status = status;
    headers = maybe (codes "request-id") request_id (
        H.append (codes "x-accel-buffering") (codes "no") (
          H.append (codes "cache-control") (codes "no-cache")
            (H.append (codes "content-type") (codes "text/event-stream; charset=utf-8") H.empty)));
    body = body;
  }

  -- An Anthropic client gets the Anthropic envelope, and the other ones the message.
  unfoldable pub proxy_error_response : Codec → Bool → Text → ℕ → Text → Response Bytes
  unfolding maybe build_response
  proxy_error_response codec anthropic_errors request_id status message =
      if anthropic_errors
      then record {
        status = status;
        headers =
            maybe (codes "request-id") request_id
              (H.append (codes "content-type") (codes "application/json") H.empty);
        body = anthropic_error_body codec status message;
      }
      else build_response status [] (codec.utf8 message)

  replaced : Text → Text → H.Map → H.Map
  replaced name value m = if H.is_valid value then H.insert name value m else m

  tagged : Option Text → H.Map → H.Map
  unfolding replaced
  tagged none m = m
  tagged (some name) m = replaced (codes "x-router-backend") name m

  unfoldable pub tag_router_headers :
      {Body : Type 0} → Response Body → Text → Option Text → ℕ → Response Body
  unfolding replaced tagged
  tag_router_headers r request_id backend_name overhead_ms = record r {
    headers =
        replaced (codes "x-router-overhead-ms") (decimal overhead_ms)
          (tagged backend_name (replaced (codes "x-router-request-id") request_id r.headers));
  }
