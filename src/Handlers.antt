-- ===== src/Handlers.antt =====
-- src/handlers.rs: the endpoints that serve a model, and readiness. The router of the web framework,
-- the streams of a body and the header map are packages'.
pub mod Body
pub mod Adapt
pub mod Admission
pub mod Generate
pub mod Endpoint
pub mod Tests
use brigh_to_router.Json.{and_then}
use brigh_to_router.Prelude.{◌*◌, ◌+◌, ◌&&◌, leb, u64_mod}
use brigh_to_router.Prelude.{
  ℕ, ◌-◌, Bool, ◌||◌, Option, none, some, [], ◌∷◌, ltb, ◌==◌, if◌then◌else◌,
}
use brigh_to_router.Prelude.Eq.{list_beq}
use brigh_to_router.Prelude.Text.{Text, codes, trim, to_ascii_lowercase}
use brigh_to_router.Proxy.Headers.{HeaderMap}

-- The configuration is too old, or failed to load after the last success.
unfoldable pub readiness_status : ℕ → ℕ → ℕ → ℕ → ℕ
readiness_status ok err stale_ms now =
    if ok == 0 || ltb stale_ms (now - ok) || ltb ok err then 503 else 200

unfoldable pub strip_prefix : Text → Text → Option Text
strip_prefix [] s = some s
strip_prefix (c ∷ cs) [] = none
strip_prefix (c ∷ cs) (d ∷ s) = if c == d then strip_prefix cs s else none

bearer : Option Text → Option Text
unfolding strip_prefix
bearer none = none
bearer (some auth) = strip_prefix (codes "Bearer ") auth

key_or : Option Text → Option Text → Option Text
key_or none other = other
key_or (some key) other = some key

-- The token of the authorization, else the header of its own. Values are visible texts.
unfoldable pub extract_api_key : (H : HeaderMap) → H.Map → Option Text
unfolding bearer key_or
extract_api_key H headers =
    key_or (bearer (H.get (codes "authorization") headers)) (H.get (codes "x-api-key") headers)

-- `parse::<u64>` of digits, behind a plus sign or none.
digits_from : ℕ → Text → Option ℕ
digits_from n [] = some n
digits_from n (c ∷ s) =
    let m = n * 10 + (c - 48) in
    let rest = digits_from m s in if leb 48 c && leb c 57 && ltb m u64_mod then rest else none

unfoldable pub parse_u64 : Text → Option ℕ
unfolding digits_from
parse_u64 [] = none
parse_u64 (c ∷ []) = digits_from 0 (c ∷ [])
parse_u64 (c ∷ d ∷ s) = digits_from 0 (if c == 43 then d ∷ s else c ∷ d ∷ s)

unfoldable pub parse_content_length : (H : HeaderMap) → H.Map → Option ℕ
unfolding parse_u64
parse_content_length H headers = and_then (H.get (codes "content-length") headers) parse_u64

-- `eq_ignore_ascii_case` on the trimmed name.
unfoldable pub is_qwen3 : Text → Bool
is_qwen3 model = list_beq (to_ascii_lowercase (trim model)) (codes "qwen3-rerank")

unfoldable pub qwen_rerank_upstream_uri : Text → Text
qwen_rerank_upstream_uri model =
    if is_qwen3 model
    then codes "/compatible-api/v1/reranks"
    else codes "/api/v1/services/rerank/text-rerank/text-rerank"
