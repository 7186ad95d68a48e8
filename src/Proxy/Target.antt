-- ===== src/Proxy/Target.antt =====
-- Where and how a request is forwarded: src/proxy/mod.rs. A text is its code points or its bytes; the
-- search for a substring is a package's.
use brigh_to_router.Prelude.{
  ℕ, Bool, true, false, ◌||◌, Option, none, some, List, [], ◌∷◌, ◌++◌, leb, ◌==◌, if◌then◌else◌,
}
use mathlib.Core.List.{reverse}
use brigh_to_router.Prelude.Eq.{list_beq}
use brigh_to_router.Prelude.Text.{Text, codes, to_ascii_lowercase}
use brigh_to_router.Contract.Config.{unwrap_or}
use brigh_to_router.Json.{Bytes}

unfoldable pub is_retryable_status : ℕ → Bool
is_retryable_status status = leb 500 status || status == 429

is_one_of : Text → List Text → Bool
is_one_of s [] = false
is_one_of s (n ∷ ns) = list_beq s n || is_one_of s ns

unfoldable pub must_drop_header : Text → Bool
unfolding is_one_of
must_drop_header name = is_one_of (to_ascii_lowercase name) (
    codes "authorization"
    ∷ codes "x-api-key"
    ∷ codes "host"
    ∷ codes "content-length"
    ∷ codes "accept-encoding"
    ∷ codes "connection"
    ∷ codes "transfer-encoding"
    ∷ codes "keep-alive"
    ∷ codes "upgrade"
    ∷ codes "te"
    ∷ codes "trailer"
    ∷ codes "proxy-authorization"
    ∷ codes "proxy-connection"
    ∷ [])

unfoldable pub is_stream_request : (Bytes → Bytes → Bool) → Bytes → Bool
is_stream_request contains body =
    contains body (codes "\"stream\":true") || contains body (codes "\"stream\": true")

-- What follows the last closing brace, and what is before it.
up_to_brace : Bytes → Bytes → Option (Bytes × Bytes)
up_to_brace [] after = none
up_to_brace (b ∷ bs) after =
    if b == b'}' then some (reverse bs, b ∷ after) else up_to_brace bs (b ∷ after)

abbrev pub include_usage : Bytes
include_usage = codes ",\"stream_options\":{\"include_usage\":true}"

spliced : Option (Bytes × Bytes) → Option Bytes
spliced none = none
spliced (some (before, after)) = some (before ++ include_usage ++ after)

unfoldable pub splice_include_usage : Bytes → Option Bytes
unfolding up_to_brace spliced
splice_include_usage body = spliced (up_to_brace (reverse body) [])

strip_prefix : Text → Text → Option Text
strip_prefix [] s = some s
strip_prefix (c ∷ cs) [] = none
strip_prefix (c ∷ cs) (d ∷ s) = if c == d then strip_prefix cs s else none

-- What follows the first place of a text, as `split_once` finds it.
after_first : Text → Text → Option Text
unfolding strip_prefix
after_first p [] = strip_prefix p []
after_first p (c ∷ s) =
    let later = after_first p s in
    elim (strip_prefix p (c ∷ s)) [ none ↦ later | some rest ↦ some rest ]

drop_slashes : Text → Text
drop_slashes [] = []
drop_slashes (c ∷ s) = if c == b'/' then drop_slashes s else c ∷ s

has_slash : Option Text → Bool
unfolding after_first
has_slash none = false
has_slash (some rest) = elim (after_first (codes "/") rest) [ none ↦ false | some x ↦ true ]

join : Text → Text → Text
join base (c ∷ s) = if c == b'/' then base ++ c ∷ s else base ++ b'/' ∷ c ∷ s
join base [] = base ++ b'/' ∷ []

-- The path and query of the request, `/` where there is none.
unfoldable pub build_target_url : Text → Option Text → Text
unfolding drop_slashes has_slash join
build_target_url base_url path_and_query =
    let path = unwrap_or path_and_query (codes "/") in
    let trimmed = reverse (drop_slashes (reverse base_url)) in
    join trimmed (
      if has_slash (after_first (codes "://") trimmed)
      then unwrap_or (strip_prefix (codes "/v1") path) path
      else path)
