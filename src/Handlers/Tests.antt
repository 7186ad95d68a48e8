-- ===== src/Handlers/Tests.antt =====
-- A request to the endpoint of a model, at concrete inputs.
use brigh_to_router.Json.{Codec, num, str, obj}
use brigh_to_router.Contract.Protocol.{voyage_rerank}
use brigh_to_router.Handlers.Adapt.{rewrite_json_proxy_body}
use brigh_to_router.Handlers.Adapt.Voyage.{voyage_field, rewrite_json_proxy_body-voyage}
use brigh_to_router.Prelude.{subst, Bool-cases, inl, inr, length, ◌<◌, ◌≤◌}
use brigh_to_router.Prelude.{◌≡◌, refl, true, false, none, some, [], ◌∷◌, if◌then◌else◌, arith}
use brigh_to_router.Prelude.Eq.{ℕ_eq, list_eq, list_beq, list_beq_iff}
use brigh_to_router.Prelude.Result.{ok}
use brigh_to_router.Prelude.Text.{Text, codes}
use brigh_to_router.Contract.Config.{ModelRoute, ConfigSnapshot}
use brigh_to_router.Contract.Policy.{round_robin}
use brigh_to_router.Budget.Tests.{caller, store}
use brigh_to_router.Route.Tests.{route, backend}
use brigh_to_router.Json.{Value, Fields, end, field, get_field}
use brigh_to_router.Bridge.Tests.{codec}
use brigh_to_router.Proxy.Forward.Tests.{maps, scores, world, state}
use brigh_to_router.Proxy.Serve.Tests.{tools, upstream, clock}
use brigh_to_router.Ledger.Tests.{channels}
use brigh_to_router.Route.Acquire.Again.{named}
use brigh_to_router.Prelude.Maps.{lookup}
use brigh_to_router.Proxy.Reporter.{AppState}
use brigh_to_router.Handlers.Adapt.{Edits}
use brigh_to_router.Handlers.Body.{
  RequestHead, Chunks, IncomingBody, streaming_candidate, found, read_incoming_body,
}
use brigh_to_router.Handlers.{parse_content_length}
use brigh_to_router.Handlers.Endpoint.{endpoint}
use brigh_to_router.Handlers.Endpoint.Settles.{Enough, Ends, endpoint-settles}
use brigh_to_router.Handlers.Body.Whole.{IsWhole, read_incoming_body-IsWhole}
use brigh_to_router.Handlers.Admission.{GenerateRequest, Outside}
use brigh_to_router.Handlers.Generate.{handle_generate}
use brigh_to_router.Handlers.Generate.Settles.{Leaves, handle_generate-Leaves}

unfoldable remove : Text → Fields → Fields
remove k end = end
remove k (field j v fs) = let rest = remove k fs in if list_beq k j then rest else field j v rest

get-insert :
    (k j : Text) (v : Value) (fs : Fields)
    → get_field (field k v fs) j ≡ (if list_beq k j then some v else get_field fs j)
unfolding get_field
get-insert k j v fs = refl

get-remove :
    (k j : Text) (fs : Fields)
    → get_field (remove k fs) j ≡ (if list_beq k j then none else get_field fs j)
unfolding get_field remove
get-remove k j end = ground arith
get-remove k j (field i v fs) =
    ground (arith, get-remove k j fs, list_beq_iff k i, list_beq_iff i j, list_beq_iff k j)

abbrev edits : Edits
edits = record { insert = field; remove = remove; get-insert = get-insert; get-remove = get-remove }

abbrev head : RequestHead
head = record { model = codes "m"; stream = false; stream_options_present = false }

abbrev outside : Outside
outside = record {
  codec = codec;
  as_finite = some;
  edits = edits;
  hash_key = λ key. 9 ∷ [];
  parse_head = λ body. some head;
  scan = λ prefix. found head;
  estimate_tokens_len = λ n r. 40;
  estimate_input_tokens = λ body r. some 40;
  max_body_bytes = 100_000;
  request_id = codes "r";
  now_secs = 5;
  now_ms = 5_000;
}

abbrev snapshot : ConfigSnapshot
snapshot = record {
  backends = (1, backend) ∷ [];
  routes = (codes "m", route round_robin) ∷ [];
  teams = (7, record { id = 7; name = codes "t"; budget = none; enabled = true }) ∷ [];
  keys_by_hash = (9 ∷ [], caller) ∷ [];
}

abbrev chunks : Chunks
chunks = ok (codes "{\"model\"") ∷ ok (codes ":\"m\"}") ∷ []

abbrev request : GenerateRequest maps
request = record {
  headers =
      (codes "authorization", codes "Bearer mine") ∷ (codes "content-length", codes "14") ∷ [];
  path_and_query = some (codes "/v1/chat/completions");
  chunks = chunks;
}

handle_generate-Leaves_example :
    Leaves maps outside snapshot
      (codes "/v1/chat/completions")
      request
      store
      (handle_generate outside maps snapshot (codes "/v1/chat/completions") request store)
handle_generate-Leaves_example =
    handle_generate-Leaves maps outside snapshot (codes "/v1/chat/completions") request store

length_given : parse_content_length maps request.headers ≡ some 14
unfolding parse_content_length lookup
length_given = refl

-- A long body is streamed from its first chunk on.
abbrev candidate : IncomingBody
candidate = streaming_candidate head (codes "{\"model\"") (ok (codes ":\"m\"}") ∷ []) 70_000

candidate_read :
    read_incoming_body outside.parse_head outside.scan 100_000 (some 70_000) chunks ≡ ok candidate
unfolding read_incoming_body
candidate_read = refl

read_incoming_body-IsWhole_example :
    IsWhole outside.parse_head outside.scan 100_000 chunks candidate
read_incoming_body-IsWhole_example =
    read_incoming_body-IsWhole outside.parse_head outside.scan 100_000 (omega arith) (some 70_000)
      chunks candidate candidate_read

abbrev before : AppState channels
before = record state { budget = store }

the_route :
    (name : Text) (r : ModelRoute) → lookup name snapshot.routes ≡ some r → route round_robin ≡ r
unfolding lookup
the_route name r e = elim (Bool-cases (list_beq (codes "m") name)) [
  | inl same ↦ ground (arith, e, same)
  | inr other ↦ absurd (ground (arith, e, other))
]

enough :
    Enough maps
      (λ m. m)
      outside
      tools
      (λ n. true)
      channels
      scores
      world
      3
      10
      (λ f. upstream)
      clock
      clock
      3
      snapshot
      (codes "/v1/chat/completions")
      request
enough = record {
  search = λ name r e.
      subst (λ (x : ModelRoute). length x.backend_ids < 3) (the_route name r e) (omega arith);
  turns = λ name r e.
      subst (λ (x : ModelRoute). length (named x) ≤ 3) (the_route name r e) (omega arith);
  two = omega arith;
}

endpoint-settles_example :
    Ends maps
      (λ m. m)
      outside
      tools
      (λ n. true)
      channels
      scores
      world
      3
      10
      (λ f. upstream)
      clock
      clock
      3
      snapshot
      (codes "/v1/chat/completions")
      request
      before
      (endpoint maps
        (λ m. m)
        outside
        tools
        (λ n. true)
        channels
        scores
        world
        3
        10
        (λ f. upstream)
        clock
        clock
        3
        snapshot
        (codes "/v1/chat/completions")
        request
        before)
endpoint-settles_example =
    endpoint-settles maps (λ m. m) outside tools (λ n. true) channels scores world 3 10
      (λ f. upstream) clock clock 3 snapshot (codes "/v1/chat/completions") request enough before

-- A request for three results.
abbrev ranking : Fields
ranking = field (codes "model") (str (codes "r")) (field (codes "top_n") (num 3) end)

abbrev rankings : Codec
rankings = record codec { parse_bytes = λ body. ok (obj ranking) }

rewrite_json_proxy_body-voyage_example :
    (out : Fields) × (rewrite_json_proxy_body rankings edits
        (codes "{}")
        (route round_robin)
        voyage_rerank
      ≡ some (rankings.utf8 (rankings.encode (obj out))))
    × ((j : Text)
        → get_field out j
          ≡ (if list_beq (codes "model") j then some (str (codes "m")) else voyage_field ranking j))
rewrite_json_proxy_body-voyage_example =
    rewrite_json_proxy_body-voyage rankings edits (codes "{}") (route round_robin) ranking refl
