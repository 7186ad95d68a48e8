-- ===== src/Proxy/Forward/Tests.antt =====
-- A request that tries two backends: the configuration has no second one any more.
use brigh_to_router.Prelude.{
  ℕ, ◌≤◌, ◌<◌, ◌≡◌, refl, true, false, none, some, List, [], ◌∷◌, length, arith,
}
use brigh_to_router.Prelude.Eq.{list_eq}
use brigh_to_router.Prelude.Maps.{lookup, insert, lookup-insert}
use brigh_to_router.Prelude.Result.{ok}
use brigh_to_router.Prelude.Text.{Text, codes}
use brigh_to_router.Contract.Config.{open_ai}
use brigh_to_router.Contract.Policy.{round_robin}
use brigh_to_router.Contract.Protocol.{open_ai_chat}
use brigh_to_router.Budget.Tests.{caller, both, after}
use brigh_to_router.Route.Select.{Scores}
use brigh_to_router.Route.Acquire.{Outside}
use brigh_to_router.Route.Tests.{route, pool, backend}
use brigh_to_router.Bridge.Tests.{codec}
use brigh_to_router.Ledger.Tests.{channels, sink}
use brigh_to_router.Proxy.Headers.{HeaderMap, Headers, request_headers}
use brigh_to_router.Proxy.Headers.Secrets.{
  authorization_of, api_key_of, request_headers-credentials,
}
use brigh_to_router.Proxy.Attempt.{ProxyContext, open_ai_dialect, buffered}
use brigh_to_router.Proxy.Reporter.{AppState}
use brigh_to_router.Proxy.Forward.{World, Incoming, failed, proxy_forward}
use brigh_to_router.Proxy.Forward.Outcome.{Good}
use brigh_to_router.Proxy.Forward.Settled.{proxy_forward-Good}

pub lookup-nil : (n : Text) → lookup {V = Text} n [] ≡ none
unfolding lookup
lookup-nil n = refl

abbrev pub maps : HeaderMap
maps = record {
  Map = Headers;
  empty = [];
  get = lookup;
  insert = insert;
  append = insert;
  get-empty = lookup-nil;
  get-insert = λ k n v m. lookup-insert k n v m;
  is_valid = λ v. true;
}

abbrev pub out : Outside
out = record { draw = λ n. ok 0; coin = λ n id ties. true; now = λ n. 60; interfere = λ n p. p }

abbrev pub world : World
world = record {
  acquiring = λ n. out;
  config = λ n. (1, backend) ∷ [];
  builds = λ n. true;
  execute = λ n. failed (codes "refused");
  meanwhile = λ n p. p;
  now = λ n. 60;
  pre_forward_ms = λ n. n;
  ttfb_ms = λ n. n;
  elapsed_ms = λ n. n;
  report_text = λ r. [];
}

abbrev pub incoming : Incoming
incoming = record {
  path_and_query = some (codes "/v1/chat/completions");
  headers = (codes "authorization", codes "Bearer mine") ∷ [];
}

abbrev pub ctx : ProxyContext
ctx = record {
  api_key = caller;
  model_name = codes "m";
  route = route round_robin;
  request_id = codes "r";
  stream = true;
  stream_options_present = false;
  protocol = open_ai_chat;
  rewrite_model_in_proxy = false;
  bridge = none;
  response_dialect = open_ai_dialect;
  reservation = some both;
  concurrency = some (some 1);
  estimated_input_tokens = 40;
}

abbrev pub state : AppState channels
state = record { budget = after; backends = pool; ledger = sink; metrics = [] }

abbrev pub scores : Scores
scores = record { lt = λ a b. false; eq = λ a b. true }

proxy_forward-Good_example : Good ctx state (
    proxy_forward maps codec channels scores world incoming ctx 3 10 3
      (buffered (codes "{}"))
      state)
proxy_forward-Good_example =
    proxy_forward-Good maps codec channels scores world incoming ctx 3 10 state (omega arith)
      (omega arith) 3 (buffered (codes "{}")) (omega arith)

abbrev built : Headers
built =
    (codes "authorization", codes "Bearer theirs")
    ∷ (codes "x-request-id", codes "r")
    ∷ (codes "accept-encoding", codes "identity")
    ∷ []

headers_built :
    request_headers maps incoming.headers open_ai (codes "theirs") (codes "r") ≡ some built
unfolding request_headers insert brigh_to_router.Proxy.Target.must_drop_header
    brigh_to_router.Prelude.Text.to_ascii_lowercase brigh_to_router.Prelude.Text.ascii_lower
headers_built = refl

request_headers-credentials_example :
    (maps.get (codes "authorization") built ≡ authorization_of open_ai (codes "theirs"))
    × (maps.get (codes "x-api-key") built ≡ api_key_of open_ai (codes "theirs"))
request_headers-credentials_example =
    request_headers-credentials maps incoming.headers open_ai (codes "theirs") (codes "r") built
      headers_built
