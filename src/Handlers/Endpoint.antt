-- ===== src/Handlers/Endpoint.antt =====
-- A whole request to an endpoint of src/handlers.rs: the checks of `handle_generate`, and the call of
-- `proxy_forward` at its end. The headers of a request in their order are the header map's.
pub mod Settles
use brigh_to_router.Prelude.{ℕ, Bool, Option, none, some, List, [], ◌∷◌, if◌then◌else◌}
use brigh_to_router.Prelude.Text.{Text, codes}
use brigh_to_router.Contract.Config.{ConfigSnapshot}
use brigh_to_router.Budget.{RamBudgetStore}
use brigh_to_router.Ledger.Sink.{Channels}
use brigh_to_router.Route.Select.{Scores}
use brigh_to_router.Proxy.Headers.{HeaderMap, Headers}
use brigh_to_router.Proxy.Reporter.{Clock, AppState}
use brigh_to_router.Proxy.Forward.{World, Forward}
use brigh_to_router.Proxy.Respond.{Upstream, Tools}
use brigh_to_router.Proxy.Serve.{serve}
use brigh_to_router.Handlers.{strip_prefix}
use brigh_to_router.Handlers.Admission.{GenerateRequest, Outside}
use brigh_to_router.Handlers.Generate.{Outcome, refused, forwarded, handle_generate}

-- The headers of the Anthropic protocol are not passed on by a bridge.
keep_unless : Option Text → Text × Text → Headers → Headers
keep_unless none h rest = h ∷ rest
keep_unless (some suffix) h rest = rest

without_anthropic : Headers → Headers
unfolding keep_unless
without_anthropic [] = []
without_anthropic ((name, value) ∷ headers) =
    keep_unless (strip_prefix (codes "anthropic-") name) (name, value) (without_anthropic headers)

passed_headers : Bool → Headers → Headers
unfolding without_anthropic
passed_headers stripped headers = if stripped then without_anthropic headers else headers

module _ (H : HeaderMap) (entries : H.Map → Headers) (o : Outside) (tools : Tools)
    (accepts : ℕ → Bool) (channels : Channels) (scores : Scores) (w : World) (fuel later : ℕ)
    (upstream : Forward H channels → Upstream) (clock last : Clock) (rounds : ℕ) where
  after_checks :
      GenerateRequest H → AppState channels → Outcome × RamBudgetStore → Option (AppState channels)
  unfolding passed_headers
  after_checks r s (refused code m after, t) = some (record s { budget = t })
  after_checks r s (forwarded ctx body uri stripped, t) =
      serve H tools accepts channels scores w
        (record { path_and_query = uri; headers = passed_headers stripped (entries r.headers) }) ctx
        fuel later upstream clock last rounds body (record s { budget = t })

  pub endpoint :
      ConfigSnapshot → Text → GenerateRequest H → AppState channels → Option (AppState channels)
  unfolding after_checks
  endpoint snapshot path r s = after_checks r s (handle_generate o H snapshot path r s.budget)
