-- ===== src/Handlers/Endpoint/Settles.antt =====
-- What a whole request to an endpoint leaves of the budget and the ledger.
use brigh_to_router.Prelude.{
  ℕ, ◌≤◌, ◌<◌, ◌≡◌, ◌⊎◌, inl, inr, refl, sym, ap, ◌∙◌, Bool, Option, some, length,
}
use brigh_to_router.Prelude.Eq.{list_eq}
use brigh_to_router.Prelude.Maps.{lookup}
use brigh_to_router.Prelude.Text.{Text}
use brigh_to_router.Contract.Config.{ModelRoute, ConfigSnapshot}
use brigh_to_router.Budget.{RamBudgetStore}
use brigh_to_router.Budget.Guards.{acquire_concurrency-usage}
use brigh_to_router.Ledger.Sink.{Channels}
use brigh_to_router.Route.Select.{Scores}
use brigh_to_router.Route.Acquire.Again.{named}
use brigh_to_router.Proxy.Headers.{HeaderMap, Headers}
use brigh_to_router.Proxy.Attempt.{ProxyContext}
use brigh_to_router.Proxy.Reporter.{Clock, AppState}
use brigh_to_router.Proxy.Forward.{World, Forward}
use brigh_to_router.Proxy.Respond.{Upstream, Tools}
use brigh_to_router.Proxy.Serve.Settles.{Refused, Served, either, serve-settles}
use brigh_to_router.Handlers.Admission.{GenerateRequest, Outside}
use brigh_to_router.Handlers.Generate.{Outcome, refused, forwarded}
use brigh_to_router.Handlers.Generate.Settles.{PassedOn, Leaves, handle_generate-Leaves}
use brigh_to_router.Handlers.Endpoint.{passed_headers, after_checks, endpoint}

module _ (H : HeaderMap) (entries : H.Map → Headers) (o : Outside) (tools : Tools)
    (accepts : ℕ → Bool) (channels : Channels) (scores : Scores) (w : World) (fuel later : ℕ)
    (upstream : Forward H channels → Upstream) (clock last : Clock) (rounds : ℕ)
    (snapshot : ConfigSnapshot) (path : Text) (r : GenerateRequest H) where
  -- A request that was admitted and reserved, and then charged once and recorded once.
  pub record Charged (s final : AppState channels) : Type 0 where
    pub ctx : ProxyContext
    pub after : RamBudgetStore
    pub passed : PassedOn H o snapshot path r s.budget after ctx
    pub served : Served passed.scopes passed.guard clock (record s { budget = after }) final

  -- Turns and fuel are enough for every route of the configuration.
  pub record Enough : Type 0 where
    pub search :
        (name : Text) (route : ModelRoute)
        → lookup name snapshot.routes ≡ some route
        → length route.backend_ids < fuel
    pub turns :
        (name : Text) (route : ModelRoute)
        → lookup name snapshot.routes ≡ some route
        → length (named route) ≤ rounds
    pub two : 1 < fuel

  unfoldable pub Ends : AppState channels → Option (AppState channels) → Type 0
  Ends s x =
      (final : AppState channels) × (x ≡ some final) × (Refused s.budget s final ⊎ Charged s final)

  after_checks-Ends :
      (s : AppState channels) (x : Outcome × RamBudgetStore)
      → Enough
      → Leaves H o snapshot path r s.budget x
      → Ends s (
          after_checks H entries o tools accepts channels scores w fuel later upstream clock last
            rounds r s x)
  unfolding after_checks Leaves Ends
  after_checks-Ends s (refused code m after, t) enough same =
      (record s { budget = t }, refl, inl (record { usage = same; ledger = refl }))
  after_checks-Ends s (forwarded ctx body uri stripped, t) enough p =
      let listed = p.admitted.routed.listed ∙ ap some (sym p.same_route) in
      let (ending, f, final, loop, ends, settled) =
        serve-settles H tools accepts channels scores w
          (record { path_and_query = uri; headers = passed_headers stripped (entries r.headers) })
          ctx fuel later upstream clock last rounds body s.budget p.mid ctx.api_key ctx.model_name
          ctx.estimated_input_tokens o.now_secs o.now_ms p.scopes p.guard (record s { budget = t })
          (enough.search _ ctx.route listed) enough.two (enough.turns _ ctx.route listed) p.reserved
          (ap (λ y. y.0.usage) (sym p.slot) ∙ acquire_concurrency-usage p.mid ctx.api_key)
          p.reservation p.concurrency in
      (
        final,
        ends,
        elim (either H tools accepts channels scores w
            (record { path_and_query = uri; headers = passed_headers stripped (entries r.headers) })
            ctx fuel later upstream clock last s.budget p.scopes p.guard (record s { budget = t })
            ending f final settled) [
              | inl back ↦ inl (record { usage = back.usage; ledger = back.ledger })
              | inr served ↦ inr (record { ctx = ctx; after = t; passed = p; served = served })
            ],
      )

  -- Every request to an endpoint ends, with turns and fuel for every route of the configuration: either
  -- every usage counter and the ledger are as before it, or its key and its model were admitted and its
  -- tokens reserved, and then it is charged once and recorded once. What other tasks do to the budget
  -- and the ledger meanwhile is left out.
  pub endpoint-settles :
      Enough
      → (s : AppState channels)
      → Ends s (
          endpoint H entries o tools accepts channels scores w fuel later upstream clock last rounds
            snapshot path r s)
  unfolding endpoint
  endpoint-settles enough s =
      after_checks-Ends s _ enough (handle_generate-Leaves H o snapshot path r s.budget)
