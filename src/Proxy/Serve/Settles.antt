-- ===== src/Proxy/Serve/Settles.antt =====
-- A whole request, from its reservation to its end.
use brigh_to_router.Prelude.{
  ℕ, ◌≤◌, ◌<◌, ◌≡◌, ◌⊎◌, inl, inr, refl, ap, ◌∙◌, Bool, Option, none, some, List, [], ◌∷◌, length,
  saturating_add,
}
use brigh_to_router.Prelude.Result.{ok}
use brigh_to_router.Prelude.Text.{Text}
use brigh_to_router.Contract.Config.{ApiKey}
use brigh_to_router.Budget.{RamBudgetStore, commit, rollback, reserve, release_concurrency}
use brigh_to_router.Budget.Usage.{ReservedScope, UsageKey, used, rollback_scopes}
use brigh_to_router.Budget.Conservation.{rollback-reserve}
use brigh_to_router.Ledger.Sink.{Channels, try_record}
use brigh_to_router.Route.Select.{Scores}
use brigh_to_router.Route.Acquire.Again.{named}
use brigh_to_router.Proxy.Headers.{HeaderMap}
use brigh_to_router.Proxy.Attempt.{ProxyContext, ProxyRequestBody}
use brigh_to_router.Proxy.Reporter.{
  CompletionReporter, Report, Clock, AppState, charged, event_of, maybe_rollback, maybe_release,
  live, finish_all,
}
use brigh_to_router.Proxy.Reporter.Once.{Open, outcome, live-outcome}
use brigh_to_router.Proxy.Forward.{
  World, Incoming, Forward, Ending, answered, handed, proxy_forward,
}
use brigh_to_router.Proxy.Forward.Outcome.{Answered, Handed, Left}
use brigh_to_router.Proxy.Forward.Settled.{proxy_forward-Good}
use brigh_to_router.Proxy.Respond.{Upstream, Tools, answer_of, forward_backend_response}
use brigh_to_router.Proxy.Serve.{finishing, completed, serve}

-- A request that was refused: no counter of the budget shows it, and the ledger has no event of it.
pub record Refused {channels : Channels} (before : RamBudgetStore) (s final : AppState channels)
    : Type 0 where
  pub usage : (j : UsageKey) → used final.budget.usage j ≡ used before.usage j
  pub ledger : final.ledger ≡ s.ledger

-- A request that was served: what it reserved is committed to the tokens charged for the one report,
-- its slot is given back, and the ledger got the one event of that report.
pub record Served {channels : Channels} (scopes : List ReservedScope) (guard : Option ℕ)
    (clock : Clock) (s final : AppState channels) : Type 0 where
  pub reporter : CompletionReporter
  pub report : Report
  pub budget :
      final.budget
      ≡ release_concurrency
          (commit s.budget scopes
            (saturating_add (charged reporter report).0 (charged reporter report).1))
          guard
  pub ledger :
      final.ledger
      ≡ try_record channels clock.now_ms
          (event_of reporter clock report (charged reporter report))
          s.ledger

given_back :
    (guard : Option ℕ) (b : RamBudgetStore) (scopes : List ReservedScope) (j : UsageKey)
    → used (rollback (release_concurrency b guard) scopes).usage j
      ≡ used (rollback b scopes).usage j
unfolding release_concurrency rollback
given_back none b scopes j = refl
given_back (some id) b scopes j = refl

module _ (H : HeaderMap) (tools : Tools) (accepts : ℕ → Bool) (channels : Channels)
    (scores : Scores) (w : World) (incoming : Incoming) (ctx : ProxyContext) (fuel later : ℕ)
    (upstream : Forward H channels → Upstream) (clock last : Clock) where
  finishing-answered :
      (b mid : RamBudgetStore) (key : ApiKey) (model : Text) (est now_secs now_ms : ℕ)
      (scopes : List ReservedScope) (guard : Option ℕ) (s : AppState channels)
      (f : Forward H channels)
      → reserve b key model est now_secs now_ms ≡ (mid, ok scopes)
      → s.budget.usage ≡ mid.usage
      → ctx.reservation ≡ some scopes
      → ctx.concurrency ≡ some guard
      → Answered ctx s f
      → Refused b s f.state
  unfolding rollback_scopes rollback used
  finishing-answered b mid key model est now_secs now_ms scopes guard s f e same res con a =
      let budget : f.state.budget ≡ rollback (release_concurrency s.budget guard) scopes =
        a.budget
        ∙ ap (λ o. maybe_rollback o (maybe_release ctx.concurrency s.budget)) res
        ∙ ap (λ o. maybe_rollback (some scopes) (maybe_release o s.budget)) con
        ∙ unfold maybe_rollback in unfold maybe_release in refl in
      record {
        usage = λ j.
            ap (λ t. used t.usage j) budget
            ∙ given_back guard s.budget scopes j
            ∙ ap (λ u. used (rollback_scopes u scopes) j) same
            ∙ rollback-reserve b mid key model est now_secs now_ms scopes j e;
        ledger = a.ledger;
      }

  finishing-handed :
      (scopes : List ReservedScope) (guard : Option ℕ) (s : AppState channels)
      (f : Forward H channels) (status : ℕ) (format : brigh_to_router.Contract.Config.BackendFormat)
      (r : CompletionReporter) (name : Text) (ms : ℕ)
      → ctx.reservation ≡ some scopes
      → ctx.concurrency ≡ some guard
      → Handed ctx s r f
      → Served scopes guard clock s (
          finishing H tools accepts channels scores w incoming ctx fuel later upstream clock last
            (handed status format r name ms, f))
  unfolding finishing forward_backend_response live finish_all outcome
  finishing-handed scopes guard s f status format r name ms res con h =
      let x =
        (answer_of H tools accepts r.stream format ctx.bridge
          (record (upstream f) { status = status })).1 in
      let opened : Open scopes guard r = record {
        holds_scopes = h.reservation ∙ res;
        holds_guard = h.concurrency ∙ con;
        unsettled = h.unsettled;
      } in
      let done = live-outcome channels ((clock, x) ∷ []) last r scopes guard f.state opened in
      let tokens = saturating_add (charged r x).0 (charged r x).1 in
      record {
        reporter = r;
        report = x;
        budget =
            ap (λ a. a.budget) done
            ∙ ap (λ t. release_concurrency (commit t scopes tokens) guard) h.budget;
        ledger =
            ap (λ a. a.ledger) done
            ∙ ap (λ l. try_record channels clock.now_ms (event_of r clock x (charged r x)) l)
                h.ledger;
      }

  -- What a request leaves, by how its loop ended: an answer of the router's own is a refusal, and a
  -- response that was handed over is served, for the reporter that came with it and the report that
  -- its response gave.
  unfoldable pub Settled :
      RamBudgetStore
      → List ReservedScope
      → Option ℕ
      → AppState channels
      → Ending H
      → Forward H channels
      → AppState channels
      → Type 0
  Settled b scopes guard s (answered r) f final = Refused b s final
  Settled b scopes guard s (handed status format r name ms) f final =
      (served : Served scopes guard clock s final) × (served.reporter ≡ r)
      × (served.report
          ≡ (answer_of H tools accepts r.stream format ctx.bridge
              (record (upstream f) { status = status })).1)

  finishing-Settled :
      (b mid : RamBudgetStore) (key : ApiKey) (model : Text) (est now_secs now_ms : ℕ)
      (scopes : List ReservedScope) (guard : Option ℕ) (s : AppState channels) (ending : Ending H)
      (f : Forward H channels)
      → reserve b key model est now_secs now_ms ≡ (mid, ok scopes)
      → s.budget.usage ≡ mid.usage
      → ctx.reservation ≡ some scopes
      → ctx.concurrency ≡ some guard
      → Left ctx s ending f
      → Settled b scopes guard s ending f (
          finishing H tools accepts channels scores w incoming ctx fuel later upstream clock last
            (ending, f))
  unfolding Left finishing Settled finishing-handed
  finishing-Settled b mid key model est now_secs now_ms scopes guard s (answered r) f e same res con
        left =
      finishing-answered b mid key model est now_secs now_ms scopes guard s f e same res con left
  finishing-Settled b mid key model est now_secs now_ms scopes guard s
        (handed status format r name ms) f e same res con left =
      (finishing-handed scopes guard s f status format r name ms res con left, refl, refl)

  -- A request whose reservation was made, and whose state has the usage that it left, ends as its loop
  -- does. Where the loop answers by itself, every usage counter is as before the reservation and the
  -- ledger got no event. Where it hands a response over, the request is charged once for the report of
  -- that response and recorded once by it: whatever the backends answer, the other requests do to the
  -- pool, and the client takes. Every other task that touches the budget or the ledger meanwhile is
  -- left out; there are turns for every backend of the route, and fuel for each search.
  pub serve-settles :
      (rounds : ℕ) (upload : ProxyRequestBody) (b mid : RamBudgetStore) (key : ApiKey)
      (model : Text) (est now_secs now_ms : ℕ) (scopes : List ReservedScope) (guard : Option ℕ)
      (s : AppState channels)
      → length ctx.route.backend_ids < fuel
      → 1 < fuel
      → length (named ctx.route) ≤ rounds
      → reserve b key model est now_secs now_ms ≡ (mid, ok scopes)
      → s.budget.usage ≡ mid.usage
      → ctx.reservation ≡ some scopes
      → ctx.concurrency ≡ some guard
      → (ending : Ending H) × (after : Forward H channels) × (final : AppState channels)
        × (proxy_forward H tools.codec channels scores w incoming ctx fuel later rounds upload s
            ≡ some (ending, after))
        × (serve H tools accepts channels scores w incoming ctx fuel later upstream clock last
              rounds upload s
            ≡ some final)
        × Settled b scopes guard s ending after final
  unfolding serve completed
  serve-settles rounds upload b mid key model est now_secs now_ms scopes guard s enough two turns e
        same res con =
      let g =
        proxy_forward-Good H tools.codec channels scores w incoming ctx fuel later s enough two
          rounds upload turns in
      rw g.returns (
        g.ending,
        g.after,
        _,
        refl,
        refl,
        finishing-Settled b mid key model est now_secs now_ms scopes guard s g.ending g.after e same
            res con g.left_so,
      )

  pub either :
      (b : RamBudgetStore) (scopes : List ReservedScope) (guard : Option ℕ) (s : AppState channels)
      (ending : Ending H) (f : Forward H channels) (final : AppState channels)
      → Settled b scopes guard s ending f final
      → Refused b s final ⊎ Served scopes guard clock s final
  unfolding Settled
  either b scopes guard s (answered r) f final h = inl h
  either b scopes guard s (handed status format r name ms) f final h = inr h.0
