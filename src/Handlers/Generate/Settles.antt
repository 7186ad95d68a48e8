-- ===== src/Handlers/Generate/Settles.antt =====
-- What a request to `handle_generate` leaves of the budget, and the request that is passed on.
use brigh_to_router.Prelude.{ℕ, ◌≡◌, refl, sym, ap, ◌∙◌, subst, Option, none, some, List}
use brigh_to_router.Prelude.Result.{Result, ok, err}
use brigh_to_router.Prelude.Text.{Text}
use brigh_to_router.Contract.Config.{ConfigSnapshot}
use brigh_to_router.Budget.{
  RamBudgetStore, BudgetError, rate_limited, budget_exceeded, reserve, rollback,
  acquire_concurrency,
}
use brigh_to_router.Budget.Usage.{ReservedScope, UsageKey, used, rollback_scopes}
use brigh_to_router.Budget.Conservation.{held, reserve-used, rollback-reserve}
use brigh_to_router.Budget.Guards.{acquire_concurrency-usage}
use brigh_to_router.Proxy.Headers.{HeaderMap}
use brigh_to_router.Proxy.Attempt.{ProxyContext}
use brigh_to_router.Handlers.Body.{IncomingBody}
use brigh_to_router.Handlers.Admission.{GenerateRequest, Outside, Admission}
use brigh_to_router.Handlers.Admission.Sound.{bind-ok, ok-injective, Admitted, admit-Admitted}
use brigh_to_router.Handlers.Generate.{
  Outcome, refused, forwarded, Prepared, context, after_slot, after_reserve, finish_checks, checks,
  handle_generate,
}

-- A request that is passed on: it is admitted, its tokens are reserved, and the slot of its key is
-- taken, and its context holds all of that.
pub record PassedOn (H : HeaderMap) (o : Outside) (snapshot : ConfigSnapshot) (path : Text)
    (r : GenerateRequest H) (s t : RamBudgetStore) (ctx : ProxyContext) : Type 0 where
  pub admission : Admission
  pub incoming : IncomingBody
  pub admitted : Admitted H o snapshot path r admission incoming
  pub same_key : ctx.api_key ≡ admission.key
  pub same_model : ctx.model_name ≡ admission.model
  pub same_route : ctx.route ≡ admission.route
  pub mid : RamBudgetStore
  pub scopes : List ReservedScope
  pub guard : Option ℕ
  pub reserved :
      reserve s ctx.api_key ctx.model_name ctx.estimated_input_tokens o.now_secs o.now_ms
      ≡ (mid, ok scopes)
  pub slot : acquire_concurrency mid ctx.api_key ≡ (t, some guard)
  pub reservation : ctx.reservation ≡ some scopes
  pub concurrency : ctx.concurrency ≡ some guard

module _ (H : HeaderMap) (o : Outside) (snapshot : ConfigSnapshot) (path : Text)
    (r : GenerateRequest H) where
  -- What becomes of the budget, by the outcome.
  unfoldable pub Leaves : RamBudgetStore → Outcome × RamBudgetStore → Type 0
  Leaves s (refused code m after, t) = (j : UsageKey) → used t.usage j ≡ used s.usage j
  Leaves s (forwarded ctx body uri stripped, t) = PassedOn H o snapshot path r s t ctx

  unreserved :
      (a : Admission) (p : Prepared o) (s t : RamBudgetStore) (x : BudgetError)
      → reserve s a.key a.model p.est_tokens o.now_secs o.now_ms ≡ (t, err x)
      → (j : UsageKey) → used t.usage j ≡ used s.usage j
  unreserved a p s t x e j =
      ap (λ y. used y.0.usage j) (sym e)
      ∙ reserve-used s a.key a.model p.est_tokens o.now_secs o.now_ms j
      ∙ ap (λ y. held (used s.usage j) y.1 j) e

  checks-ok :
      (a : Admission) (p : Prepared o)
      → checks o H snapshot path r ≡ ok (a, p)
      → (incoming : IncomingBody) × Admitted H o snapshot path r a incoming
  unfolding checks
  checks-ok a p e =
      let ((b, incoming), first, e1) = bind-ok _ _ (a, p) e in
      let (q, prepared, e2) = bind-ok _ _ (a, p) e1 in
      let same : b ≡ a = ap (λ (y : Admission × Prepared o). y.0) (ok-injective (b, q) (a, p) e2) in
      (
        incoming,
        subst (λ (c : Admission). Admitted H o snapshot path r c incoming) same
            (admit-Admitted H o snapshot path r b incoming first),
      )

  after_slot-Leaves :
      (a : Admission) (incoming : IncomingBody) (p : Prepared o) (s mid : RamBudgetStore)
      (scopes : List ReservedScope) (x : RamBudgetStore × Option (Option ℕ))
      → Admitted H o snapshot path r a incoming
      → reserve s a.key a.model p.est_tokens o.now_secs o.now_ms ≡ (mid, ok scopes)
      → acquire_concurrency mid a.key ≡ x
      → Leaves s (after_slot o path a p scopes x)
  unfolding after_slot context Leaves rollback
  after_slot-Leaves a incoming p s mid scopes (t, some guard) admitted e slot = record {
    admission = a;
    incoming = incoming;
    admitted = admitted;
    same_key = refl;
    same_model = refl;
    same_route = refl;
    mid = mid;
    scopes = scopes;
    guard = guard;
    reserved = e;
    slot = slot;
    reservation = refl;
    concurrency = refl;
  }
  after_slot-Leaves a incoming p s mid scopes (t, none) admitted e slot = λ j.
      ap (λ u. used (rollback_scopes u scopes) j)
        (ap (λ y. y.0.usage) (sym slot) ∙ acquire_concurrency-usage mid a.key)
      ∙ rollback-reserve s mid a.key a.model p.est_tokens o.now_secs o.now_ms scopes j e

  after_reserve-Leaves :
      (a : Admission) (incoming : IncomingBody) (p : Prepared o) (s : RamBudgetStore)
      (x : RamBudgetStore × Result (List ReservedScope) BudgetError)
      → Admitted H o snapshot path r a incoming
      → reserve s a.key a.model p.est_tokens o.now_secs o.now_ms ≡ x
      → Leaves s (after_reserve o path a p x)
  unfolding after_reserve Leaves
  after_reserve-Leaves a incoming p s (t, err (budget_exceeded n)) admitted e =
      unreserved a p s t (budget_exceeded n) e
  after_reserve-Leaves a incoming p s (t, err (rate_limited n)) admitted e =
      unreserved a p s t (rate_limited n) e
  after_reserve-Leaves a incoming p s (t, ok scopes) admitted e =
      unfold Leaves in after_slot-Leaves a incoming p s t scopes _ admitted e refl

  finish_checks-Leaves :
      (x : Result (Admission × Prepared o) (ℕ × Text)) (s : RamBudgetStore)
      → checks o H snapshot path r ≡ x
      → Leaves s (finish_checks o path x s)
  unfolding finish_checks
  finish_checks-Leaves (err (code, m)) s e = unfold Leaves in λ j. refl
  finish_checks-Leaves (ok (a, p)) s e =
      let (b, admitted) = checks-ok a p e in after_reserve-Leaves a b p s _ admitted refl

  -- Every request to the endpoint is either refused, and leaves every usage counter as it was, or passed
  -- on: then its key was given and may be used now, its model is one of the key's, the model's route is
  -- enabled, has an enabled backend and takes the endpoint, the tokens are reserved in the state from
  -- before, and after that the slot of the key was taken.
  pub handle_generate-Leaves :
      (s : RamBudgetStore) → Leaves s (handle_generate o H snapshot path r s)
  unfolding handle_generate
  handle_generate-Leaves s = finish_checks-Leaves _ s refl
