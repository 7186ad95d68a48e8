-- ===== src/Proxy/Reporter/Once.antt =====
-- The life of a `CompletionReporter` of src/proxy/mod.rs, from its reports to its drop.
use brigh_to_router.Prelude.{
  ℕ, ◌+◌, ◌≤◌, ◌<◌, ◌≡◌, refl, ap, ◌∙◌, true, false, Option, none, some, List, [], ◌∷◌, ◌++◌,
  if◌then◌else◌, saturating_add, u64_mod, arith,
}
use brigh_to_router.Prelude.Result.{ok}
use brigh_to_router.Prelude.Text.{Text}
use brigh_to_router.Contract.Config.{ApiKey}
use brigh_to_router.Budget.{RamBudgetStore, commit, rollback, reserve, release_concurrency}
use brigh_to_router.Budget.Usage.{ReservedScope, UsageKey, used}
use brigh_to_router.Budget.Commit.{commit-reserve, on}
use brigh_to_router.Budget.Conservation.{rollback-reserve}
use brigh_to_router.Route.Acquire.{drop}
use brigh_to_router.Ledger.Sink.{Channels, try_record}
use brigh_to_router.Proxy.Reporter.{
  CompletionReporter, Report, Clock, request_total, charged, event_of, metrics_of, aborted,
  maybe_commit, maybe_rollback, maybe_release, AppState, settled, finish, drop_reporter, finish_all,
  live,
}

-- A reservation and a guard of the key, both taken, and nothing settled.
pub record Open (scopes : List ReservedScope) (guard : Option ℕ) (r : CompletionReporter)
    : Type 0 where
  pub holds_scopes : r.reservation ≡ some scopes
  pub holds_guard : r.concurrency ≡ some guard
  pub unsettled : r.finished ≡ false

module _ (channels : Channels) where
  -- What the first report makes of the state, and what a request without a report makes of it.
  unfoldable pub outcome :
      List (Clock × Report)
      → Clock
      → CompletionReporter
      → List ReservedScope
      → Option ℕ
      → AppState channels
      → AppState channels
  outcome [] last r scopes guard s = record {
    budget = release_concurrency (rollback s.budget scopes) guard;
    backends = drop r.backend_id s.backends;
    ledger = try_record channels last.now_ms (event_of r last aborted (0, 0)) s.ledger;
    metrics = s.metrics ++ request_total 0 ∷ [];
  }
  outcome ((clock, x) ∷ xs) last r scopes guard s = record {
    budget =
        release_concurrency
          (commit s.budget scopes (saturating_add (charged r x).0 (charged r x).1)) guard;
    backends = drop r.backend_id s.backends;
    ledger = try_record channels clock.now_ms (event_of r clock x (charged r x)) s.ledger;
    metrics = s.metrics ++ metrics_of r x (charged r x);
  }

  finish-finished :
      (clock : Clock) (x : Report) (r : CompletionReporter) (s : AppState channels)
      → r.finished ≡ true
      → finish channels clock x (r, s) ≡ (r, s)
  unfolding finish
  finish-finished clock x r s h = rw h refl

  finish_all-finished :
      (xs : List (Clock × Report)) (r : CompletionReporter) (s : AppState channels)
      → r.finished ≡ true
      → finish_all channels xs (r, s) ≡ (r, s)
  unfolding finish_all
  finish_all-finished [] r s h = refl
  finish_all-finished ((clock, x) ∷ xs) r s h =
      ap (finish_all channels xs) (finish-finished clock x r s h) ∙ finish_all-finished xs r s h

  finish-first :
      (clock : Clock) (x : Report) (r : CompletionReporter) (scopes : List ReservedScope)
      (guard : Option ℕ) (s : AppState channels)
      → Open scopes guard r
      → finish channels clock x (r, s) ≡ (
        settled channels r,
        record (outcome ((clock, x) ∷ []) clock r scopes guard s) { backends = s.backends },
      )
  unfolding finish outcome maybe_commit maybe_release
  finish-first clock x r scopes guard s h =
      rw h.unsettled (rw h.holds_scopes (rw h.holds_guard refl))

  drop-first :
      (clock : Clock) (r : CompletionReporter) (scopes : List ReservedScope) (guard : Option ℕ)
      (s : AppState channels)
      → Open scopes guard r
      → drop_reporter channels clock (r, s) ≡ outcome [] clock r scopes guard s
  unfolding drop_reporter outcome maybe_rollback maybe_release
  drop-first clock r scopes guard s h = rw h.unsettled (rw h.holds_scopes (rw h.holds_guard refl))

  -- Whatever reports a request gets, and whether it gets any before it is dropped, it is settled once:
  -- by the first report with a commit of the tokens charged, or without one with a rollback; the slots
  -- of the key and of the backend are given back once, and the ledger gets one event.
  pub live-outcome :
      (xs : List (Clock × Report)) (last : Clock) (r : CompletionReporter)
      (scopes : List ReservedScope) (guard : Option ℕ) (s : AppState channels)
      → Open scopes guard r
      → live channels xs last r s ≡ outcome xs last r scopes guard s
  unfolding live finish_all outcome
  live-outcome [] last r scopes guard s h = drop-first last r scopes guard s h
  live-outcome ((clock, x) ∷ xs) last r scopes guard s h =
      let done = record (outcome ((clock, x) ∷ []) clock r scopes guard s) {
        backends = s.backends;
      } in
      ap (λ w. drop_reporter channels last (finish_all channels xs w))
        (finish-first clock x r scopes guard s h)
      ∙ ap (drop_reporter channels last)
          (finish_all-finished xs (settled channels r) done (unfold settled in refl))
      ∙ unfold drop_reporter settled in refl

  release-used :
      (t : RamBudgetStore) (guard : Option ℕ) (j : UsageKey)
      → used (release_concurrency t guard).usage j ≡ used t.usage j
  unfolding release_concurrency
  release-used t none j = refl
  release-used t (some id) j = refl

  -- A request whose reservation was made and that is dropped without a report leaves every usage
  -- counter as it was before the reservation.
  pub live_unreported :
      (b t : RamBudgetStore) (key : ApiKey) (model : Text) (est now_secs now_ms : ℕ)
      (scopes : List ReservedScope) (last : Clock) (r : CompletionReporter) (guard : Option ℕ)
      (s : AppState channels) (j : UsageKey)
      → reserve b key model est now_secs now_ms ≡ (t, ok scopes)
      → Open scopes guard r
      → used (live channels [] last r (record s { budget = t })).budget.usage j ≡ used b.usage j
  live_unreported b t key model est now_secs now_ms scopes last r guard s j e h =
      ap (λ w. used w.budget.usage j)
        (live-outcome [] last r scopes guard (record s { budget = t }) h)
      ∙ unfold outcome in
        release-used (rollback t scopes) guard j
        ∙ rollback-reserve b t key model est now_secs now_ms scopes j e

  -- A request whose reservation was made and that is reported charges each key of its scopes with the
  -- tokens of the first report, and no other key, however often it is reported, provided that no
  -- counter passes 64 bits.
  pub live_reported :
      (b t : RamBudgetStore) (key : ApiKey) (model : Text) (est now_secs now_ms : ℕ)
      (scopes : List ReservedScope) (clock : Clock) (x : Report) (xs : List (Clock × Report))
      (last : Clock) (r : CompletionReporter) (guard : Option ℕ) (s : AppState channels)
      (j : UsageKey)
      → reserve b key model est now_secs now_ms ≡ (t, ok scopes)
      → ((k : UsageKey) → used t.usage k + saturating_add (charged r x).0 (charged r x).1 < u64_mod)
      → Open scopes guard r
      → used (live channels ((clock, x) ∷ xs) last r (record s { budget = t })).budget.usage j
        ≡ used b.usage j
          + (if on scopes j then saturating_add (charged r x).0 (charged r x).1 else 0)
  live_reported b t key model est now_secs now_ms scopes clock x xs last r guard s j e room h =
      let actual = saturating_add (charged r x).0 (charged r x).1 in
      ap (λ w. used w.budget.usage j)
        (live-outcome ((clock, x) ∷ xs) last r scopes guard (record s { budget = t }) h)
      ∙ unfold outcome in
        release-used (commit t scopes actual) guard j
        ∙ commit-reserve b t key model est now_secs now_ms actual scopes j e room

-- A report that is estimated charges a token at least.
pub charged_positive :
    (r : CompletionReporter) (x : Report)
    → x.estimated ≡ true
    → 1 ≤ saturating_add (charged r x).0 (charged r x).1
unfolding charged
charged_positive r x h = ground arith
