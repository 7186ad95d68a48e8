-- ===== src/Proxy/Reporter.antt =====
-- `CompletionReporter` of src/proxy/mod.rs, which settles a request once: the budget, the key's slot,
-- the backend's slot, the ledger and the metrics. It is `finish`ed when the response has ended, and
-- dropped in any case.
pub mod Once
use brigh_to_router.Prelude.{
  ℕ, ◌+◌, max, Bool, true, false, ◌&&◌, Option, none, some, List, [], ◌∷◌, ◌++◌, ltb, ◌==◌,
  if◌then◌else◌, saturating_add,
}
use brigh_to_router.Prelude.Text.{Text, codes}
use brigh_to_router.Budget.{RamBudgetStore, commit, rollback, release_concurrency}
use brigh_to_router.Budget.Usage.{ReservedScope}
use brigh_to_router.Route.Pool.{RamBackendPool}
use brigh_to_router.Route.Acquire.{drop}
use brigh_to_router.Ledger.{UsageEvent}
use brigh_to_router.Ledger.Sink.{Channels, LedgerSink, try_record}

pub record RequestMeta : Type 0 where
  pub key_id : ℕ
  pub team_id : ℕ
  pub model : Text
  pub request_id : Text

pub record CompletionReporter : Type 0 where
  pub meta : RequestMeta
  pub backend_id : ℕ
  pub stream : Bool
  pub pre_forward_ms : ℕ
  pub ttfb_ms : ℕ
  pub reservation : Option (List ReservedScope)
  pub concurrency : Option (Option ℕ)
  pub estimated_input_tokens : ℕ
  pub finished : Bool

-- What `finish` is told of the response.
pub record Report : Type 0 where
  pub status : ℕ
  pub input_tokens : ℕ
  pub output_tokens : ℕ
  pub estimated : Bool
  pub client_aborted : Bool
  pub error_class : Option Text

-- The clocks that are read: in seconds, in milliseconds, and since the request began.
pub record Clock : Type 0 where
  pub now_secs : ℕ
  pub now_ms : ℕ
  pub total_ms : ℕ

-- What is counted: requests by status, tokens by direction, and two observations.
pub data Metric : Type 0 where
  request_total : ℕ → Metric
  input_total output_total : Bool → ℕ → Metric
  observe_ttfb observe_overhead : ℕ → Metric

-- A response without usage is charged with the estimate of the request, and never with nothing.
unfoldable pub charged : CompletionReporter → Report → ℕ × ℕ
charged r x =
    if x.estimated && (saturating_add x.input_tokens x.output_tokens == 0)
    then (max r.estimated_input_tokens 1, 0)
    else (x.input_tokens, x.output_tokens)

pub event_of : CompletionReporter → Clock → Report → ℕ × ℕ → UsageEvent
event_of r clock x (input, output) = record {
  ts = clock.now_secs;
  request_id = r.meta.request_id;
  key_id = r.meta.key_id;
  team_id = r.meta.team_id;
  model = r.meta.model;
  backend_id = r.backend_id;
  status = x.status;
  input_tokens = input;
  output_tokens = output;
  estimated = x.estimated;
  ttfb_ms = r.ttfb_ms;
  total_ms = clock.total_ms;
  router_overhead_ms = r.pre_forward_ms;
  completed_at_ms = clock.now_ms;
  stream = r.stream;
  client_aborted = x.client_aborted;
  error_class = x.error_class;
}

pub metrics_of : CompletionReporter → Report → ℕ × ℕ → List Metric
metrics_of r x (input, output) =
    request_total x.status ∷ (if ltb 0 input then input_total x.estimated input ∷ [] else [])
    ++ (if ltb 0 output then output_total x.estimated output ∷ [] else [])
    ++ observe_ttfb r.ttfb_ms ∷ observe_overhead r.pre_forward_ms ∷ []

-- What a dropped request is reported as.
abbrev pub aborted : Report
aborted = record {
  status = 0;
  input_tokens = 0;
  output_tokens = 0;
  estimated = true;
  client_aborted = true;
  error_class = some (codes "client_aborted");
}

maybe_commit : Option (List ReservedScope) → ℕ → RamBudgetStore → RamBudgetStore
maybe_commit none actual s = s
maybe_commit (some scopes) actual s = commit s scopes actual

unfoldable pub maybe_rollback : Option (List ReservedScope) → RamBudgetStore → RamBudgetStore
maybe_rollback none s = s
maybe_rollback (some scopes) s = rollback s scopes

unfoldable pub maybe_release : Option (Option ℕ) → RamBudgetStore → RamBudgetStore
maybe_release none s = s
maybe_release (some guard) s = release_concurrency s guard

module _ (channels : Channels) where
  pub record AppState : Type 0 where
    pub budget : RamBudgetStore
    pub backends : RamBackendPool
    pub ledger : LedgerSink channels
    pub metrics : List Metric

  settled : CompletionReporter → CompletionReporter
  settled r = record r { reservation = none; concurrency = none; finished = true }

  unfoldable pub finish :
      Clock → Report → CompletionReporter × AppState → CompletionReporter × AppState
  unfolding charged event_of metrics_of maybe_commit maybe_release settled
  finish clock x (r, s) =
      let tokens = charged r x in
      if r.finished then (r, s) else (
        settled r,
        record s {
          budget =
              maybe_release r.concurrency
                (maybe_commit r.reservation (saturating_add tokens.0 tokens.1) s.budget);
          ledger = try_record channels clock.now_ms (event_of r clock x tokens) s.ledger;
          metrics = s.metrics ++ metrics_of r x tokens;
        },
      )

  -- The lease is dropped with the reporter.
  unfoldable pub drop_reporter : Clock → CompletionReporter × AppState → AppState
  unfolding event_of maybe_rollback maybe_release
  drop_reporter clock (r, s) =
      let released = record s { backends = drop r.backend_id s.backends } in
      if r.finished then released else record released {
        budget = maybe_release r.concurrency (maybe_rollback r.reservation s.budget);
        ledger = try_record channels clock.now_ms (event_of r clock aborted (0, 0)) s.ledger;
        metrics = s.metrics ++ request_total 0 ∷ [];
      }

  unfoldable pub finish_all :
      List (Clock × Report) → CompletionReporter × AppState → CompletionReporter × AppState
  finish_all [] w = w
  finish_all ((clock, x) ∷ xs) w = finish_all xs (finish clock x w)

  -- The life of a reporter.
  unfoldable pub live : List (Clock × Report) → Clock → CompletionReporter → AppState → AppState
  live xs last r s = drop_reporter last (finish_all xs (r, s))
