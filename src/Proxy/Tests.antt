-- ===== src/Proxy/Tests.antt =====
-- The proxy at concrete inputs: a request of the key of Budget.Tests, whose backend sends usage.
use brigh_to_router.Prelude.{
  ◌+◌, ◌<◌, ◌≡◌, refl, true, false, none, some, List, [], ◌∷◌, ◌++◌, length, if◌then◌else◌,
  saturating_add, u64_mod, arith,
}
use brigh_to_router.Prelude.Text.{codes}
use brigh_to_router.Contract.Config.{open_ai}
use brigh_to_router.Json.{Bytes}
use brigh_to_router.Budget.{RamBudgetStore}
use brigh_to_router.Budget.Usage.{used}
use brigh_to_router.Budget.Commit.{on}
use brigh_to_router.Budget.Tests.{
  caller, store, total_usage, model_usage, both, after, reserved, after_fits,
}
use brigh_to_router.Bridge.Limited.{concat}
use brigh_to_router.Bridge.Stream.Feed.{split_lines}
use brigh_to_router.Bridge.Tests.{codec}
use brigh_to_router.Ledger.Tests.{channels, sink}
use brigh_to_router.Proxy.Usage.{default}
use brigh_to_router.Proxy.Tap.{fresh, finish, feed_all}
use brigh_to_router.Proxy.Tap.Frames.{inspect_all, finish-feed_all}
use brigh_to_router.Proxy.Upload.{
  ExactLengthChunksBody, new_chunks, poll_chunks, size_hint, frame, Exact, new_chunks-Exact,
  poll_chunks-exact,
}
use brigh_to_router.Proxy.Reporter.{CompletionReporter, Report, Clock, charged, AppState, live}
use brigh_to_router.Proxy.Reporter.Once.{
  Open, outcome, live-outcome, live_unreported, live_reported,
}

-- A line cut in three, and a last one without its newline.
abbrev frames : List Bytes
frames = codes "data: {\"us" ∷ codes "age\":" ∷ codes "1}\n\ndata: {\"usage\":2}" ∷ []

finish-feed_all_example :
    finish codec
      (λ line. true)
      open_ai
      (feed_all codec (λ line. true) open_ai frames (fresh, default))
    ≡ inspect_all codec
        (λ line. true)
        open_ai
        ((split_lines [] (concat frames)).0 ++ (split_lines [] (concat frames)).1 ∷ [])
        default
finish-feed_all_example = finish-feed_all codec (λ line. true) open_ai frames default

abbrev upload : ExactLengthChunksBody
upload = new_chunks ([] ∷ codes "ab" ∷ codes "c" ∷ [])

upload-Exact : Exact upload
upload-Exact = new_chunks-Exact ([] ∷ codes "ab" ∷ codes "c" ∷ []) (unfold concat in ground arith)

upload_going : upload.ended ≡ false
unfolding new_chunks
upload_going = refl

poll_chunks-exact_example :
    (concat upload.chunks ≡ frame (poll_chunks upload).0 ++ concat (poll_chunks upload).1.chunks)
    × ((poll_chunks upload).1.ended ≡ true → concat upload.chunks ≡ [])
    × Exact (poll_chunks upload).1
    × (size_hint upload ≡ length (concat upload.chunks))
    × (size_hint (poll_chunks upload).1 ≡ length (concat (poll_chunks upload).1.chunks))
poll_chunks-exact_example = poll_chunks-exact upload upload-Exact upload_going

abbrev reporter : CompletionReporter
reporter = record {
  meta = record { key_id = 1; team_id = 7; model = codes "m"; request_id = codes "r" };
  backend_id = 3;
  stream = true;
  pre_forward_ms = 2;
  ttfb_ms = 20;
  reservation = some both;
  concurrency = some (some 1);
  estimated_input_tokens = 40;
  finished = false;
}

reporter-Open : Open both (some 1) reporter
reporter-Open = record { holds_scopes = refl; holds_guard = refl; unsettled = refl }

abbrev clock : Clock
clock = record { now_secs = 5; now_ms = 5_000; total_ms = 30 }

abbrev report : Report
report = record {
  status = 200;
  input_tokens = 50;
  output_tokens = 5;
  estimated = false;
  client_aborted = false;
  error_class = none;
}

-- A response without usage.
abbrev unmeasured : Report
unmeasured = record report { input_tokens = 0; output_tokens = 0; estimated = true }

abbrev state : AppState channels
state = record {
  budget = after;
  backends = record { states = []; open_duration = 30 };
  ledger = sink;
  metrics = [];
}

live-outcome_example :
    live channels ((clock, report) ∷ (clock, unmeasured) ∷ []) clock reporter state
    ≡ outcome channels
        ((clock, report) ∷ (clock, unmeasured) ∷ [])
        clock
        reporter
        both
        (some 1)
        state
live-outcome_example =
    live-outcome channels ((clock, report) ∷ (clock, unmeasured) ∷ []) clock reporter both (some 1)
      state reporter-Open

live_unreported_example :
    used
      (live channels [] clock reporter (record state { budget = after })).budget.usage
      model_usage
    ≡ used store.usage model_usage
live_unreported_example =
    live_unreported channels store after caller (codes "m") 40 5 5_000 both clock reporter (some 1)
      state model_usage reserved reporter-Open

report_fits :
    (k : brigh_to_router.Budget.Usage.UsageKey)
    → used after.usage k + saturating_add (charged reporter report).0 (charged reporter report).1
      < u64_mod
unfolding charged
report_fits k = after_fits k

live_reported_example :
    used
      (live channels
        ((clock, report) ∷ [])
        clock
        reporter
        (record state { budget = after })).budget.usage
      total_usage
    ≡ used store.usage total_usage
      + (if on both total_usage
          then saturating_add (charged reporter report).0 (charged reporter report).1
          else 0)
live_reported_example =
    live_reported channels store after caller (codes "m") 40 5 5_000 both clock report [] clock
      reporter (some 1) state total_usage reserved report_fits reporter-Open
