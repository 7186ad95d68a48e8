-- ===== src/Ledger/Tests.antt =====
-- The ledger at concrete inputs: a database whose inserts fail from the second call on, and channels of
-- one place.
use brigh_to_router.Prelude.{
  ◌≡◌, refl, true, false, ◌||◌, none, some, List, [], ◌∷◌, ◌++◌, ltb, inl, inr, ◌⊎◌, arith,
}
use brigh_to_router.Prelude.Text.{Text, codes}
use brigh_to_router.Ledger.{UsageEvent}
use brigh_to_router.Ledger.Sink.{
  Sent, sent, full, closed, Channels, LedgerSink, try_record, Recorded, try_record-Recorded,
}
use brigh_to_router.Ledger.Writer.{
  Outcomes, Store, Ledger, Wake, primary, overflow, tick, returned, has_request, replay_lines_to_db,
}
use brigh_to_router.Ledger.Writer.Kept.{known, FilesWork}
use brigh_to_router.Ledger.Writer.Unique.{Unique, replay_lines_to_db-Unique}
use brigh_to_router.Ledger.Step.{run}
use brigh_to_router.Ledger.Step.Delivered.{held, run-held}
use brigh_to_router.Ledger.Step.Batch.{BatchOk, run-BatchOk}

abbrev pub event : Text → UsageEvent
event id = record {
  ts = 0;
  request_id = id;
  key_id = 1;
  team_id = 1;
  model = [];
  backend_id = 1;
  status = 200;
  input_tokens = 3;
  output_tokens = 4;
  estimated = false;
  ttfb_ms = 0;
  total_ms = 0;
  router_overhead_ms = 0;
  completed_at_ms = 0;
  stream = false;
  client_aborted = false;
  error_class = none;
}

abbrev works : Outcomes
works = record {
  inserts = λ n. ltb n 1;
  queries = λ n. true;
  appends = λ n. true;
  renames = λ n. true;
  removes = λ n. true;
  connects = λ n. true;
}

files : FilesWork works
files = record { appends_work = λ n. refl; renames_work = λ n. refl }

abbrev waiting : Ledger
waiting = record {
  store = record { rows = []; fallback = none; replay = none; calls = 0 };
  batch = event (codes "d") ∷ [];
  pool = true;
  overflow_open = true;
}

-- The first batch has its rows, the second goes to the file, as does the last at the end.
abbrev wakes : List Wake
wakes =
    primary (some (event (codes "a")))
    ∷ tick
    ∷ primary (some (event (codes "b")))
    ∷ overflow (some (event (codes "c")))
    ∷ tick
    ∷ primary (some (event (codes "e")))
    ∷ primary none
    ∷ []

d_waits :
    (held (codes "d") waiting || has_request (codes "d") (run works 2 true wakes waiting).seen)
    ≡ true
unfolding held known has_request
d_waits = refl

run-held_example : held (codes "d") (run works 2 true wakes waiting).ledger ≡ true
run-held_example = run-held works files 2 true (codes "d") wakes waiting d_waits

run-BatchOk_example :
    BatchOk 2 (run works 2 true wakes waiting).ledger
    × ((run works 2 true wakes waiting).outcome ≡ returned
        → (run works 2 true wakes waiting).ledger.batch ≡ [])
run-BatchOk_example =
    run-BatchOk works 2 true wakes waiting
      (record { below = ground arith; without_pool = λ p. ground arith })

abbrev replayed : Store
replayed = record { rows = event (codes "a") ∷ []; fallback = none; replay = none; calls = 0 }

replay_lines_to_db-Unique_example :
    Unique
      (replay_lines_to_db works
        (event (codes "a") ∷ event (codes "b") ∷ event (codes "b") ∷ [])
        replayed).0.rows
replay_lines_to_db-Unique_example =
    replay_lines_to_db-Unique works (event (codes "a") ∷ event (codes "b") ∷ event (codes "b") ∷ [])
      replayed (unfold has_request in (refl, tt))

-- Channels of one place.
pub place : List UsageEvent → UsageEvent → Sent × List UsageEvent
place [] e = (sent, e ∷ [])
place (x ∷ xs) e = (full, x ∷ xs)

pub place-sent :
    (c : List UsageEvent) (e : UsageEvent) → (place c e).0 ≡ sent → (place c e).1 ≡ c ++ e ∷ []
unfolding place
place-sent [] e h = refl
place-sent (x ∷ xs) e h = cc

pub place-refused :
    (c : List UsageEvent) (e : UsageEvent)
    → ((place c e).0 ≡ full) ⊎ ((place c e).0 ≡ closed)
    → (place c e).1 ≡ c
unfolding place
place-refused [] e (inl h) = cc
place-refused [] e (inr h) = cc
place-refused (x ∷ xs) e h = refl

abbrev pub channels : Channels
channels = record {
  Channel = List UsageEvent;
  queue = λ c. c;
  try_send = place;
  send_queue = place-sent;
  refuse_queue = place-refused;
}

abbrev pub sink : LedgerSink channels
sink = record {
  primary = event (codes "a") ∷ [];
  overflow = [];
  dropped = 0;
  last_log_ms = 0;
  logs = [];
}

try_record-Recorded_example :
    Recorded channels (event (codes "b")) sink (try_record channels 5_000 (event (codes "b")) sink)
try_record-Recorded_example = try_record-Recorded channels 5_000 (event (codes "b")) sink
