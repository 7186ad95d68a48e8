-- ===== src/Lib.antt =====
-- BrighTO Router: a gateway that authorizes a client's key, reserves its budget, leases a backend for
-- the requested model, forwards the request, translates between the Anthropic and the OpenAI protocol
-- where it must, and records the usage. This library models the parts that decide.
--
-- A request passes through them in this order. `authorize_detailed` looks the key up in the current
-- configuration and checks the model. `RamBudgetStore::reserve` holds the estimated tokens on the
-- scopes of the key or its team, and takes a token of the key's rate. `acquire_excluding` picks a
-- backend by the model's policy and holds one of its slots. After the call, `note_result` tells the
-- circuit breaker. The proxy's `CompletionReporter` settles the request: it commits the reservation with
-- the actual tokens or rolls it back, gives the slots back, and sends a usage event to the ledger. An
-- Anthropic request for an OpenAI backend goes through the bridge, both ways.
--
--   Prelude    numbers, lists, association lists for `HashMap` and `DashMap`, and text
--   Contract   src/contract.rs: Protocol and Policy are the enums with their stored names, Names their
--              round trips, Config the records and the lookups of `ModelRoute`
--   Auth       src/auth.rs; Exact says when a key is accepted
--   Budget     src/budget/mod.rs: Usage is the counters (`reserve_scope`, `commit_scopes`,
--              `rollback_scopes`), Rpm the token bucket, Period the calendar; Budget itself has `reserve`,
--              the guards and the loading of teams. Limits, Conservation, Commit, Guards and Teams are
--              about them; Cas has the compare-exchange loop as interleavings of threads
--   Route      src/route/mod.rs: Exclusions is `BackendExclusions`, Pool the backend states and the
--              circuit breaker (`note_result`), Candidate is `candidate_for_backend`, Select the three
--              policies, Counter the counter blocks and their table, Acquire the loop of `acquire_primary` and the leases,
--              Report `unavailable_report` with its messages as data, Health `model_probe_urls`
--   Json       the values of serde_json and their accessors; Codec is its parser and printer
--   Bridge     src/bridge/mod.rs: errors and identifiers; Limited is `read_body_limited`. Request
--              (request.rs) turns a request around: Content its blocks, Body the system texts and the
--              tools, Messages `anthropic_to_openai`; Leading is about its system message. Response is
--              response.rs. Stream (stream.rs) is `SseTranslator`: Events the state and the blocks, Delta
--              the JSON values and `finalize`, Feed the lines, Message `message_to_sse`, Render the bytes.
--              Phase describes what a client accepts, without regard to the translator; Sound, Delta.Going,
--              Delta.Finalize and Feed.Complete relate the two
--   Ledger     src/ledger/mod.rs: Sink is `LedgerSink`, Writer the database, the fallback file and the
--              replay, Step the loop `run_with_channels`, Seeds `load_usage_seeds`. Writer.Kept,
--              Writer.Replay and Step.Delivered are about what is not lost, Writer.Unique about what is
--              not doubled, Step.Batch about the batch
--   Proxy      src/proxy/mod.rs: Usage reads the tokens of a line or a body, Tap is `SseUsageTap` (Frames
--              is about its frames), Reporter is `CompletionReporter` (Once is about its life), Upload the
--              bodies of exact length, Target the address, the headers and the splice of
--              `stream_options`, Span the rewriting of the model's name (Strings, Blank, Find and Bounds are
--              about it).
--              Headers makes the headers of a request and the error responses, Attempt the body of one
--              attempt, Forward is the loop of `proxy_forward` up to a response (Trace, Invariant,
--              Outcome, Turns and Settled are about it), Pump the tasks that pass a stream on, Respond
--              `forward_backend_response` and the bridge's, Serve a whole call
--   Handlers   src/handlers.rs: Body is `read_incoming_body`, Admission the checks of the key, the model
--              and the route, Adapt the bodies of the rerank protocols, Generate `handle_generate` up to
--              the call of the proxy, Endpoint with that call; Sound, Whole, Voyage
--              and Settles are about them
--
-- The table of the counters is a map from a model to its number, and the query that allocates a block
-- of the counter is its SQL on that map; what the connection makes of a query is a parameter: it is
-- answered, or it fails before or after it took effect.
--
-- A store or a pool is a record; an operation takes it and returns the one that it leaves. Clocks,
-- counters of the database and random draws are arguments. An `i64` id is only compared, so a natural
-- number stands for it. `fetch_add` keeps its wrap-around (`% 2 ^ 32`, `% 2 ^ 64`); `saturating_sub` is
-- the subtraction of natural numbers. Between two atomic operations no other thread runs, but for
-- Budget.Cas, where they interleave freely, and for Route.Acquire, where an arbitrary function changes
-- the pool between the choice of a backend and the claim on it.
--
-- The loop of `acquire_primary` runs on fuel. A failed turn excludes one more backend of the list, so
-- one unit more than the list is long is enough. The scanners of Proxy.Span run on fuel too, one unit
-- more than the body is long: each turn moves them a byte forward at least, or ends them. The retry
-- loop has a number of turns: each one excludes a backend that the route names, so as many turns as it
-- names backends are enough.
--
-- The translator appends bytes to a buffer; its model returns events, and Render gives their bytes. A
-- read of the network is a list of chunks. Whether a call of the database or of the file system works
-- is a function of the number of the call, so a theorem about the ledger holds for every pattern of
-- failures. The channels of the ledger are any that keep their queue when they refuse an event. The
-- search for a substring, floating-point numbers in JSON and the metrics' registry are packages'.
--
-- In a call of the proxy the outside is a record of functions of the number of the attempt: what the
-- backends answer, the configuration at that time, the clocks, and what other requests do to the pool.
-- The drop of a reporter comes at the end of the call, after the task of its stream.
--
-- Not modelled: of src/handlers.rs the scan of a body's prefix (any function stands for it), the
-- multipart adapter, the router of the web framework and the estimates in floating point; of
-- src/proxy/mod.rs the HTTP client and the fields of the metrics; the configuration's SQL, the admin
-- portal and the metrics' registry; the estimate of src/bridge/tokens.rs, which is floating-point; of
-- src/route/mod.rs the requests of the health loop and which hosts it asks; of src/contract.rs prices and
-- the handles of the application. Floating-point scores are kept as their two numbers, and their
-- comparison is a parameter.
pub mod Auth
pub mod Bridge
pub mod Budget
pub mod Contract
pub mod Handlers
pub mod Json
pub mod Ledger
pub mod Prelude
pub mod Proxy
pub mod Route
