-- ===== src/Ledger/Step/Delivered.antt =====
-- Where the events are that the loop of src/ledger/mod.rs took from its channels.
use brigh_to_router.Prelude.{
  ℕ, ◌≡◌, refl, sym, ap, subst, Bool, true, false, ◌||◌, none, some, List, [], ◌∷◌, ◌++◌,
  if◌then◌else◌, if_intro, arith,
}
use brigh_to_router.Prelude.Text.{Text}
use brigh_to_router.Ledger.{UsageEvent}
use brigh_to_router.Ledger.Writer.{
  Outcomes, Store, Ledger, Wake, primary, overflow, tick, Outcome, going, returned, errored, called,
  has_request, append_fallback, append_all, flush_batch, replay_fallback,
}
use brigh_to_router.Ledger.Writer.Kept.{
  has_request-append, known, FilesWork, append_fallback-known, append_all-known, flush_batch-known,
}
use brigh_to_router.Ledger.Writer.Replay.{replay_fallback-known}
use brigh_to_router.Ledger.Step.{
  flushed, push_event, appended, receive, append_each, flush_remaining, drained, flush_timer,
  try_reconnect, after_timer, step, taken, Run, continue_with, after_step, run,
}

-- A request of an event that the database, the fallback file or the batch has.
unfoldable pub held : Text → Ledger → Bool
held id l = known id l.store || has_request id l.batch

module _ (works : Outcomes) (files : FilesWork works) (batch_size : ℕ) (reconnect : Bool)
    (id : Text) where
  -- What was held, and what was taken, is held.
  Keeps : Ledger → List UsageEvent → Ledger → Type 0
  Keeps l es m = (held id l || has_request id es) ≡ true → held id m ≡ true

  push_event-Keeps :
      (e : UsageEvent) (l : Ledger) → Keeps l (e ∷ []) (push_event works batch_size reconnect e l)
  unfolding Keeps push_event flushed held
  push_event-Keeps e l h =
      let batch = l.batch ++ e ∷ [] in
      let flush = flush_batch-known works files id batch l.store in
      ground (arith, flush, h, has_request-append id l.batch (e ∷ []))

  -- A call that works and keeps what was known.
  Adds : List UsageEvent → Store → Store × Bool → Type 0
  Adds es s r = (r.1 ≡ true) × ((known id s || has_request id es) ≡ true → known id r.0 ≡ true)

  appended-Keeps :
      (es : List UsageEvent) (r : Store × Bool) (l : Ledger)
      → Adds es l.store r
      → Keeps l es (appended works batch_size reconnect r l).0
  unfolding Keeps Adds held appended
  appended-Keeps es (s, true) l (w, k) h = ground (arith, h)
  appended-Keeps es (s, false) l (w, k) h = ground arith

  receive-Keeps :
      (e : UsageEvent) (l : Ledger) → Keeps l (e ∷ []) (receive works batch_size reconnect e l).0
  unfolding receive Adds
  receive-Keeps e l =
      if_intro (λ r. Keeps l (e ∷ []) r.0) l.pool (push_event works batch_size reconnect e l, going)
        (appended works batch_size reconnect (append_fallback works e l.store) l)
        (λ q. push_event-Keeps e l)
        (λ q.
          appended-Keeps (e ∷ []) (append_fallback works e l.store) l
            (append_fallback-known works files id e l.store))

  append_each-known :
      (es : List UsageEvent) (s : Store)
      → (known id s || has_request id es) ≡ true
      → known id (append_each works batch_size reconnect es s) ≡ true
  unfolding append_each has_request
  append_each-known [] s h = ground arith
  append_each-known (e ∷ es) s h =
      append_each-known es (append_fallback works e s).0
        (ground (arith, h, (append_fallback-known works files id e s).1))

  flush_remaining-Keeps : (l : Ledger) → Keeps l [] (flush_remaining works batch_size reconnect l)
  unfolding Keeps held flush_remaining has_request
  flush_remaining-Keeps l h = ground (
    arith,
    h,
    flush_batch-known works files id l.batch l.store,
    append_each-known l.batch l.store,
  )

  drained-Keeps :
      (r : Store × Bool) (l : Ledger)
      → Adds l.batch l.store r
      → Keeps l [] (drained works batch_size reconnect r l).0
  unfolding Keeps Adds held drained has_request
  drained-Keeps (s, true) l (w, k) h = ground (arith, h)
  drained-Keeps (s, false) l (w, k) h = ground (arith, h)

  flush_timer-Keeps :
      (es : List UsageEvent) (l : Ledger)
      → l.batch ≡ es
      → Keeps l [] (flush_timer works batch_size reconnect es l).0
  unfolding Keeps flush_timer Adds flushed held has_request
  flush_timer-Keeps [] l q h = ground (arith, h)
  flush_timer-Keeps (e ∷ es) l q h =
      let all : (known id l.store || has_request id (e ∷ es)) ≡ true =
        ground (arith, h, ap (has_request id) q) in
      if_intro (λ r. held id r.0 ≡ true) l.pool
        (flushed works batch_size reconnect (flush_batch works (e ∷ es) l.store) l, going)
        (drained works batch_size reconnect (append_all works (e ∷ es) l.store) l)
        (λ p. ground (arith, flush_batch-known works files id (e ∷ es) l.store all))
        (λ p.
          drained-Keeps (append_all works (e ∷ es) l.store) l
            (subst (λ b. Adds b l.store (append_all works (e ∷ es) l.store)) (sym q)
              (append_all-known works files id (e ∷ es) l.store))
            h)

  reconnected-known :
      (l : Ledger)
      → known id l.store ≡ true
      → known id (replay_fallback works (called l.store)).0 ≡ true
  unfolding known
  reconnected-known l = replay_fallback-known works id files (called l.store)

  known-called : (s : Store) → known id (called s) ≡ known id s
  unfolding known
  known-called s = refl

  try_reconnect-Keeps : (l : Ledger) → Keeps l [] (try_reconnect works batch_size reconnect l)
  unfolding Keeps try_reconnect held has_request
  try_reconnect-Keeps l h = ground (arith, h, reconnected-known l, known-called l.store)

  after_timer-Keeps :
      (l : Ledger) (r : Ledger × Outcome)
      → Keeps l [] r.0
      → Keeps l [] (after_timer works batch_size reconnect r).0
  unfolding Keeps after_timer has_request
  after_timer-Keeps l (m, going) k h = try_reconnect-Keeps m (ground (arith, k h))
  after_timer-Keeps l (m, returned) k h = k h
  after_timer-Keeps l (m, errored) k h = k h

  nothing-Keeps : (l : Ledger) → Keeps l [] l
  unfolding Keeps has_request
  nothing-Keeps l h = ground (arith, h)

  overflow-Keeps :
      (b : Bool) (es : List UsageEvent) (l : Ledger) (r : Ledger × Outcome)
      → Keeps l es r.0
      → Keeps l (if b then es else []) (if b then r else (l, going)).0
  overflow-Keeps true es l r k = k
  overflow-Keeps false es l r k = nothing-Keeps l

  step-Keeps :
      (w : Wake) (l : Ledger)
      → Keeps l (taken works batch_size reconnect w l) (step works batch_size reconnect w l).0
  unfolding step taken Keeps held
  step-Keeps (primary (some e)) l = receive-Keeps e l
  step-Keeps (primary none) l = flush_remaining-Keeps l
  step-Keeps (overflow (some e)) l =
      let r = appended works batch_size reconnect (append_fallback works e l.store) l in
      overflow-Keeps l.overflow_open (e ∷ []) l r (
        appended-Keeps (e ∷ []) (append_fallback works e l.store) l
          (unfold Adds in append_fallback-known works files id e l.store))
  step-Keeps (overflow none) l = nothing-Keeps l
  step-Keeps tick l = after_timer-Keeps l _ (flush_timer-Keeps l.batch l refl)

  after_step-Keeps :
      (l : Ledger) (es : List UsageEvent) (r : Ledger × Outcome)
      (f : Ledger → Run works batch_size reconnect)
      → Keeps l es r.0
      → ((m : Ledger) → Keeps m (f m).seen (f m).ledger)
      → (let s = after_step works batch_size reconnect es r f in Keeps l s.seen s.ledger)
  unfolding Keeps after_step continue_with
  after_step-Keeps l es (m, going) f k rest h =
      rest m (ground (arith, h, k, has_request-append id es (f m).seen))
  after_step-Keeps l es (m, returned) f k rest h = k h
  after_step-Keeps l es (m, errored) f k rest h = k h

  run-Keeps :
      (ws : List Wake) (l : Ledger)
      → (let r = run works batch_size reconnect ws l in Keeps l r.seen r.ledger)
  unfolding run
  run-Keeps [] l = nothing-Keeps l
  run-Keeps (w ∷ ws) l =
      after_step-Keeps l (taken works batch_size reconnect w l)
        (step works batch_size reconnect w l) (run works batch_size reconnect ws) (step-Keeps w l)
        (run-Keeps ws)

  -- Where lines can be appended to the fallback file and files renamed, the writer loses no event,
  -- whatever fails in the database and however its wakes are ordered: a request of an event that it
  -- has taken, or that it held before, has a row, a line of the fallback file, or a place in the batch.
  pub run-held :
      (ws : List Wake) (l : Ledger)
      → (held id l || has_request id (run works batch_size reconnect ws l).seen) ≡ true
      → held id (run works batch_size reconnect ws l).ledger ≡ true
  unfolding Keeps
  run-held ws l = run-Keeps ws l
