-- ===== src/Ledger/Step.antt =====
-- The loop of `run_with_channels` of src/ledger/mod.rs, one wake at a time.
pub mod Delivered
pub mod Batch
use brigh_to_router.Prelude.{
  ℕ, ◌+◌, Bool, true, false, ◌&&◌, not, Option, none, some, List, [], ◌∷◌, ◌++◌, length, leb,
  if◌then◌else◌,
}
use brigh_to_router.Ledger.{UsageEvent}
use brigh_to_router.Ledger.Writer.{
  Outcomes, Store, Ledger, Wake, primary, overflow, tick, Outcome, going, returned, errored, called,
  append_fallback, append_all, flush_batch, replay_fallback,
}

module _ (works : Outcomes) (batch_size : ℕ) (reconnect : Bool) where
  -- The batch is cleared after a flush, and the pool is given up if it failed.
  flushed : Store × Bool → Ledger → Ledger
  flushed (s, worked) l = record l { store = s; batch = []; pool = worked }

  unfoldable pub push_event : UsageEvent → Ledger → Ledger
  unfolding flushed
  push_event e l =
      let batch = l.batch ++ e ∷ [] in
      if leb batch_size (length batch)
      then flushed (flush_batch works batch l.store) l
      else record l { batch = batch }

  -- An append that fails ends the loop.
  appended : Store × Bool → Ledger → Ledger × Outcome
  appended (s, true) l = (record l { store = s }, going)
  appended (s, false) l = (record l { store = s }, errored)

  receive : UsageEvent → Ledger → Ledger × Outcome
  unfolding push_event appended
  receive e l =
      if l.pool then (push_event e l, going) else appended (append_fallback works e l.store) l

  -- The errors of the last appends are ignored.
  append_each : List UsageEvent → Store → Store
  append_each [] s = s
  append_each (e ∷ es) s = append_each es (append_fallback works e s).0

  unfoldable pub flush_remaining : Ledger → Ledger
  unfolding append_each
  flush_remaining l = record l {
    store = if l.pool then (flush_batch works l.batch l.store).0 else append_each l.batch l.store;
    batch = [];
  }

  drained : Store × Bool → Ledger → Ledger × Outcome
  drained (s, true) l = (record l { store = s; batch = [] }, going)
  drained (s, false) l = (record l { store = s; batch = [] }, errored)

  -- The flush of the timer.
  flush_timer : List UsageEvent → Ledger → Ledger × Outcome
  unfolding flushed drained
  flush_timer [] l = (l, going)
  flush_timer (e ∷ es) l =
      if l.pool
      then (flushed (flush_batch works (e ∷ es) l.store) l, going)
      else drained (append_all works (e ∷ es) l.store) l

  try_reconnect : Ledger → Ledger
  try_reconnect l =
      if reconnect && not l.pool
      then if works.connects l.store.calls
        then record l { store = (replay_fallback works (called l.store)).0; pool = true }
        else record l { store = called l.store }
      else l

  after_timer : Ledger × Outcome → Ledger × Outcome
  unfolding try_reconnect
  after_timer (l, going) = (try_reconnect l, going)
  after_timer (l, returned) = (l, returned)
  after_timer (l, errored) = (l, errored)

  unfoldable pub step : Wake → Ledger → Ledger × Outcome
  unfolding receive flush_timer after_timer
  step (primary (some e)) l = receive e l
  step (primary none) l = (flush_remaining l, returned)
  step (overflow (some e)) l =
      if l.overflow_open then appended (append_fallback works e l.store) l else (l, going)
  step (overflow none) l = (record l { overflow_open = false }, going)
  step tick l = after_timer (flush_timer l.batch l)

  -- The events that the loop takes from the channels.
  unfoldable pub taken : Wake → Ledger → List UsageEvent
  taken (primary (some e)) l = e ∷ []
  taken (overflow (some e)) l = if l.overflow_open then e ∷ [] else []
  taken (primary none) l = []
  taken (overflow none) l = []
  taken tick l = []

  pub record Run : Type 0 where
    pub ledger : Ledger
    pub seen : List UsageEvent
    pub outcome : Outcome

  continue_with : List UsageEvent → Run → Run
  continue_with es r = record r { seen = es ++ r.seen }

  after_step : List UsageEvent → Ledger × Outcome → (Ledger → Run) → Run
  unfolding continue_with
  after_step es (l, going) rest = continue_with es (rest l)
  after_step es (l, returned) rest = record { ledger = l; seen = es; outcome = returned }
  after_step es (l, errored) rest = record { ledger = l; seen = es; outcome = errored }

  unfoldable pub run : List Wake → Ledger → Run
  unfolding after_step
  run [] l = record { ledger = l; seen = []; outcome = going }
  run (w ∷ ws) l = after_step (taken w l) (step w l) (run ws)
