-- ===== src/Ledger/Step/Batch.antt =====
-- The batch of the loop.
use brigh_to_router.Prelude.{
  ℕ, ◌<◌, ◌≡◌, refl, ap, Bool, true, false, max, none, some, List, [], ◌∷◌, length, if_intro, arith,
}
use brigh_to_router.Ledger.{UsageEvent}
use brigh_to_router.Ledger.Writer.{
  Outcomes, Store, Ledger, Wake, primary, overflow, tick, Outcome, going, returned, errored,
  append_fallback, append_all, flush_batch,
}
use brigh_to_router.Ledger.Step.{
  flushed, push_event, appended, receive, flush_remaining, drained, flush_timer, try_reconnect,
  after_timer, step, Run, continue_with, after_step, run,
}

-- The batch is below its size, and it is empty without a pool.
pub record BatchOk (batch_size : ℕ) (l : Ledger) : Type 0 where
  pub below : length l.batch < max 1 batch_size
  pub without_pool : l.pool ≡ false → l.batch ≡ []

module _ (works : Outcomes) (batch_size : ℕ) (reconnect : Bool) where
  -- The batch after a wake, empty where the loop returns.
  record Left (r : Ledger × Outcome) : Type 0 where
    fits : BatchOk batch_size r.0
    emptied : r.1 ≡ returned → r.0.batch ≡ []

  empty-BatchOk : (l : Ledger) → l.batch ≡ [] → BatchOk batch_size l
  empty-BatchOk l e = record { below = ground (arith, ap length e); without_pool = λ p. e }

  empty-Left : (r : Ledger × Outcome) → r.0.batch ≡ [] → Left r
  empty-Left r e = record { fits = empty-BatchOk r.0 e; emptied = λ p. e }

  push_event-BatchOk :
      (e : UsageEvent) (l : Ledger)
      → l.pool ≡ true
      → BatchOk batch_size l
      → BatchOk batch_size (push_event works batch_size reconnect e l)
  unfolding push_event flushed
  push_event-BatchOk e l p b = ground arith

  appended-Left :
      (r : Store × Bool) (l : Ledger)
      → BatchOk batch_size l
      → Left (appended works batch_size reconnect r l)
  unfolding appended
  appended-Left (s, true) l b = record {
    fits = record { below = b.below; without_pool = b.without_pool };
    emptied = λ p. ground arith;
  }
  appended-Left (s, false) l b = record {
    fits = record { below = b.below; without_pool = b.without_pool };
    emptied = λ p. ground arith;
  }

  drained-Left : (r : Store × Bool) (l : Ledger) → Left (drained works batch_size reconnect r l)
  unfolding drained
  drained-Left (s, true) l = empty-Left _ refl
  drained-Left (s, false) l = empty-Left _ refl

  flushed-empty :
      (r : Store × Bool) (l : Ledger) → (flushed works batch_size reconnect r l).batch ≡ []
  unfolding flushed
  flushed-empty (s, worked) l = refl

  flush_timer-Left :
      (es : List UsageEvent) (l : Ledger)
      → l.batch ≡ es
      → Left (flush_timer works batch_size reconnect es l)
  unfolding flush_timer flushed
  flush_timer-Left [] l q = empty-Left (l, going) q
  flush_timer-Left (e ∷ es) l q =
      if_intro Left l.pool
        (flushed works batch_size reconnect (flush_batch works (e ∷ es) l.store) l, going)
        (drained works batch_size reconnect (append_all works (e ∷ es) l.store) l)
        (λ p.
          empty-Left
            (flushed works batch_size reconnect (flush_batch works (e ∷ es) l.store) l, going)
            (flushed-empty (flush_batch works (e ∷ es) l.store) l))
        (λ p. drained-Left (append_all works (e ∷ es) l.store) l)

  try_reconnect-BatchOk :
      (l : Ledger)
      → BatchOk batch_size l
      → BatchOk batch_size (try_reconnect works batch_size reconnect l)
  unfolding try_reconnect
  try_reconnect-BatchOk l b = ground arith

  after_timer-Left :
      (r : Ledger × Outcome) → Left r → Left (after_timer works batch_size reconnect r)
  unfolding after_timer
  after_timer-Left (l, going) b = record {
    fits = try_reconnect-BatchOk l b.fits;
    emptied = λ p. ground arith;
  }
  after_timer-Left (l, returned) b = b
  after_timer-Left (l, errored) b = b

  step-Left :
      (w : Wake) (l : Ledger) → BatchOk batch_size l → Left (step works batch_size reconnect w l)
  unfolding step receive flush_remaining
  step-Left (primary (some e)) l b =
      if_intro Left l.pool (push_event works batch_size reconnect e l, going)
        (appended works batch_size reconnect (append_fallback works e l.store) l)
        (λ p. record { fits = push_event-BatchOk e l p b; emptied = λ q. ground arith })
        (λ p. appended-Left (append_fallback works e l.store) l b)
  step-Left (primary none) l b =
      empty-Left (flush_remaining works batch_size reconnect l, returned) refl
  step-Left (overflow (some e)) l b =
      if_intro Left l.overflow_open
        (appended works batch_size reconnect (append_fallback works e l.store) l) (l, going)
        (λ p. appended-Left (append_fallback works e l.store) l b)
        (λ p. record { fits = b; emptied = λ q. ground arith })
  step-Left (overflow none) l b = record {
    fits = record { below = b.below; without_pool = b.without_pool };
    emptied = λ p. ground arith;
  }
  step-Left tick l b = after_timer-Left _ (flush_timer-Left l.batch l refl)

  after_step-Left :
      (es : List UsageEvent) (r : Ledger × Outcome) (f : Ledger → Run works batch_size reconnect)
      → Left r
      → ((l : Ledger) → BatchOk batch_size l → Left ((f l).ledger, (f l).outcome))
      → (let s = after_step works batch_size reconnect es r f in Left (s.ledger, s.outcome))
  unfolding after_step continue_with
  after_step-Left es (l, going) f b rest = rest l b.fits
  after_step-Left es (l, returned) f b rest = b
  after_step-Left es (l, errored) f b rest = b

  run-Left :
      (ws : List Wake) (l : Ledger)
      → BatchOk batch_size l
      → (let r = run works batch_size reconnect ws l in Left (r.ledger, r.outcome))
  unfolding run
  run-Left [] l b = record { fits = b; emptied = λ p. ground arith }
  run-Left (w ∷ ws) l b =
      after_step-Left _ (step works batch_size reconnect w l) (run works batch_size reconnect ws)
        (step-Left w l b) (run-Left ws)

  -- However the writer is woken and whatever fails, its batch stays below the batch size, or is empty
  -- for a size of 0 or 1; there is a batch only while there is a pool; and when the writer returns,
  -- because its channel is at its end, the batch is empty.
  pub run-BatchOk :
      (ws : List Wake) (l : Ledger)
      → BatchOk batch_size l
      → BatchOk batch_size (run works batch_size reconnect ws l).ledger
        × ((run works batch_size reconnect ws l).outcome ≡ returned
            → (run works batch_size reconnect ws l).ledger.batch ≡ [])
  run-BatchOk ws l b = let left = run-Left ws l b in (left.fits, left.emptied)
