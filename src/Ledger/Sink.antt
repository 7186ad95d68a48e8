-- ===== src/Ledger/Sink.antt =====
-- `LedgerSink` of src/ledger/mod.rs: an event goes to the first channel that takes it, or is counted
-- as dropped. The channels are a package's.
use brigh_to_router.Prelude.{
  ℕ, ◌+◌, ◌-◌, ◌≡◌, refl, sym, ap, ◌∙◌, List, [], ◌∷◌, ◌++◌, leb, if◌then◌else◌, ◌⊎◌, inl, inr,
  arith,
}
use brigh_to_router.Ledger.{UsageEvent}

-- Documented of `mpsc::Sender::try_send`: an event that is sent stands at the end of the queue, and a
-- full or closed channel leaves the queue as it was.
pub data Sent : Type 0 where
  sent full closed : Sent

pub record Channels : Type 1 where
  pub Channel : Type 0
  pub queue : Channel → List UsageEvent
  pub try_send : Channel → UsageEvent → Sent × Channel
  pub send_queue :
      (c : Channel) (e : UsageEvent)
      → (try_send c e).0 ≡ sent
      → queue (try_send c e).1 ≡ queue c ++ e ∷ []
  pub refuse_queue :
      (c : Channel) (e : UsageEvent)
      → (((try_send c e).0 ≡ full) ⊎ ((try_send c e).0 ≡ closed))
      → queue (try_send c e).1 ≡ queue c

module _ (channels : Channels) where
  -- The sink, with the counter of dropped events and the time of the last log line.
  pub record LedgerSink : Type 0 where
    pub primary : channels.Channel
    pub overflow : channels.Channel
    pub dropped : ℕ
    pub last_log_ms : ℕ
    pub logs : List ℕ

  unfoldable pub record_drop : ℕ → LedgerSink → LedgerSink
  record_drop now s =
      let counted = record s { dropped = s.dropped + 1 } in
      if leb 1_000 (now - s.last_log_ms)
      then record counted { last_log_ms = now; logs = now ∷ s.logs }
      else counted

  after_overflow : ℕ → Sent × channels.Channel → LedgerSink → LedgerSink
  unfolding record_drop
  after_overflow now (sent, c) s = record s { overflow = c }
  after_overflow now (full, c) s = record_drop now (record s { overflow = c })
  after_overflow now (closed, c) s = record_drop now (record s { overflow = c })

  after_primary : ℕ → UsageEvent → Sent × channels.Channel → LedgerSink → LedgerSink
  unfolding after_overflow
  after_primary now e (sent, c) s = record s { primary = c }
  after_primary now e (full, c) s =
      after_overflow now (channels.try_send s.overflow e) (record s { primary = c })
  after_primary now e (closed, c) s =
      after_overflow now (channels.try_send s.overflow e) (record s { primary = c })

  unfoldable pub try_record : ℕ → UsageEvent → LedgerSink → LedgerSink
  unfolding after_primary
  try_record now e s = after_primary now e (channels.try_send s.primary e) s

  -- The event is in exactly one place: at the end of one queue, or counted as dropped.
  pub data Recorded (e : UsageEvent) (s t : LedgerSink) : Type 0 where
    in_primary :
        channels.queue t.primary ≡ channels.queue s.primary ++ e ∷ []
        → channels.queue t.overflow ≡ channels.queue s.overflow
        → t.dropped ≡ s.dropped
        → Recorded e s t
    in_overflow :
        channels.queue t.primary ≡ channels.queue s.primary
        → channels.queue t.overflow ≡ channels.queue s.overflow ++ e ∷ []
        → t.dropped ≡ s.dropped
        → Recorded e s t
    counted :
        channels.queue t.primary ≡ channels.queue s.primary
        → channels.queue t.overflow ≡ channels.queue s.overflow
        → t.dropped ≡ s.dropped + 1
        → Recorded e s t

  record_drop-counts :
      (now : ℕ) (s : LedgerSink)
      → ((record_drop now s).dropped ≡ s.dropped + 1)
        × ((record_drop now s).primary ≡ s.primary)
        × ((record_drop now s).overflow ≡ s.overflow)
  unfolding record_drop
  record_drop-counts now s = ground arith

  refused :
      (now : ℕ) (e : UsageEvent) (s t : LedgerSink)
      → channels.queue t.primary ≡ channels.queue s.primary
      → channels.queue t.overflow ≡ channels.queue s.overflow
      → t.dropped ≡ s.dropped
      → Recorded e s (record_drop now t)
  refused now e s t p o d =
      let (c, same_p, same_o) = record_drop-counts now t in
      counted (ap channels.queue same_p ∙ p) (ap channels.queue same_o ∙ o) (c ∙ ap (λ n. n + 1) d)

  after_overflow-Recorded :
      (now : ℕ) (e : UsageEvent) (r : Sent × channels.Channel) (s t : LedgerSink)
      → channels.try_send s.overflow e ≡ r
      → channels.queue t.primary ≡ channels.queue s.primary
      → t.overflow ≡ s.overflow
      → t.dropped ≡ s.dropped
      → Recorded e s (after_overflow now r t)
  unfolding after_overflow
  after_overflow-Recorded now e (sent, c) s t q p o d =
      in_overflow p
        (ap (λ x. channels.queue x.1) (sym q) ∙ channels.send_queue s.overflow e (ap (λ x. x.0) q))
        d
  after_overflow-Recorded now e (full, c) s t q p o d =
      refused now e s (record t { overflow = c }) p
        (ap (λ x. channels.queue x.1) (sym q)
          ∙ channels.refuse_queue s.overflow e (inl (ap (λ x. x.0) q)))
        d
  after_overflow-Recorded now e (closed, c) s t q p o d =
      refused now e s (record t { overflow = c }) p
        (ap (λ x. channels.queue x.1) (sym q)
          ∙ channels.refuse_queue s.overflow e (inr (ap (λ x. x.0) q)))
        d

  after_primary-Recorded :
      (now : ℕ) (e : UsageEvent) (r : Sent × channels.Channel) (s : LedgerSink)
      → channels.try_send s.primary e ≡ r
      → Recorded e s (after_primary now e r s)
  unfolding after_primary
  after_primary-Recorded now e (sent, c) s q =
      in_primary
        (ap (λ x. channels.queue x.1) (sym q) ∙ channels.send_queue s.primary e (ap (λ x. x.0) q))
        refl refl
  after_primary-Recorded now e (full, c) s q =
      after_overflow-Recorded now e (channels.try_send s.overflow e) s (record s { primary = c })
        refl
        (ap (λ x. channels.queue x.1) (sym q)
          ∙ channels.refuse_queue s.primary e (inl (ap (λ x. x.0) q)))
        refl refl
  after_primary-Recorded now e (closed, c) s q =
      after_overflow-Recorded now e (channels.try_send s.overflow e) s (record s { primary = c })
        refl
        (ap (λ x. channels.queue x.1) (sym q)
          ∙ channels.refuse_queue s.primary e (inr (ap (λ x. x.0) q)))
        refl refl

  -- No event is lost in silence or recorded twice: after `try_record` it stands at the end of the
  -- primary queue, or at the end of the overflow queue, or the counter of dropped events is one
  -- higher, and what else there is has not changed. The channels are any that keep the queue when
  -- they refuse an event.
  pub try_record-Recorded :
      (now : ℕ) (e : UsageEvent) (s : LedgerSink) → Recorded e s (try_record now e s)
  unfolding try_record
  try_record-Recorded now e s = after_primary-Recorded now e (channels.try_send s.primary e) s refl
