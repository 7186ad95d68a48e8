-- ===== src/Ledger/Writer/Unique.antt =====
-- The rows of a request, after a replay.
use brigh_to_router.Prelude.{
  ℕ, ◌+◌, ◌≡◌, refl, Bool, true, false, List, [], ◌∷◌, ◌++◌, if◌then◌else◌, if_intro, arith,
}
use brigh_to_router.Prelude.Eq.{list_beq, list_beq_iff}
use brigh_to_router.Ledger.{UsageEvent}
use brigh_to_router.Ledger.Writer.{
  Outcomes, Store, called, has_request, and_then, insert_batch, replay_line, replay_lines_to_db,
}
use brigh_to_router.Ledger.Writer.Kept.{has_request-append}

-- No two events of one request.
abbrev pub Unique : List UsageEvent → Type 0
Unique [] = Unit
Unique (e ∷ es) = (has_request e.request_id es ≡ false) × Unique es

list_beq_sym : (xs ys : List ℕ) → list_beq xs ys ≡ false → list_beq ys xs ≡ false
list_beq_sym xs ys h = ground (arith, list_beq_iff xs ys, list_beq_iff ys xs, h)

Unique-add :
    (es : List UsageEvent) (e : UsageEvent)
    → Unique es
    → has_request e.request_id es ≡ false
    → Unique (es ++ e ∷ [])
unfolding has_request
Unique-add [] e u h = (refl, tt)
Unique-add (x ∷ xs) e (fresh, u) h = (
  ground (
    arith,
    h,
    has_request-append x.request_id xs (e ∷ []),
    list_beq_sym x.request_id e.request_id,
  ),
  Unique-add xs e u (ground (arith, h)),
)

module _ (works : Outcomes) where
  replay_line-Unique :
      (e : UsageEvent) (s : Store) → Unique s.rows → Unique (replay_line works e s).0.rows
  unfolding replay_line insert_batch
  replay_line-Unique e s u =
      if_intro (λ (r : Store × Bool). Unique r.0.rows) (works.queries s.calls)
        (if has_request e.request_id s.rows
          then (called s, true)
          else insert_batch works (e ∷ []) (called s))
        (called s, false)
        (λ p.
          if_intro (λ (r : Store × Bool). Unique r.0.rows) (has_request e.request_id s.rows)
            (called s, true) (insert_batch works (e ∷ []) (called s)) (λ q. u)
            (λ q.
              if_intro (λ (r : Store × Bool). Unique r.0.rows) (works.inserts (called s).calls)
                (record (called s) { rows = s.rows ++ e ∷ []; calls = (called s).calls + 1 }, true)
                (called (called s), false) (λ w. Unique-add s.rows e u q) (λ w. u)))
        (λ p. u)

  and_then-Unique :
      (r : Store × Bool) (f : Store → Store × Bool)
      → Unique r.0.rows
      → ((s : Store) → Unique s.rows → Unique (f s).0.rows)
      → Unique (and_then works r f).0.rows
  and_then-Unique (s, true) f u k = k s u
  and_then-Unique (s, false) f u k = u

  -- A replay of any lines, whatever fails in it, leaves at most one row of each request where there
  -- was at most one of each before: replaying lines twice does not bill them twice.
  pub replay_lines_to_db-Unique :
      (es : List UsageEvent) (s : Store)
      → Unique s.rows
      → Unique (replay_lines_to_db works es s).0.rows
  unfolding replay_lines_to_db
  replay_lines_to_db-Unique [] s u = u
  replay_lines_to_db-Unique (e ∷ es) s u =
      and_then-Unique (replay_line works e s) (replay_lines_to_db works es)
        (replay_line-Unique e s u) (replay_lines_to_db-Unique es)
