-- ===== src/Ledger/Writer/Replay.antt =====
-- Which requests they know after a replay.
use brigh_to_router.Prelude.{
  ◌+◌, ◌≡◌, refl, ◌∙◌, subst, Bool, true, false, ◌||◌, Option, none, some, List, [], ◌∷◌, if_intro,
  arith,
}
use brigh_to_router.Prelude.Eq.{list_beq, list_beq_iff}
use brigh_to_router.Prelude.Text.{Text}
use brigh_to_router.Ledger.{UsageEvent}
use brigh_to_router.Ledger.Writer.{
  Outcomes, Store, lines, called, has_request, and_then, insert_batch, replay_line,
  replay_lines_to_db, after_replay, replay_file, replay_fallback,
}
use brigh_to_router.Ledger.Writer.Kept.{has_request-append, known, FilesWork}

module _ (works : Outcomes) (id : Text) where
  -- What a replay does: no row is lost, and if it worked the lines have rows.
  record Replayed (es : List UsageEvent) (s : Store) (r : Store × Bool) : Type 0 where
    rows_kept : has_request id s.rows ≡ true → has_request id r.0.rows ≡ true
    lines_done : r.1 ≡ true → has_request id es ≡ true → has_request id r.0.rows ≡ true
    file_kept : r.0.fallback ≡ s.fallback

  same_request :
      (e : UsageEvent) (es : List UsageEvent)
      → has_request e.request_id es ≡ true
      → list_beq e.request_id id ≡ true
      → has_request id es ≡ true
  same_request e es h q =
      subst (λ x. has_request x es ≡ true) ((list_beq_iff e.request_id id).0 q) h

  replay_line-Replayed : (e : UsageEvent) (s : Store) → Replayed (e ∷ []) s (replay_line works e s)
  unfolding replay_line insert_batch has_request
  replay_line-Replayed e s =
      ground (arith, same_request e s.rows, has_request-append id s.rows (e ∷ []))

  and_then-Replayed :
      (e : UsageEvent) (es : List UsageEvent) (s : Store) (r : Store × Bool)
      (f : Store → Store × Bool)
      → Replayed (e ∷ []) s r
      → ((u : Store) → Replayed es u (f u))
      → Replayed (e ∷ es) s (and_then works r f)
  unfolding has_request
  and_then-Replayed e es s (u, false) f first rest = record {
    rows_kept = first.rows_kept;
    lines_done = λ w h. ground arith;
    file_kept = first.file_kept;
  }
  and_then-Replayed e es s (u, true) f first rest =
      let last = rest u in
      record {
        rows_kept = λ h. last.rows_kept (first.rows_kept h);
        lines_done =
            λ w h. ground (arith, w, h, first.lines_done refl, last.rows_kept, last.lines_done);
        file_kept = last.file_kept ∙ first.file_kept;
      }

  replay_lines_to_db-Replayed :
      (es : List UsageEvent) (s : Store) → Replayed es s (replay_lines_to_db works es s)
  unfolding replay_lines_to_db has_request
  replay_lines_to_db-Replayed [] s = record {
    rows_kept = λ h. h;
    lines_done = λ w h. ground arith;
    file_kept = refl;
  }
  replay_lines_to_db-Replayed (e ∷ es) s =
      and_then-Replayed e es s (replay_line works e s) (replay_lines_to_db works es)
        (replay_line-Replayed e s) (replay_lines_to_db-Replayed es)

  after_replay-known :
      (files : FilesWork works) (es : List UsageEvent) (s : Store) (r : Store × Bool)
      → Replayed es s r
      → (has_request id s.rows || has_request id es) ≡ true
      → known id (after_replay works es r).0 ≡ true
  unfolding after_replay known
  after_replay-known files es s (u, true) d h = ground (arith, h, d.rows_kept, d.lines_done)
  after_replay-known files es s (u, false) d h =
      ground (arith, h, d.rows_kept, files.renames_work u.calls)

  replay_file-known :
      (files : FilesWork works) (o : Option (List UsageEvent)) (s : Store)
      → s.fallback ≡ o
      → known id s ≡ true
      → known id (replay_file works o s).0 ≡ true
  unfolding replay_file
  replay_file-known files none s q h = h
  replay_file-known files (some es) s q h =
      let t = record s { fallback = none; replay = some es; calls = s.calls + 1 } in
      let h' : (has_request id s.rows || has_request id es) ≡ true =
        unfold known in
        subst (λ o. (has_request id s.rows || has_request id (lines o)) ≡ true) q h in
      if_intro (λ r. known id r.0 ≡ true) (works.renames s.calls)
        (after_replay works es (replay_lines_to_db works es t)) (called s, false)
        (λ e.
          after_replay-known files es t (replay_lines_to_db works es t)
            (replay_lines_to_db-Replayed es t) h')
        (λ e. unfold known in h)

  -- Where the file system works, a replay loses no request, however the database fails: what had a
  -- row or a line before it has one after it.
  pub replay_fallback-known :
      (files : FilesWork works) (s : Store)
      → known id s ≡ true
      → known id (replay_fallback works s).0 ≡ true
  unfolding replay_fallback
  replay_fallback-known files s h = replay_file-known files s.fallback s refl h
