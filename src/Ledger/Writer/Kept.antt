-- ===== src/Ledger/Writer/Kept.antt =====
-- Which requests the database and the fallback file of src/ledger/mod.rs know, after a flush.
use brigh_to_router.Prelude.{
  ℕ, ◌≡◌, refl, sym, subst, Bool, true, false, ◌||◌, List, [], ◌∷◌, ◌++◌, arith,
}
use brigh_to_router.Prelude.Text.{Text}
use brigh_to_router.Ledger.{UsageEvent}
use brigh_to_router.Ledger.Writer.{
  Outcomes, Store, lines, has_request, and_then, insert_batch, append_fallback, append_all,
  flush_batch, after_insert,
}

pub has_request-append :
    (id : Text) (xs ys : List UsageEvent)
    → has_request id (xs ++ ys) ≡ (has_request id xs || has_request id ys)
unfolding has_request
has_request-append id [] ys = refl
has_request-append id (x ∷ xs) ys = ground (arith, has_request-append id xs ys)

-- The store knows a request by a row or by a line of the fallback file.
unfoldable pub known : Text → Store → Bool
known id s = has_request id s.rows || has_request id (lines s.fallback)

-- The file system works: lines are appended, and files renamed.
pub record FilesWork (works : Outcomes) : Type 0 where
  pub appends_work : (n : ℕ) → works.appends n ≡ true
  pub renames_work : (n : ℕ) → works.renames n ≡ true

module _ (works : Outcomes) (files : FilesWork works) (id : Text) where
  pub append_fallback-known :
      (e : UsageEvent) (s : Store)
      → ((append_fallback works e s).1 ≡ true)
        × ((known id s || has_request id (e ∷ [])) ≡ true
            → known id (append_fallback works e s).0 ≡ true)
  unfolding append_fallback known
  append_fallback-known e s =
      ground (arith, files.appends_work s.calls, has_request-append id (lines s.fallback) (e ∷ []))

  and_then_worked :
      (r : Store × Bool) (f : Store → Store × Bool) → r.1 ≡ true → and_then works r f ≡ f r.0
  and_then_worked (s, true) f h = refl
  and_then_worked (s, false) f h = ground arith

  pub append_all-known :
      (es : List UsageEvent) (s : Store)
      → ((append_all works es s).1 ≡ true)
        × ((known id s || has_request id es) ≡ true → known id (append_all works es s).0 ≡ true)
  unfolding append_all has_request
  append_all-known [] s = (refl, λ h. ground arith)
  append_all-known (e ∷ es) s =
      let (worked, one) = append_fallback-known e s in
      let (all, rest) = append_all-known es (append_fallback works e s).0 in
      subst
        (λ r. (r.1 ≡ true) × ((known id s || has_request id (e ∷ es)) ≡ true → known id r.0 ≡ true))
        (sym (and_then_worked (append_fallback works e s) (append_all works es) worked))
        (all, λ h. rest (ground (arith, one)))

  insert_batch-known :
      (es : List UsageEvent) (s : Store)
      → (known id s ≡ true → known id (insert_batch works es s).0 ≡ true)
        × ((insert_batch works es s).1 ≡ true
            → has_request id es ≡ true
            → known id (insert_batch works es s).0 ≡ true)
  unfolding insert_batch known has_request
  insert_batch-known [] s = (λ h. h, λ w h. ground arith)
  insert_batch-known (e ∷ es) s = ground (arith, has_request-append id s.rows (e ∷ es))

  pub flush_batch-known :
      (es : List UsageEvent) (s : Store)
      → (known id s || has_request id es) ≡ true
      → known id (flush_batch works es s).0 ≡ true
  unfolding flush_batch after_insert
  flush_batch-known es s h = go (insert_batch works es s) (insert_batch-known es s)
    where
      go :
          (r : Store × Bool)
          → ((known id s ≡ true → known id r.0 ≡ true)
              × (r.1 ≡ true → has_request id es ≡ true → known id r.0 ≡ true))
          → known id (after_insert works es r).0 ≡ true
      go (u, true) (keep, add) = ground (arith, h)
      go (u, false) (keep, add) = (append_all-known es u).1 (ground (arith, h))
