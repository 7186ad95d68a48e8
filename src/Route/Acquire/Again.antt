-- ===== src/Route/Acquire/Again.antt =====
-- `acquire_excluding` of src/route/mod.rs called again and again with the same exclusions, as the
-- retries of a request do.
use brigh_to_router.Prelude.{
  ℕ, zero, suc, ◌+◌, ◌≤◌, ◌<◌, ◌≡◌, refl, sym, ap, ◌∙◌, subst, Bool, true, false, Option, none,
  some, List, [], ◌∷◌, ◌++◌, length, arith, Bool-cases, inl, inr,
}
use brigh_to_router.Prelude.Eq.{ℕ_eq}
use brigh_to_router.Prelude.Result.{Result, ok, err}
use brigh_to_router.Contract.Config.{ModelRoute, unwrap_or}
use brigh_to_router.Route.Exclusions
use brigh_to_router.Route.Exclusions.{BackendExclusions, contains, mem}
use brigh_to_router.Route.Exclusions.Laws.{IsValid, insert-IsValid, contains-insert}
use brigh_to_router.Route.Pool.{RamBackendPool, BackendState}
use brigh_to_router.Route.Candidate.{Candidate}
use brigh_to_router.Route.Select.{AcquireError, Choice, Scores}
use brigh_to_router.Route.Acquire.{
  Outside, Acquired, claim, after_claim, claim_at, after_choice, acquire_primary, after_primary,
  or_fallback, try_fallback, acquire_excluding,
}
use brigh_to_router.Route.Acquire.Loop.{left, acquire_excluding_ends}
use brigh_to_router.Route.Acquire.Lease.{acquire_primary-lease}

abbrev with_fallback : List ℕ → Option ℕ → List ℕ
with_fallback ids none = ids
with_fallback ids (some b) = ids ++ b ∷ []

-- Every backend that a route names.
abbrev pub named : ModelRoute → List ℕ
named route = with_fallback route.backend_ids route.fallback_backend_id

mem-append-left : (xs ys : List ℕ) (b : ℕ) → mem xs b ≡ true → mem (xs ++ ys) b ≡ true
unfolding mem
mem-append-left [] ys b h = absurd (cc)
mem-append-left (x ∷ xs) ys b h = ground (arith, mem-append-left xs ys b)

named-primary :
    (ids : List ℕ) (o : Option ℕ) (b : ℕ) → mem ids b ≡ true → mem (with_fallback ids o) b ≡ true
named-primary ids none b h = h
named-primary ids (some f) b h = mem-append-left ids (f ∷ []) b h

named-last : (ids : List ℕ) (f b : ℕ) → mem (f ∷ []) b ≡ true → mem (ids ++ f ∷ []) b ≡ true
unfolding mem
named-last [] f b h = h
named-last (i ∷ ids) f b h = ground (arith, named-last ids f b h)

abbrev pub Above : BackendExclusions → BackendExclusions → Type 0
Above e f = (j : ℕ) → contains e j ≡ true → contains f j ≡ true

insert-Above : (b : ℕ) (e : BackendExclusions) → IsValid e → Above e (Exclusions.insert b e)
insert-Above b e v j h = ground (arith, contains-insert b j e v)

not_before :
    (e f : BackendExclusions) (b : ℕ) → Above e f → contains f b ≡ false → contains e b ≡ false
not_before e f b up h = elim (Bool-cases (contains e b)) [
  | inl there ↦ let x = up b there in absurd (cc)
  | inr absent ↦ absent
]

-- A search that may go on to the fallback.
pub record Fresh (ids : List ℕ) (e : BackendExclusions) (a : Acquired) : Type 0 where
  pub valid : IsValid a.excluded
  pub above : Above e a.excluded
  pub listed : (b : ℕ) → a.lease ≡ ok (some b) → mem ids b ≡ true
  pub fresh : (b : ℕ) → a.lease ≡ ok (some b) → contains e b ≡ false

pub left-Above : (ids : List ℕ) (e f : BackendExclusions) → Above e f → left ids f ≤ left ids e
unfolding left
left-Above [] e f up = omega arith
left-Above (id ∷ ids) e f up = ground (arith, left-Above ids e f up, up id)

module _ (scores : Scores) (route : ModelRoute) (out : Outside) where
  abbrev Keeps : BackendExclusions → Option Acquired → Type 0
  Keeps e o = (a : Acquired) → o ≡ some a → IsValid a.excluded × Above e a.excluded

  same-Keeps :
      (e : BackendExclusions) (a : Acquired) → IsValid e → a.excluded ≡ e → Keeps e (some a)
  same-Keeps e a v h b found =
      let same : b.excluded ≡ e = sym (ap (λ o. (unwrap_or o a).excluded) found) ∙ h in
      rw same (v, λ j there. there)

  after_claim-Keeps :
      (c : Candidate) (e : BackendExclusions) (p : RamBackendPool) (r : BackendState × Bool)
      (rest : BackendExclusions → RamBackendPool → Option Acquired)
      → IsValid e
      → ((q : RamBackendPool) → Keeps e (rest (Exclusions.insert c.backend_id e) q))
      → Keeps e (after_claim scores route out c e p r rest)
  unfolding after_claim
  after_claim-Keeps c e p (s, true) rest v k = same-Keeps e _ v refl
  after_claim-Keeps c e p (s, false) rest v k = k _

  claim_at-Keeps :
      (c : Candidate) (e : BackendExclusions) (p : RamBackendPool) (o : Option BackendState)
      (rest : BackendExclusions → RamBackendPool → Option Acquired)
      → IsValid e
      → ((q : RamBackendPool) → Keeps e (rest (Exclusions.insert c.backend_id e) q))
      → Keeps e (claim_at scores route out c e p o rest)
  unfolding claim_at
  claim_at-Keeps c e p none rest v k = k p
  claim_at-Keeps c e p (some s) rest v k = after_claim-Keeps c e p (claim route c s) rest v k

  after_choice-Keeps :
      (n : ℕ) (e : BackendExclusions) (choice : Choice)
      (rest : BackendExclusions → RamBackendPool → Option Acquired)
      → IsValid e
      → ((c : Candidate) (q : RamBackendPool) → Keeps e (rest (Exclusions.insert c.backend_id e) q))
      → Keeps e (after_choice scores route out n e choice rest)
  unfolding after_choice
  after_choice-Keeps n e (p, err x) rest v k = same-Keeps e _ v refl
  after_choice-Keeps n e (p, ok none) rest v k = same-Keeps e _ v refl
  after_choice-Keeps n e (p, ok (some c)) rest v k = claim_at-Keeps c e _ _ rest v (k c)

  primary-Keeps :
      (fuel n : ℕ) (ids : List ℕ) (e : BackendExclusions) (p : RamBackendPool)
      → IsValid e
      → Keeps e (acquire_primary scores route out fuel n ids e p)
  unfolding acquire_primary
  primary-Keeps zero n ids e p v = λ a found. absurd (cc)
  primary-Keeps (suc fuel) n ids e p v = after_choice-Keeps n e _ _ v (λ c q a found.
      let (valid, up) =
        primary-Keeps fuel (n + 1) ids (Exclusions.insert c.backend_id e) q
          (insert-IsValid c.backend_id e v) a found in
      (valid, λ j h. up j (insert-Above c.backend_id e v j h)))

  moved :
      (ids : List ℕ) (e : BackendExclusions) (a c : Acquired)
      → ◌≡◌ {A = Option Acquired} (some a) (some c)
      → Fresh ids e a
      → Fresh ids e c
  moved ids e a c found f =
      let same : a ≡ c = ap (λ o. unwrap_or o a) found in subst (Fresh ids e) same f

  idle-Fresh :
      (ids : List ℕ) (e : BackendExclusions) (a : Acquired)
      → IsValid a.excluded
      → Above e a.excluded
      → a.lease ≡ ok none
      → Fresh ids e a
  idle-Fresh ids e a v up idle = record {
    valid = v;
    above = up;
    listed = λ b h. absurd (ground arith);
    fresh = λ b h. absurd (ground arith);
  }

  try_fallback-Fresh :
      (fuel later : ℕ) (ids : List ℕ) (o : Option ℕ) (e : BackendExclusions) (a c : Acquired)
      → IsValid a.excluded
      → Above e a.excluded
      → a.lease ≡ ok none
      → try_fallback scores route out fuel later o a ≡ some c
      → Fresh (with_fallback ids o) e c
  unfolding try_fallback
  try_fallback-Fresh fuel later ids none e a c v up idle found =
      moved ids e a c found (idle-Fresh ids e a v up idle)
  try_fallback-Fresh fuel later ids (some f) e a c v up idle found =
      elim (Bool-cases (contains a.excluded f)) [
        | inl tried ↦ moved (ids ++ f ∷ []) e a c (rw tried at found) (idle-Fresh _ e a v up idle)
        | inr fresh ↦
            let run : acquire_primary scores route out fuel later (f ∷ []) a.excluded a.pool
                ≡ some c =
              rw fresh at found in
            let (valid, above) = primary-Keeps fuel later (f ∷ []) a.excluded a.pool v c run in
            record {
              valid = valid;
              above = λ j h. above j (up j h);
              listed = λ b h.
                  let g =
                    acquire_primary-lease scores route out fuel later (f ∷ []) a.excluded a.pool c b
                      v run h in
                  named-last ids f b g.listed;
              fresh = λ b h.
                  let g =
                    acquire_primary-lease scores route out fuel later (f ∷ []) a.excluded a.pool c b
                      v run h in
                  not_before e a.excluded b up g.allowed;
            }
      ]

  or_fallback-Fresh :
      (fuel later : ℕ) (ids : List ℕ) (e : BackendExclusions) (p : RamBackendPool) (a c : Acquired)
      (lease : Result (Option ℕ) AcquireError)
      → IsValid e
      → acquire_primary scores route out fuel 0 ids e p ≡ some a
      → a.lease ≡ lease
      → or_fallback scores route out fuel later lease a ≡ some c
      → Fresh (with_fallback ids route.fallback_backend_id) e c
  unfolding or_fallback
  or_fallback-Fresh fuel later ids e p a c (err x) v run leased found =
      let (valid, above) = primary-Keeps fuel 0 ids e p v a run in
      moved _ e a c found (record {
        valid = valid;
        above = above;
        listed = λ b h. absurd (ground arith);
        fresh = λ b h. absurd (ground arith);
      })
  or_fallback-Fresh fuel later ids e p a c (ok none) v run leased found =
      let (valid, above) = primary-Keeps fuel 0 ids e p v a run in
      try_fallback-Fresh fuel later ids route.fallback_backend_id e a c valid above leased found
  or_fallback-Fresh fuel later ids e p a c (ok (some b)) v run leased found =
      let (valid, above) = primary-Keeps fuel 0 ids e p v a run in
      moved _ e a c found (record {
        valid = valid;
        above = above;
        listed = λ j h.
            let g = acquire_primary-lease scores route out fuel 0 ids e p a j v run h in
            named-primary ids route.fallback_backend_id j g.listed;
        fresh = λ j h.
            let g = acquire_primary-lease scores route out fuel 0 ids e p a j v run h in g.allowed;
      })

  after_primary-Fresh :
      (fuel later : ℕ) (e : BackendExclusions) (p : RamBackendPool) (o : Option Acquired)
      (c : Acquired)
      → IsValid e
      → acquire_primary scores route out fuel 0 route.backend_ids e p ≡ o
      → after_primary scores route out fuel later o ≡ some c
      → Fresh (named route) e c
  unfolding after_primary
  after_primary-Fresh fuel later e p none c v run found = absurd (cc)
  after_primary-Fresh fuel later e p (some a) c v run found =
      or_fallback-Fresh fuel later route.backend_ids e p a c a.lease v run refl found

  -- With fuel for its turns, a search with any valid exclusions ends. It only adds to them, and a
  -- lease is for a backend that the route names and that they did not hold.
  pub acquire_excluding-Fresh :
      (fuel later : ℕ) (e : BackendExclusions) (p : RamBackendPool)
      → IsValid e
      → length route.backend_ids < fuel
      → 1 < fuel
      → (a : Acquired) × (acquire_excluding scores route out fuel later e p ≡ some a)
        × Fresh (named route) e a
  unfolding acquire_excluding
  acquire_excluding-Fresh fuel later e p v enough two =
      let (a, found, valid) = acquire_excluding_ends scores route out fuel later e p v enough two in
      (a, found, after_primary-Fresh fuel later e p _ a v refl found)
