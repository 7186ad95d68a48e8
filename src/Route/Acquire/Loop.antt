-- ===== src/Route/Acquire/Loop.antt =====
-- The loop of `acquire_primary` ends: a failed claim excludes its backend for good.
use brigh_to_router.Prelude.{
  ℕ, zero, suc, ◌+◌, ◌≤◌, ◌<◌, ◌≡◌, refl, Bool, true, false, Option, none, some, List, [], ◌∷◌,
  length, ==_iff, if◌then◌else◌, arith, Bool-cases, inl, inr,
}
use brigh_to_router.Prelude.Eq.{ℕ_eq}
use brigh_to_router.Prelude.Result.{Result, ok, err}
use brigh_to_router.Contract.Config.{ModelRoute}
use brigh_to_router.Route.Exclusions
use brigh_to_router.Route.Exclusions.{BackendExclusions, contains, mem, default}
use brigh_to_router.Route.Exclusions.Laws.{IsValid, insert-IsValid, contains-insert}
use brigh_to_router.Route.Pool.{RamBackendPool, BackendState}
use brigh_to_router.Route.Candidate.{Candidate}
use brigh_to_router.Route.Select.{AcquireError, Choice, Scores}
use brigh_to_router.Route.Select.Source.{choose_candidate-IsFrom}
use brigh_to_router.Route.Acquire.{
  Outside, Acquired, claim, after_claim, claim_at, after_choice, acquire_primary, after_primary,
  or_fallback, try_fallback, acquire_excluding,
}

-- The backends that are still to be tried.
unfoldable pub left : List ℕ → BackendExclusions → ℕ
left [] e = 0
left (id ∷ ids) e = if contains e id then left ids e else suc (left ids e)

pub left-length : (ids : List ℕ) (e : BackendExclusions) → left ids e ≤ length ids
unfolding left
left-length [] e = omega arith
left-length (id ∷ ids) e = ground (arith, left-length ids e)

left_after :
    (ids : List ℕ) (b : ℕ) (e : BackendExclusions)
    → IsValid e
    → left ids (Exclusions.insert b e) ≤ left ids e
unfolding left
left_after [] b e v = omega arith
left_after (id ∷ ids) b e v = ground (arith, left_after ids b e v, contains-insert b id e v)

pub left_fewer :
    (ids : List ℕ) (b : ℕ) (e : BackendExclusions)
    → IsValid e
    → mem ids b ≡ true
    → contains e b ≡ false
    → left ids (Exclusions.insert b e) < left ids e
unfolding left mem
left_fewer [] b e v m h = ground arith
left_fewer (id ∷ ids) b e v m h = ground (
  arith,
  left_fewer ids b e v,
  left_after ids b e v,
  contains-insert b id e v,
  ==_iff id b,
  ==_iff b id,
)

abbrev pub Ends : Option Acquired → Type 0
Ends o = (a : Acquired) × (o ≡ some a) × IsValid a.excluded

module _ (scores : Scores) (route : ModelRoute) (out : Outside) where
  after_claim-Ends :
      (c : Candidate) (e : BackendExclusions) (p : RamBackendPool) (r : BackendState × Bool)
      (rest : BackendExclusions → RamBackendPool → Option Acquired)
      → IsValid e
      → ((q : RamBackendPool) → Ends (rest (Exclusions.insert c.backend_id e) q))
      → Ends (after_claim scores route out c e p r rest)
  unfolding after_claim
  after_claim-Ends c e p (s, true) rest v k = (_, refl, v)
  after_claim-Ends c e p (s, false) rest v k = k _

  claim_at-Ends :
      (c : Candidate) (e : BackendExclusions) (p : RamBackendPool) (o : Option BackendState)
      (rest : BackendExclusions → RamBackendPool → Option Acquired)
      → IsValid e
      → ((q : RamBackendPool) → Ends (rest (Exclusions.insert c.backend_id e) q))
      → Ends (claim_at scores route out c e p o rest)
  unfolding claim_at
  claim_at-Ends c e p none rest v k = k p
  claim_at-Ends c e p (some s) rest v k = after_claim-Ends c e p (claim route c s) rest v k

  after_choice-Ends :
      (n : ℕ) (e : BackendExclusions) (choice : Choice)
      (rest : BackendExclusions → RamBackendPool → Option Acquired)
      → IsValid e
      → ((c : Candidate)
          → choice.1 ≡ ok (some c)
          → (q : RamBackendPool) → Ends (rest (Exclusions.insert c.backend_id e) q))
      → Ends (after_choice scores route out n e choice rest)
  unfolding after_choice
  after_choice-Ends n e (p, err x) rest v k = (_, refl, v)
  after_choice-Ends n e (p, ok none) rest v k = (_, refl, v)
  after_choice-Ends n e (p, ok (some c)) rest v k = claim_at-Ends c e _ _ rest v (k c refl)

  loop-Ends :
      (fuel n : ℕ) (ids : List ℕ) (e : BackendExclusions) (p : RamBackendPool)
      → IsValid e
      → left ids e < fuel
      → Ends (acquire_primary scores route out fuel n ids e p)
  unfolding acquire_primary
  loop-Ends zero n ids e p v h = ground arith
  loop-Ends (suc fuel) n ids e p v h = after_choice-Ends n e _ _ v (λ c chosen q.
      let from =
        choose_candidate-IsFrom route e (out.now n) scores (out.coin n) (out.draw n) ids p c
          chosen in
      loop-Ends fuel (n + 1) ids (Exclusions.insert c.backend_id e) q
        (insert-IsValid c.backend_id e v)
        (omega (arith, left_fewer ids c.backend_id e v from.listed from.allowed)))

  try_fallback-Ends :
      (fuel later : ℕ) (fallback : Option ℕ) (a : Acquired)
      → IsValid a.excluded
      → 1 < fuel
      → Ends (try_fallback scores route out fuel later fallback a)
  unfolding try_fallback
  try_fallback-Ends fuel later none a v h = (a, refl, v)
  try_fallback-Ends fuel later (some b) a v h = elim (Bool-cases (contains a.excluded b)) [
    | inl tried ↦ rw tried (a, refl, v)
    | inr fresh ↦ rw fresh (
        loop-Ends fuel later (b ∷ []) a.excluded a.pool v
          (omega (arith, left-length (b ∷ []) a.excluded)))
  ]

  or_fallback-Ends :
      (fuel later : ℕ) (lease : Result (Option ℕ) AcquireError) (a : Acquired)
      → IsValid a.excluded
      → 1 < fuel
      → Ends (or_fallback scores route out fuel later lease a)
  unfolding or_fallback
  or_fallback-Ends fuel later (err x) a v h = (a, refl, v)
  or_fallback-Ends fuel later (ok (some b)) a v h = (a, refl, v)
  or_fallback-Ends fuel later (ok none) a v h =
      try_fallback-Ends fuel later route.fallback_backend_id a v h

  -- The search for a lease ends, whatever the policy draws and whatever the other requests do to the
  -- pool between a choice and its claim: fuel above the number of primary backends, and above 1,
  -- gives a result, from any valid exclusions, which stay valid.
  pub acquire_excluding_ends :
      (fuel later : ℕ) (e : BackendExclusions) (p : RamBackendPool)
      → IsValid e
      → length route.backend_ids < fuel
      → 1 < fuel
      → (a : Acquired) × (acquire_excluding scores route out fuel later e p ≡ some a)
        × IsValid a.excluded
  unfolding acquire_excluding after_primary
  acquire_excluding_ends fuel later e p v enough two =
      let (a, found, v') =
        loop-Ends fuel 0 route.backend_ids e p v (omega (arith, left-length route.backend_ids e)) in
      rw found (or_fallback-Ends fuel later a.lease a v' two)
