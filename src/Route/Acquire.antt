-- ===== src/Route/Acquire.antt =====
-- `acquire`, `acquire_excluding` and `acquire_primary` of src/route/mod.rs, and the lease that they
-- return. Other requests run between the choice of a backend and the claim on it: what they do to
-- the pool is `interfere`, any function. Claiming a backend is one step here. The loop runs on fuel.
pub mod Lease
pub mod Loop
pub mod Again
pub mod Stuck
pub mod Tests
use brigh_to_router.Prelude.{
  ℕ, zero, suc, ◌+◌, ◌-◌, ◌%◌, Bool, true, false, ◌&&◌, Option, none, some, List, [], ◌∷◌, ltb, leb,
  if◌then◌else◌, u32_mod,
}
use brigh_to_router.Prelude.Eq.{ℕ_eq}
use brigh_to_router.Prelude.Maps.{lookup, insert}
use brigh_to_router.Prelude.Result.{Result, ok, err}
use brigh_to_router.Contract.Config.{ModelRoute, endpoint_max_inflight}
use brigh_to_router.Route.Exclusions
use brigh_to_router.Route.Exclusions.{BackendExclusions, contains, default}
use brigh_to_router.Route.Pool.{RamBackendPool, BackendState, dec_inflight}
use brigh_to_router.Route.Candidate.{Candidate, effective_max}
use brigh_to_router.Route.Select.{AcquireError, Choice, Scores, choose_candidate}

-- What the outside gives to the n-th turn of a loop: the model's counter, the random draws, the
-- clock, and the other requests.
pub record Outside : Type 0 where
  pub draw : ℕ → Result ℕ AcquireError
  pub coin : ℕ → ℕ → ℕ → Bool
  pub now : ℕ → ℕ
  pub interfere : ℕ → RamBackendPool → RamBackendPool

-- The pool, the exclusions, and the backend of the lease.
pub record Acquired : Type 0 where
  pub pool : RamBackendPool
  pub excluded : BackendExclusions
  pub lease : Result (Option ℕ) AcquireError

-- The addition, and its reversal where the backend was full by then.
reserve_slot : ℕ → Bool → BackendState → BackendState × Bool
reserve_slot m half_open s =
    let added = record s { inflight = (s.inflight + 1) % u32_mod } in
    if ltb 0 m && leb m s.inflight
    then (
      record added {
        inflight = (added.inflight + (u32_mod - 1)) % u32_mod;
        half_open_probe = if half_open then true else s.half_open_probe;
      },
      false,
    )
    else (added, true)

-- A half-open candidate first has to win the probe.
unfoldable pub claim : ModelRoute → Candidate → BackendState → BackendState × Bool
unfolding reserve_slot
claim route c s =
    let m = effective_max s.max_inflight (endpoint_max_inflight route c.backend_id) in
    if c.half_open
    then (if s.half_open_probe
        then reserve_slot m true (record s { half_open_probe = false })
        else (s, false))
    else reserve_slot m false s

module _ (scores : Scores) (route : ModelRoute) (out : Outside) where
  after_claim :
      Candidate
      → BackendExclusions
      → RamBackendPool
      → BackendState × Bool
      → (BackendExclusions → RamBackendPool → Option Acquired)
      → Option Acquired
  after_claim c e p (s, true) rest = some (record {
    pool = record p { states = insert c.backend_id s p.states };
    excluded = e;
    lease = ok (some c.backend_id);
  })
  after_claim c e p (s, false) rest =
      rest (Exclusions.insert c.backend_id e) (record p { states = insert c.backend_id s p.states })

  claim_at :
      Candidate
      → BackendExclusions
      → RamBackendPool
      → Option BackendState
      → (BackendExclusions → RamBackendPool → Option Acquired)
      → Option Acquired
  unfolding after_claim
  claim_at c e p none rest = rest (Exclusions.insert c.backend_id e) p
  claim_at c e p (some s) rest = after_claim c e p (claim route c s) rest

  after_choice :
      ℕ
      → BackendExclusions
      → Choice
      → (BackendExclusions → RamBackendPool → Option Acquired)
      → Option Acquired
  unfolding claim_at
  after_choice n e (p, err x) rest = some (record { pool = p; excluded = e; lease = err x })
  after_choice n e (p, ok none) rest = some (record { pool = p; excluded = e; lease = ok none })
  after_choice n e (p, ok (some c)) rest =
      let q = out.interfere n p in claim_at c e q (lookup c.backend_id q.states) rest

  -- `n` counts the turns; `none` is a loop that has run out of fuel.
  pub acquire_primary : ℕ → ℕ → List ℕ → BackendExclusions → RamBackendPool → Option Acquired
  unfolding after_choice
  acquire_primary zero n ids e p = none
  acquire_primary (suc fuel) n ids e p =
      after_choice n e (choose_candidate route e (out.now n) scores (out.coin n) (out.draw n) ids p)
        (λ e' p'. acquire_primary fuel (n + 1) ids e' p')

  -- The turns of the fallback's loop are counted from `later`.
  try_fallback : ℕ → ℕ → Option ℕ → Acquired → Option Acquired
  try_fallback fuel later none a = some a
  try_fallback fuel later (some b) a =
      if contains a.excluded b
      then some a
      else acquire_primary fuel later (b ∷ []) a.excluded a.pool

  -- An error is passed on, and so is a lease; no lease leads to the fallback.
  or_fallback : ℕ → ℕ → Result (Option ℕ) AcquireError → Acquired → Option Acquired
  unfolding try_fallback
  or_fallback fuel later (err x) a = some a
  or_fallback fuel later (ok (some b)) a = some a
  or_fallback fuel later (ok none) a = try_fallback fuel later route.fallback_backend_id a

  after_primary : ℕ → ℕ → Option Acquired → Option Acquired
  unfolding or_fallback
  after_primary fuel later none = none
  after_primary fuel later (some a) = or_fallback fuel later a.lease a

  pub acquire_excluding : ℕ → ℕ → BackendExclusions → RamBackendPool → Option Acquired
  unfolding after_primary
  acquire_excluding fuel later e p =
      after_primary fuel later (acquire_primary fuel 0 route.backend_ids e p)

  pub acquire : ℕ → ℕ → RamBackendPool → Option Acquired
  acquire fuel later p = acquire_excluding fuel later default p

-- `Drop for BackendLease`.
unfoldable pub drop : ℕ → RamBackendPool → RamBackendPool
drop backend_id p = dec_inflight p backend_id
