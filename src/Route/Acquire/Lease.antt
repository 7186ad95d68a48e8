-- ===== src/Route/Acquire/Lease.antt =====
-- What a lease promises.
use brigh_to_router.Prelude.{
  ℕ, zero, suc, ◌+◌, ◌-◌, ◌%◌, ◌≤◌, ◌<◌, ◌≡◌, refl, Bool, true, false, ◌&&◌, Option, none, some,
  List, ltb, leb, ◌==◌, ==_iff, if◌then◌else◌, u32_mod, arith,
}
use brigh_to_router.Prelude.Eq.{ℕ_eq}
use brigh_to_router.Prelude.Maps.{lookup, lookup-insert, lookup-modify, map_option, insert}
use brigh_to_router.Prelude.Result.{ok, err}
use brigh_to_router.Contract.Config.{ModelRoute, endpoint_max_inflight}
use brigh_to_router.Route.Exclusions
use brigh_to_router.Route.Exclusions.{BackendExclusions, contains, mem, default}
use brigh_to_router.Route.Exclusions.Laws.{IsValid, insert-IsValid, contains-insert}
use brigh_to_router.Route.Pool.{RamBackendPool, BackendState, dec_inflight}
use brigh_to_router.Route.Candidate.{Candidate, effective_max}
use brigh_to_router.Route.Select.{Choice, Scores}
use brigh_to_router.Route.Select.Source.{IsFrom, choose_candidate-IsFrom}
use brigh_to_router.Route.Acquire.{
  Outside, Acquired, reserve_slot, claim, after_claim, claim_at, after_choice, acquire_primary,
  drop,
}

-- At most the limit; a limit of 0 is none.
abbrev pub AtMost : ℕ → ℕ → Type 0
AtMost n zero = Unit
AtMost n (suc m) = n ≤ suc m

limit-AtMost :
    (m n i : ℕ)
    → (ltb 0 (effective_max m n) && leb (effective_max m n) i) ≡ false
    → AtMost ((i + 1) % u32_mod) m × AtMost ((i + 1) % u32_mod) n
unfolding effective_max
limit-AtMost zero zero i h = ground arith
limit-AtMost zero (suc n) i h = ground arith
limit-AtMost (suc m) zero i h = ground arith
limit-AtMost (suc m) (suc n) i h = ground arith

wrap_back : (i : ℕ) → i < u32_mod → ((i + 1) % u32_mod + (u32_mod - 1)) % u32_mod ≡ i
wrap_back i h = omega arith

-- A lost claim leaves the state as it was, and a won one adds one request, within both limits, and
-- takes the probe where the candidate was half open.
claim-lost :
    (route : ModelRoute) (c : Candidate) (s : BackendState)
    → s.inflight < u32_mod
    → (claim route c s).1 ≡ false
    → (claim route c s).0 ≡ s
unfolding claim reserve_slot
claim-lost route c s fits h = ground (arith, wrap_back s.inflight fits)

pub record Won (route : ModelRoute) (c : Candidate) (s t : BackendState) : Type 0 where
  pub added : t.inflight ≡ (s.inflight + 1) % u32_mod
  pub within_backend : AtMost t.inflight t.max_inflight
  pub within_endpoint : AtMost t.inflight (endpoint_max_inflight route c.backend_id)
  pub probe : c.half_open ≡ true → (s.half_open_probe ≡ true) × (t.half_open_probe ≡ false)
  pub circuit : t.circuit ≡ s.circuit

claim-Won :
    (route : ModelRoute) (c : Candidate) (s : BackendState)
    → (claim route c s).1 ≡ true
    → Won route c s (claim route c s).0
unfolding claim reserve_slot
claim-Won route c s h =
    ground
      (arith, limit-AtMost s.max_inflight (endpoint_max_inflight route c.backend_id) s.inflight)

-- What the pool shows of a backend just leased.
pub record Granted (route : ModelRoute) (ids : List ℕ) (e : BackendExclusions) (b : ℕ)
    (p : RamBackendPool) : Type 0 where
  pub listed : mem ids b ≡ true
  pub allowed : contains e b ≡ false
  pub state : BackendState
  pub found : lookup b p.states ≡ some state
  pub within_backend : AtMost state.inflight state.max_inflight
  pub within_endpoint : AtMost state.inflight (endpoint_max_inflight route b)

module _ (scores : Scores) (route : ModelRoute) (out : Outside) where
  abbrev Right : List ℕ → BackendExclusions → Option Acquired → Type 0
  Right ids e o =
      (a : Acquired) (b : ℕ) → o ≡ some a → a.lease ≡ ok (some b) → Granted route ids e b a.pool

  widen :
      (ids : List ℕ) (b : ℕ) (e : BackendExclusions) (o : Option Acquired)
      → IsValid e
      → Right ids (Exclusions.insert b e) o
      → Right ids e o
  widen ids b e o v h a j found leased =
      let g = h a j found leased in
      let allowed_before : contains e j ≡ false =
        let x = g.allowed in ground (arith, contains-insert b j e v) in
      record {
        listed = g.listed;
        allowed = allowed_before;
        state = g.state;
        found = g.found;
        within_backend = g.within_backend;
        within_endpoint = g.within_endpoint;
      }

  moved :
      (ids : List ℕ) (e : BackendExclusions) (b c : ℕ) (p q : RamBackendPool)
      → b ≡ c
      → p ≡ q
      → Granted route ids e b p
      → Granted route ids e c q
  moved ids e b c p q same_id same_pool g = rw (same_id, same_pool) at g

  granted :
      (now : ℕ) (ids : List ℕ) (e : BackendExclusions) (c : Candidate) (s : BackendState)
      (p : RamBackendPool)
      → IsFrom route e now ids c
      → (claim route c s).1 ≡ true
      → Granted route ids e c.backend_id
          (record p { states = insert c.backend_id (claim route c s).0 p.states })
  granted now ids e c s p from won =
      let w = claim-Won route c s won in
      record {
        listed = from.listed;
        allowed = from.allowed;
        state = (claim route c s).0;
        found = ground (
          arith,
          lookup-insert c.backend_id c.backend_id (claim route c s).0 p.states,
          ==_iff c.backend_id c.backend_id,
        );
        within_backend = w.within_backend;
        within_endpoint = w.within_endpoint;
      }

  after_claim-Right :
      (now : ℕ) (ids : List ℕ) (c : Candidate) (e : BackendExclusions) (p : RamBackendPool)
      (s : BackendState) (won : Bool) (rest : BackendExclusions → RamBackendPool → Option Acquired)
      → (claim route c s).1 ≡ won
      → IsFrom route e now ids c
      → ((q : RamBackendPool) → Right ids e (rest (Exclusions.insert c.backend_id e) q))
      → Right ids e (after_claim scores route out c e p ((claim route c s).0, won) rest)
  unfolding after_claim
  after_claim-Right now ids c e p s false rest won from k a b found leased = k _ a b found leased
  after_claim-Right now ids c e p s true rest won from k a b found leased =
      let g = granted now ids e c s p from won in
      moved ids e c.backend_id b _ a.pool (ground arith) (ground arith) g

  claim_at-Right :
      (now : ℕ) (ids : List ℕ) (c : Candidate) (e : BackendExclusions) (p : RamBackendPool)
      (o : Option BackendState) (rest : BackendExclusions → RamBackendPool → Option Acquired)
      → IsFrom route e now ids c
      → ((q : RamBackendPool) → Right ids e (rest (Exclusions.insert c.backend_id e) q))
      → Right ids e (claim_at scores route out c e p o rest)
  unfolding claim_at
  claim_at-Right now ids c e p none rest from k = k p
  claim_at-Right now ids c e p (some s) rest from k =
      after_claim-Right now ids c e p s (claim route c s).1 rest refl from k

  after_choice-Right :
      (now n : ℕ) (ids : List ℕ) (e : BackendExclusions) (choice : Choice)
      (rest : BackendExclusions → RamBackendPool → Option Acquired)
      → ((c : Candidate) → choice.1 ≡ ok (some c) → IsFrom route e now ids c)
      → ((c : Candidate)
          → IsFrom route e now ids c
          → (q : RamBackendPool) → Right ids e (rest (Exclusions.insert c.backend_id e) q))
      → Right ids e (after_choice scores route out n e choice rest)
  unfolding after_choice
  after_choice-Right now n ids e (p, err x) rest from k a b found leased = ground arith
  after_choice-Right now n ids e (p, ok none) rest from k a b found leased = ground arith
  after_choice-Right now n ids e (p, ok (some c)) rest from k a b found leased =
      claim_at-Right now ids c e _ _ rest (from c refl) (k c (from c refl)) a b found leased

  primary-Right :
      (fuel n : ℕ) (ids : List ℕ) (e : BackendExclusions) (p : RamBackendPool)
      → IsValid e
      → Right ids e (acquire_primary scores route out fuel n ids e p)
  unfolding acquire_primary
  primary-Right zero n ids e p v a b found leased = ground arith
  primary-Right (suc fuel) n ids e p v a b found leased =
      after_choice-Right (out.now n) n ids e _ _
        (λ c chosen.
          choose_candidate-IsFrom route e (out.now n) scores (out.coin n) (out.draw n) ids p c
            chosen)
        (λ c from q. widen ids c.backend_id e _ v (
          primary-Right fuel (n + 1) ids (Exclusions.insert c.backend_id e) q
            (insert-IsValid c.backend_id e v)))
        a b found leased

  -- A lease is for a backend of the list that was not excluded, and the pool that comes with it
  -- has that backend within both of its limits on requests in flight (0 is no limit), the new request
  -- included: for every policy, from any valid exclusions, whatever the other requests do to the pool
  -- between a choice and its claim.
  pub acquire_primary-lease :
      (fuel n : ℕ) (ids : List ℕ) (e : BackendExclusions) (p : RamBackendPool) (a : Acquired)
      (b : ℕ)
      → IsValid e
      → acquire_primary scores route out fuel n ids e p ≡ some a
      → a.lease ≡ ok (some b)
      → Granted route ids e b a.pool
  acquire_primary-lease fuel n ids e p a b v = primary-Right fuel n ids e p v a b

pub lookup-drop :
    (p : RamBackendPool) (id j : ℕ)
    → lookup j (drop id p).states ≡ (
        if id == j
        then map_option (λ s. record s { inflight = s.inflight - 1 }) (lookup j p.states)
        else lookup j p.states)
unfolding drop dec_inflight
lookup-drop p id j = lookup-modify id j (λ s. record s { inflight = s.inflight - 1 }) p.states

-- Dropping a lease gives back what its claim took from the count, where the count cannot wrap around,
-- and nothing else: of a half-open backend, the probe stays taken.
pub drop-claim :
    (route : ModelRoute) (c : Candidate) (s : BackendState) (p : RamBackendPool)
    → s.inflight + 1 < u32_mod
    → (claim route c s).1 ≡ true
    → lookup c.backend_id p.states ≡ some (claim route c s).0
    → lookup c.backend_id (drop c.backend_id p).states
      ≡ some (record s { half_open_probe = if c.half_open then false else s.half_open_probe })
unfolding claim reserve_slot
drop-claim route c s p fits won at_id =
    ground (arith, lookup-drop p c.backend_id c.backend_id, ==_iff c.backend_id c.backend_id)
