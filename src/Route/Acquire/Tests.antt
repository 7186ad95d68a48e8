-- ===== src/Route/Acquire/Tests.antt =====
-- The theorems on leases at concrete inputs.
use brigh_to_router.Prelude.{
  ℕ, ◌+◌, ◌<◌, ◌≡◌, refl, Bool, true, false, Option, none, some, List, [], ◌∷◌, length, arith,
  u32_mod, if◌then◌else◌,
}
use brigh_to_router.Prelude.Eq.{ℕ_eq}
use brigh_to_router.Prelude.Maps.{lookup, modify}
use brigh_to_router.Prelude.Result.{ok}
use brigh_to_router.Contract.Policy.{round_robin}
use brigh_to_router.Route.Exclusions.{BackendExclusions, default}
use brigh_to_router.Route.Exclusions.Laws.{IsValid, default-IsValid}
use brigh_to_router.Route.Pool.{BackendState, closed, half_open, is_missing}
use brigh_to_router.Route.Candidate.{Candidate, candidate_for_backend}
use brigh_to_router.Route.Select.{Scores}
use brigh_to_router.Route.Acquire.{
  Outside, Acquired, claim, acquire_primary, acquire_excluding, drop,
}
use brigh_to_router.Route.Acquire.Loop.{acquire_excluding_ends}
use brigh_to_router.Route.Acquire.Lease.{Granted, acquire_primary-lease, drop-claim}
use brigh_to_router.Route.Acquire.Stuck.{
  Event, considered, claimed, dropped, noted, synced, apply_all, any_may_revive, Stuck-stays,
}
use brigh_to_router.Route.Candidate.Stuck.{Stuck}
use brigh_to_router.Route.Tests.{backend, route, state, pool}

abbrev scores : Scores
scores = record { lt = λ a b. false; eq = λ a b. true }

-- The counter stands at 0, and another request takes the last slot of backend 1 in between.
abbrev out : Outside
out = record {
  draw = λ n. ok 0;
  coin = λ n id ties. true;
  now = λ n. 60;
  interfere = λ n p. record p { states = modify 1 (λ s. record s { inflight = 2 }) p.states };
}

abbrev acquired : Acquired
acquired = record {
  pool = record {
    states =
        (1, state closed true none 2)
        ∷ (2, state half_open false (some 50) 1)
        ∷ (3, state half_open false (some 50) 0)
        ∷ [];
    open_duration = 30;
  };
  excluded = record { inline = 1 ∷ 0 ∷ 0 ∷ 0 ∷ 0 ∷ 0 ∷ 0 ∷ 0 ∷ []; len = 1; overflow = [] };
  lease = ok (some 2);
}

second_turn :
    acquire_primary scores (route round_robin) out 3 0 (1 ∷ 2 ∷ []) default pool ≡ some acquired
unfolding acquire_primary brigh_to_router.Route.Select.choose_candidate
    brigh_to_router.Route.Select.choose_round_robin brigh_to_router.Route.Select.count_pass
    candidate_for_backend brigh_to_router.Route.Exclusions.contains
    brigh_to_router.Route.Exclusions.mem default brigh_to_router.Contract.Config.endpoint_enabled
    lookup brigh_to_router.Route.Candidate.consider brigh_to_router.Route.Candidate.is_full
    brigh_to_router.Contract.Config.endpoint_max_inflight brigh_to_router.Prelude.Maps.insert
    brigh_to_router.Route.Candidate.expired brigh_to_router.Route.Select.nth_pass modify claim
    brigh_to_router.Route.Candidate.candidate_weight brigh_to_router.Route.Candidate.effective_max
    brigh_to_router.Route.Exclusions.insert
second_turn = refl

acquire_primary-lease_example : Granted (route round_robin) (1 ∷ 2 ∷ []) default 2 acquired.pool
acquire_primary-lease_example =
    acquire_primary-lease scores (route round_robin) out 3 0 (1 ∷ 2 ∷ []) default pool acquired 2
      default-IsValid second_turn refl

acquire_excluding_ends_example :
    (a : Acquired) × (acquire_excluding scores (route round_robin) out 3 3 default pool ≡ some a)
    × IsValid a.excluded
acquire_excluding_ends_example =
    acquire_excluding_ends scores (route round_robin) out 3 3 default pool default-IsValid
      (omega arith) (omega arith)

abbrev probing : Candidate
probing = record { backend_id = 2; score = record { inflight = 0; weight = 3 }; half_open = true }

abbrev before : BackendState
before = state half_open true (some 50) 0

won : (claim (route round_robin) probing before).1 ≡ true
unfolding claim brigh_to_router.Route.Candidate.effective_max
    brigh_to_router.Contract.Config.endpoint_max_inflight lookup
won = refl

at_second : lookup 2 acquired.pool.states ≡ some (claim (route round_robin) probing before).0
unfolding claim lookup brigh_to_router.Route.Candidate.effective_max
    brigh_to_router.Contract.Config.endpoint_max_inflight
at_second = refl

drop-claim_example :
    lookup 2 (drop 2 acquired.pool).states
    ≡ some (record before {
      half_open_probe = if probing.half_open then false else before.half_open_probe;
    })
drop-claim_example =
    drop-claim (route round_robin) probing before acquired.pool (omega arith) won at_second

-- Its lease is dropped without a result, and later requests come.
abbrev events : List Event
events =
    dropped 2
    ∷ noted 1 true 61
    ∷ considered (route round_robin) 2 default 100_000
    ∷ claimed (route round_robin) probing
    ∷ synced ((2, record backend { id = 2 }) ∷ [])
    ∷ []

second-Stuck : Stuck 2 acquired.pool
unfolding lookup
second-Stuck = record {
  state = state half_open false (some 50) 1;
  found = refl;
  is_half_open = refl;
  probe_taken = refl;
}

no_result : any_may_revive 2 events ≡ false
unfolding any_may_revive brigh_to_router.Route.Acquire.Stuck.may_revive is_missing lookup
no_result = refl

Stuck-stays_example :
    (candidate_for_backend (apply_all events acquired.pool) (route round_robin) 2 default 200_000).1
    ≡ none
Stuck-stays_example =
    Stuck-stays 2 events acquired.pool (route round_robin) default 200_000 second-Stuck no_result
