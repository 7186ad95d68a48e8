-- ===== src/Route/Select/Tests.antt =====
-- The theorems on the choice at concrete inputs.
use brigh_to_router.Prelude.{
  ℕ, ◌+◌, ◌%◌, ◌≤◌, ◌<◌, ◌≡◌, ◌≢◌, refl, true, false, some, List, [], ◌∷◌, ◌++◌, arith, u64_mod,
}
use brigh_to_router.Prelude.{◌*◌, ltb, ◌==◌, max, Bool-cases, inl, inr}
use brigh_to_router.Prelude.Eq.{ℕ_eq}
use brigh_to_router.Prelude.Maps.{lookup}
use brigh_to_router.Prelude.Result.{ok}
use brigh_to_router.Contract.Policy.{round_robin, weighted_round_robin}
use brigh_to_router.Route.Exclusions.{default}
use brigh_to_router.Route.Candidate.{Candidate, Score, candidate_for_backend}
use brigh_to_router.Route.Select.{choose_round_robin, choose_weighted, choose_least_loaded, Scores}
use brigh_to_router.Route.Select.LeastLoaded.{Ordered, IsBest, choose_least_loaded-IsBest}
use brigh_to_router.Route.Select.Passes.{candidates}
use brigh_to_router.Route.Select.RoundRobin.{
  rotation, choose_round_robin-rotation, choose_round_robin-some,
}
use brigh_to_router.Route.Select.Weighted.{total, choose_weighted-slot}
use brigh_to_router.Route.Tests.{route, pool}

abbrev first : Candidate
first = record { backend_id = 1; score = record { inflight = 1; weight = 1 }; half_open = false }

abbrev second : Candidate
second = record { backend_id = 2; score = record { inflight = 0; weight = 3 }; half_open = true }

abbrev ids : List ℕ
ids = 3 ∷ 1 ∷ 2 ∷ []

both : candidates (route weighted_round_robin) default 60 pool ids ≡ (first ∷ []) ++ second ∷ []
unfolding candidates candidate_for_backend brigh_to_router.Route.Exclusions.contains
    brigh_to_router.Route.Exclusions.mem default brigh_to_router.Contract.Config.endpoint_enabled
    lookup brigh_to_router.Route.Candidate.consider brigh_to_router.Route.Candidate.is_full
    brigh_to_router.Contract.Config.endpoint_max_inflight
    brigh_to_router.Route.Candidate.candidate_weight brigh_to_router.Route.Candidate.expired
both = refl

two : candidates (route round_robin) default 60 pool ids ≡ first ∷ second ∷ []
unfolding candidates candidate_for_backend brigh_to_router.Route.Exclusions.contains
    brigh_to_router.Route.Exclusions.mem default brigh_to_router.Contract.Config.endpoint_enabled
    lookup brigh_to_router.Route.Candidate.consider brigh_to_router.Route.Candidate.is_full
    brigh_to_router.Contract.Config.endpoint_max_inflight
    brigh_to_router.Route.Candidate.candidate_weight brigh_to_router.Route.Candidate.expired
two = refl

not_empty : candidates (route round_robin) default 60 pool ids ≢ []
not_empty e = ground (arith, e, two)

choose_round_robin-rotation_example :
    (choose_round_robin (route round_robin) default 60 (ok 7) ids pool).1
    ≡ rotation (ok 7) (candidates (route round_robin) default 60 pool ids)
choose_round_robin-rotation_example =
    choose_round_robin-rotation (route round_robin) default 60 (ok 7) ids pool

choose_round_robin-some_example :
    (c : Candidate) × ((choose_round_robin (route round_robin) default 60 (ok 7) ids pool).1
      ≡ ok (some c))
choose_round_robin-some_example =
    choose_round_robin-some (route round_robin) default 60 7 ids pool not_empty

fits : total (route weighted_round_robin) default 60 ((first ∷ []) ++ second ∷ []) < u64_mod
unfolding total brigh_to_router.Contract.Config.endpoint_weight lookup
fits = omega arith

from :
    total (route weighted_round_robin) default 60 (first ∷ [])
    ≤ 7 % total (route weighted_round_robin) default 60 ((first ∷ []) ++ second ∷ [])
unfolding total brigh_to_router.Contract.Config.endpoint_weight lookup
from = omega arith

below :
    7 % total (route weighted_round_robin) default 60 ((first ∷ []) ++ second ∷ [])
    < total (route weighted_round_robin) default 60 (first ∷ []) + 3
unfolding total brigh_to_router.Contract.Config.endpoint_weight lookup
below = omega arith

choose_weighted-slot_example :
    (choose_weighted (route weighted_round_robin) default 60 (ok 7) ids pool).1 ≡ ok (some second)
unfolding brigh_to_router.Contract.Config.endpoint_weight lookup
choose_weighted-slot_example =
    choose_weighted-slot (route weighted_round_robin) default 60 7 ids pool (first ∷ []) second []
      both fits from below

-- Quotients compared exactly.
abbrev exact : Scores
exact = record {
  lt = λ a b. ltb (a.inflight * max b.weight 1) (b.inflight * max a.weight 1);
  eq = λ a b. a.inflight * max b.weight 1 == b.inflight * max a.weight 1;
}

mul_mono : (x y z : ℕ) → x ≤ y → x * z ≤ y * z
mul_mono x y z h = grind arith

mul_strict : (x y z : ℕ) → x < y → 0 < z → x * z < y * z
mul_strict x y z h k = grind arith

cross : (a b c u v w : ℕ) → 0 < v → a * v ≤ b * u → b * w ≤ c * v → a * w ≤ c * u
cross a b c u v w pos h k = elim (Bool-cases (ltb (c * u) (a * w))) [
  | inl less ↦ absurd (
      omega (
        arith,
        mul_strict (c * u) (a * w) v (ground (arith, less)) pos,
        mul_mono (a * v) (b * u) w h,
        mul_mono (b * w) (c * v) u k,
      ))
  | inr more ↦ ground (arith, more)
]

exact-Ordered : Ordered exact
exact-Ordered = record {
  irrefl = λ a. ground arith;
  asym = λ a b h. ground arith;
  not_below = λ a b c h k. ground (
    arith,
    cross a.inflight b.inflight c.inflight (max a.weight 1) (max b.weight 1) (max c.weight 1),
  );
  eq_not_below = λ a b h. ground arith;
}

choose_least_loaded-IsBest_example :
    IsBest exact
      (candidates (route round_robin) default 60 pool ids)
      (choose_least_loaded (route round_robin) default 60 exact (λ id ties. true) ids pool).1
choose_least_loaded-IsBest_example =
    choose_least_loaded-IsBest (route round_robin) default 60 exact (λ id ties. true) exact-Ordered
      ids pool
