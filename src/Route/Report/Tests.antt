-- ===== src/Route/Report/Tests.antt =====
-- The theorems on the report at concrete inputs.
use brigh_to_router.Prelude.{ℕ, ◌≡◌, refl, true, false, some, none, List, [], ◌∷◌, ◌++◌, ◌||◌}
use brigh_to_router.Prelude.Eq.{ℕ_eq}
use brigh_to_router.Contract.Policy.{round_robin}
use brigh_to_router.Route.Exclusions.{default, contains}
use brigh_to_router.Route.Candidate.{Candidate, candidate_for_backend}
use brigh_to_router.Route.Report.{reason, eligible}
use brigh_to_router.Route.Report.Truth.{blocks, reason-candidate}
use brigh_to_router.Route.Tests.{route, pool}

lost_probe : blocks (reason pool (route round_robin) 60 3) ≡ true
unfolding reason blocks brigh_to_router.Contract.Config.endpoint_enabled
    brigh_to_router.Prelude.Maps.lookup
lost_probe = refl

reason-candidate_example : (candidate_for_backend pool (route round_robin) 3 default 60).1 ≡ none
reason-candidate_example = reason-candidate pool (route round_robin) 60 3 default lost_probe

serves : reason pool (route round_robin) 60 1 ≡ eligible
unfolding reason brigh_to_router.Contract.Config.endpoint_enabled
    brigh_to_router.Prelude.Maps.lookup brigh_to_router.Route.Candidate.effective_max
    brigh_to_router.Contract.Config.endpoint_max_inflight
serves = refl

free : contains default 1 ≡ false
unfolding contains default brigh_to_router.Route.Exclusions.mem
free = refl
