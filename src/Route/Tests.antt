-- ===== src/Route/Tests.antt =====
-- Backends and a route for concrete inputs, and the theorems on the pool at them.
use brigh_to_router.Prelude.{
  ℕ, ◌≡◌, ◌↔◌, refl, Bool, true, false, Option, none, some, List, [], ◌∷◌, ltb, if◌then◌else◌,
}
use brigh_to_router.Prelude.Eq.{ℕ_eq}
use brigh_to_router.Prelude.Maps.{lookup}
use brigh_to_router.Prelude.Text.{codes}
use brigh_to_router.Contract.Config.{Backend, open_ai, ModelRoute, endpoint_enabled}
use brigh_to_router.Contract.Policy.{RoutingPolicy, round_robin}
use brigh_to_router.Route.Exclusions.{contains, default}
use brigh_to_router.Route.Pool.{
  RamBackendPool, BackendState, Circuit, closed, opened, half_open, new_state,
}
use brigh_to_router.Route.Pool.Breaker.{notes, streak, notes-circuit}
use brigh_to_router.Route.Candidate.{Candidate, candidate_for_backend}
use brigh_to_router.Route.Candidate.Eligible.{Serves, candidate_of, candidate_iff}
use brigh_to_router.Route.Candidate.Stable.{ask_stable}

abbrev pub backend : Backend
backend = record {
  id = 1;
  name = codes "b";
  base_url = codes "u";
  api_key_ref = [];
  api_key = none;
  weight = 1;
  max_inflight = 2;
  format = open_ai;
  enabled = true;
}

abbrev pub route : RoutingPolicy → ModelRoute
route policy = record {
  model_name = codes "m";
  backend_ids = 1 ∷ 2 ∷ [];
  fallback_backend_id = some 3;
  first_byte_timeout = 0;
  provider_model_name = codes "m";
  enabled = true;
  provider_key_ref = none;
  auth_mode = codes "bearer";
  protocol = codes "openai_chat";
  provider_key = none;
  routing_policy = policy;
  accept_anthropic_messages = true;
  endpoints =
      (
        2,
        record {
          backend_id = 2;
          provider_model_name = [];
          provider_key_ref = none;
          auth_mode = [];
          protocol = [];
          weight = 3;
          max_inflight = 0;
          enabled = true;
          provider_key = none;
        },
      )
      ∷ [];
}

abbrev pub state : Circuit → Bool → Option ℕ → ℕ → BackendState
state circuit probe until n = record {
  inflight = n;
  consecutive_failures = 0;
  circuit = circuit;
  half_open_probe = probe;
  opened_until = until;
  weight = 1;
  max_inflight = 2;
  enabled = true;
  base_url = none;
}

-- Backend 1 serves, backend 2 was opened until 50, and backend 3 has lost its probe.
abbrev pub pool : RamBackendPool
pool = record {
  states =
      (1, state closed true none 1)
      ∷ (2, state opened false (some 50) 0)
      ∷ (3, state half_open false (some 50) 0)
      ∷ [];
  open_duration = 30;
}

abbrev results : List (Bool × ℕ)
results = (false, 1) ∷ (false, 2) ∷ (true, 3) ∷ (false, 4) ∷ (false, 5) ∷ (false, 6) ∷ []

notes-circuit_example :
    ((notes 30 results (new_state backend)).circuit
      ≡ (if ltb (streak 0 results) 3 then closed else opened))
    × ((notes 30 results (new_state backend)).half_open_probe ≡ ltb (streak 0 results) 3)
notes-circuit_example = notes-circuit 30 results backend

abbrev probing : Candidate
probing = record { backend_id = 2; score = record { inflight = 0; weight = 3 }; half_open = true }

second : lookup 2 pool.states ≡ some (state opened false (some 50) 0)
unfolding lookup
second = refl

candidate_iff_example :
    ((candidate_for_backend pool (route round_robin) 2 default 60).1 ≡ some probing) ↔ (
      (contains default 2 ≡ false)
      × (endpoint_enabled (route round_robin) 2 ≡ true)
      × Serves (route round_robin) 60 2 (state opened false (some 50) 0)
      × (probing ≡ candidate_of (route round_robin) 2 (state opened false (some 50) 0)))
candidate_iff_example =
    candidate_iff pool (route round_robin) 2 default 60 (state opened false (some 50) 0) probing
      second

ask_stable_example :
    (candidate_for_backend
      (candidate_for_backend pool (route round_robin) 2 default 60).0
      (route round_robin)
      2
      default
      60).1
    ≡ (candidate_for_backend pool (route round_robin) 2 default 60).1
ask_stable_example = ask_stable (route round_robin) default 60 pool 2 2
