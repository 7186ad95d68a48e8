-- ===== src/Route/Candidate.antt =====
-- `candidate_for_backend` of src/route/mod.rs: whether a backend may serve a request now. The call
-- changes the pool: an open circuit whose time has passed becomes half open.
pub mod Eligible
pub mod Stable
pub mod Stuck
use brigh_to_router.Prelude.{
  ℕ, zero, suc, Bool, true, false, not, ◌&&◌, ◌||◌, Option, none, some, List, [], ◌∷◌, ltb, leb,
  ◌==◌, if◌then◌else◌, min, max,
}
use brigh_to_router.Prelude.Eq.{ℕ_eq}
use brigh_to_router.Prelude.Maps.{Map, lookup, insert}
use brigh_to_router.Contract.Config.{
  ModelRoute, ModelEndpoint, if_enabled, endpoint_enabled, endpoint_max_inflight,
}
use brigh_to_router.Route.Exclusions.{BackendExclusions, contains}
use brigh_to_router.Route.Pool.{RamBackendPool, BackendState, Circuit, closed, opened, half_open}

-- `inflight as f64 / weight as f64`, by its two numbers.
pub record Score : Type 0 where
  pub inflight : ℕ
  pub weight : ℕ

pub record Candidate : Type 0 where
  pub backend_id : ℕ
  pub score : Score
  pub half_open : Bool

-- `opened_until` is past, or was never set.
unfoldable pub expired : Option ℕ → ℕ → Bool
expired none now = true
expired (some t) now = leb t now

-- The match on the circuit. The flag tells a half-open candidate.
gate : Circuit → ℕ → BackendState → BackendState × Option Bool
gate closed now s = (s, some false)
gate opened now s =
    if expired s.opened_until now
    then (record s { circuit = half_open; half_open_probe = true }, some true)
    else (s, none)
gate half_open now s = (s, if s.half_open_probe then some true else none)

-- 0 means no limit, on either side.
unfoldable pub effective_max : ℕ → ℕ → ℕ
effective_max zero x = x
effective_max (suc x) zero = suc x
effective_max (suc x) (suc y) = min (suc x) (suc y)

unfoldable pub is_full : ModelRoute → ℕ → BackendState → Bool
unfolding effective_max
is_full route id s =
    let m = effective_max s.max_inflight (endpoint_max_inflight route id) in
    ltb 0 m && leb m s.inflight

weight_or : Option ModelEndpoint → ℕ → ℕ
weight_or none w = max w 1
weight_or (some e) w = max e.weight 1

unfoldable pub candidate_weight : ModelRoute → ℕ → BackendState → ℕ
unfolding weight_or
candidate_weight route id s = weight_or (if_enabled (lookup id route.endpoints)) s.weight

candidate_if_room : ModelRoute → ℕ → BackendState × Option Bool → BackendState × Option Candidate
candidate_if_room route id (s, none) = (s, none)
candidate_if_room route id (s, some h) = if is_full route id s then (s, none) else (
  s,
  some (record {
    backend_id = id;
    score = record { inflight = s.inflight; weight = candidate_weight route id s };
    half_open = h;
  }),
)

-- What happens to the state of the backend.
unfoldable pub consider : ModelRoute → ℕ → ℕ → BackendState → BackendState × Option Candidate
unfolding gate candidate_if_room
consider route now id s =
    if s.enabled then candidate_if_room route id (gate s.circuit now s) else (s, none)

write_back :
    RamBackendPool → ℕ → BackendState × Option Candidate → RamBackendPool × Option Candidate
write_back p id (s, c) = (record p { states = insert id s p.states }, c)

consider_at :
    RamBackendPool → ModelRoute → ℕ → ℕ → Option BackendState → RamBackendPool × Option Candidate
unfolding write_back
consider_at p route now id none = (p, none)
consider_at p route now id (some s) = write_back p id (consider route now id s)

unfoldable pub candidate_for_backend :
    RamBackendPool → ModelRoute → ℕ → BackendExclusions → ℕ → RamBackendPool × Option Candidate
unfolding consider_at
candidate_for_backend p route id excluded now =
    if contains excluded id || not (endpoint_enabled route id)
    then (p, none)
    else consider_at p route now id (lookup id p.states)
