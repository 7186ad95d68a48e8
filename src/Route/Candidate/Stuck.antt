-- ===== src/Route/Candidate/Stuck.antt =====
-- A half-open backend whose probe is taken is no candidate.
use brigh_to_router.Prelude.{ℕ, ◌≡◌, false, none, some, arith}
use brigh_to_router.Prelude.Eq.{ℕ_eq}
use brigh_to_router.Prelude.Maps.{lookup}
use brigh_to_router.Contract.Config.{ModelRoute}
use brigh_to_router.Route.Exclusions.{BackendExclusions}
use brigh_to_router.Route.Pool.{RamBackendPool, BackendState, half_open}
use brigh_to_router.Route.Candidate.{
  gate, candidate_if_room, consider, consider_at, write_back, candidate_for_backend,
}

pub record Stuck (id : ℕ) (p : RamBackendPool) : Type 0 where
  pub state : BackendState
  pub found : lookup id p.states ≡ some state
  pub is_half_open : state.circuit ≡ half_open
  pub probe_taken : state.half_open_probe ≡ false

pub stuck-consider :
    (route : ModelRoute) (now id : ℕ) (s : BackendState)
    → s.circuit ≡ half_open
    → s.half_open_probe ≡ false
    → consider route now id s ≡ (s, none)
unfolding consider gate candidate_if_room
stuck-consider route now id s h q = ground arith

pub Stuck-candidate :
    (route : ModelRoute) (id : ℕ) (excluded : BackendExclusions) (now : ℕ) (p : RamBackendPool)
    → Stuck id p
    → (candidate_for_backend p route id excluded now).1 ≡ none
unfolding candidate_for_backend consider_at write_back
Stuck-candidate route id excluded now p h =
    let f = h.found in
    ground (arith, f, stuck-consider route now id h.state h.is_half_open h.probe_taken)
