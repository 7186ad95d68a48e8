-- ===== src/Route/Candidate/Eligible.antt =====
-- Which backends are candidates.
use brigh_to_router.Prelude.{
  ℕ, zero, suc, ◌<◌, ◌≡◌, ◌↔◌, ◌⊎◌, refl, Bool, true, false, not, ◌&&◌, Option, none, some, ltb,
  leb, arith, Option-cases, inl, inr,
}
use brigh_to_router.Prelude.Eq.{ℕ_eq}
use brigh_to_router.Prelude.Maps.{lookup}
use brigh_to_router.Contract.Config.{ModelRoute, endpoint_enabled, endpoint_max_inflight}
use brigh_to_router.Route.Exclusions.{BackendExclusions, contains}
use brigh_to_router.Route.Pool.{RamBackendPool, BackendState, Circuit, closed, opened, half_open}
use brigh_to_router.Route.Candidate.{
  Candidate, expired, gate, is_full, effective_max, candidate_weight, candidate_if_room, consider,
  candidate_for_backend,
}

-- The circuit lets a request through: it is closed, or its time is up, or its probe is free.
abbrev pub Passes : BackendState → ℕ → Type 0
Passes s now =
    (s.circuit ≡ closed)
    ⊎ ((s.circuit ≡ opened) × (expired s.opened_until now ≡ true))
    ⊎ ((s.circuit ≡ half_open) × (s.half_open_probe ≡ true))

-- Below both limits; a limit of 0 is none.
abbrev pub Below : ℕ → ℕ → Type 0
Below inflight zero = Unit
Below inflight (suc m) = inflight < suc m

full_iff :
    (inflight m n : ℕ)
    → ((ltb 0 (effective_max m n) && leb (effective_max m n) inflight) ≡ false)
      ↔ (Below inflight m × Below inflight n)
unfolding effective_max
full_iff inflight zero zero = ground arith
full_iff inflight zero (suc n) = ground arith
full_iff inflight (suc m) zero = ground arith
full_iff inflight (suc m) (suc n) = ground arith

is_closed : Circuit → Bool
is_closed closed = true
is_closed _ = false

-- The candidate that stands for an eligible backend.
unfoldable pub candidate_of : ModelRoute → ℕ → BackendState → Candidate
unfolding is_closed
candidate_of route id s = record {
  backend_id = id;
  score = record { inflight = s.inflight; weight = candidate_weight route id s };
  half_open = not (is_closed s.circuit);
}

pub record Serves (route : ModelRoute) (now id : ℕ) (s : BackendState) : Type 0 where
  pub enabled : s.enabled ≡ true
  pub passes : Passes s now
  pub below_backend : Below s.inflight s.max_inflight
  pub below_endpoint : Below s.inflight (endpoint_max_inflight route id)

not_full_iff :
    (route : ModelRoute) (id : ℕ) (s : BackendState)
    → (is_full route id s ≡ false)
      ↔ (Below s.inflight s.max_inflight × Below s.inflight (endpoint_max_inflight route id))
unfolding is_full
not_full_iff route id s = full_iff s.inflight s.max_inflight (endpoint_max_inflight route id)

-- The half-open state has the same load and weights.
abbrev reopened : BackendState → BackendState
reopened s = record s { circuit = half_open; half_open_probe = true }

is_full-reopened :
    (route : ModelRoute) (id : ℕ) (s : BackendState)
    → is_full route id (reopened s) ≡ is_full route id s
unfolding is_full
is_full-reopened route id s = refl

weight-reopened :
    (route : ModelRoute) (id : ℕ) (s : BackendState)
    → candidate_weight route id (reopened s) ≡ candidate_weight route id s
unfolding candidate_weight
weight-reopened route id s = refl

consider-some :
    (route : ModelRoute) (now id : ℕ) (s : BackendState) (c : Candidate) (k : Circuit)
    → s.circuit ≡ k
    → (consider route now id s).1 ≡ some c
    → (s.enabled ≡ true)
      × Passes s now
      × (is_full route id s ≡ false)
      × (c ≡ candidate_of route id s)
unfolding consider candidate_of
consider-some route now id s c closed e h = (ground arith, inl e, ground arith, ground arith)
consider-some route now id s c opened e h = (
  ground arith,
  inr (inl (e, ground arith)),
  ground (arith, is_full-reopened route id s),
  ground (arith, is_full-reopened route id s, weight-reopened route id s),
)
consider-some route now id s c half_open e h =
    (ground arith, inr (inr (e, ground arith)), ground arith, ground arith)

pub some-consider :
    (route : ModelRoute) (now id : ℕ) (s : BackendState)
    → s.enabled ≡ true
    → Passes s now
    → is_full route id s ≡ false
    → (consider route now id s).1 ≡ some (candidate_of route id s)
unfolding consider candidate_of
some-consider route now id s en p full =
    ground (arith, is_full-reopened route id s, weight-reopened route id s)

-- A backend that the pool has, in the state `s`, is made a candidate exactly when the request has
-- not tried it, its endpoint and the backend are enabled, its circuit lets a request through and
-- neither limit is reached; the candidate has its load and weight, and says whether it is a
-- half-open probe.
pub candidate_iff :
    (p : RamBackendPool) (route : ModelRoute) (id : ℕ) (excluded : BackendExclusions) (now : ℕ)
    (s : BackendState) (c : Candidate)
    → lookup id p.states ≡ some s
    → ((candidate_for_backend p route id excluded now).1 ≡ some c) ↔ (
        (contains excluded id ≡ false)
        × (endpoint_enabled route id ≡ true)
        × Serves route now id s
        × (c ≡ candidate_of route id s))
unfolding candidate_for_backend
candidate_iff p route id excluded now s c e = (
  λ h.
      let gates : (contains excluded id ≡ false) × (endpoint_enabled route id ≡ true) =
        (ground arith, ground arith) in
      let chosen : (consider route now id s).1 ≡ some c = ground arith in
      let facts = consider-some route now id s c s.circuit refl chosen in
      let room = (not_full_iff route id s).0 facts.2 in
      (
        gates.0,
        gates.1,
        record {
          enabled = facts.0;
          passes = facts.1;
          below_backend = room.0;
          below_endpoint = room.1;
        },
        facts.3,
      ),
  λ h.
      let v = h.2 in
      let chosen =
        some-consider route now id s v.enabled v.passes
          ((not_full_iff route id s).1 (v.below_backend, v.below_endpoint)) in
      ground (arith, chosen, h.0, h.1, h.3),
)

-- A backend that the pool lacks is none.
pub candidate_missing :
    (p : RamBackendPool) (route : ModelRoute) (id : ℕ) (excluded : BackendExclusions) (now : ℕ)
    → lookup id p.states ≡ none
    → candidate_for_backend p route id excluded now ≡ (p, none)
unfolding candidate_for_backend
candidate_missing p route id excluded now e = ground arith

candidate_if_room-id :
    (route : ModelRoute) (id : ℕ) (p : BackendState × Option Bool) (c : Candidate)
    → (candidate_if_room route id p).1 ≡ some c
    → c.backend_id ≡ id
unfolding candidate_if_room
candidate_if_room-id route id (s, none) c e = cc
candidate_if_room-id route id (s, some h) c e = ground arith

consider-id :
    (route : ModelRoute) (now id : ℕ) (s : BackendState) (c : Candidate)
    → (consider route now id s).1 ≡ some c
    → c.backend_id ≡ id
unfolding consider
consider-id route now id s c e =
    ground (arith, candidate_if_room-id route id (gate s.circuit now s) c)

-- A candidate is for the backend that was asked.
pub candidate_id :
    (p : RamBackendPool) (route : ModelRoute) (id : ℕ) (excluded : BackendExclusions) (now : ℕ)
    (c : Candidate)
    → (candidate_for_backend p route id excluded now).1 ≡ some c
    → c.backend_id ≡ id
unfolding candidate_for_backend
candidate_id p route id excluded now c e = elim (Option-cases (lookup id p.states)) [
  | inl missing ↦ ground (arith, missing)
  | inr (s, found) ↦ ground (arith, found, consider-id route now id s c)
]
