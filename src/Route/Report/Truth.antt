-- ===== src/Route/Report/Truth.antt =====
-- What the report says is what keeps the backend from being a candidate.
use brigh_to_router.Prelude.{
  ℕ, ◌≡◌, refl, Bool, true, false, Option, none, some, ltb, arith, Option-cases, Bool-cases, inl,
  inr,
}
use brigh_to_router.Prelude.Eq.{ℕ_eq}
use brigh_to_router.Prelude.Maps.{lookup}
use brigh_to_router.Contract.Config.{ModelRoute}
use brigh_to_router.Route.Exclusions.{BackendExclusions, contains}
use brigh_to_router.Route.Pool.{RamBackendPool, BackendState, Circuit, closed, opened, half_open}
use brigh_to_router.Route.Candidate.{Candidate, candidate_for_backend, consider, is_full, expired}
use brigh_to_router.Route.Candidate.Eligible.{candidate_of, some-consider}
use brigh_to_router.Route.Report.{
  Reason, endpoint_disabled, not_loaded, provider_disabled, retry_window_ready, circuit_open,
  probe_available, probe_in_flight, eligible, full, remaining_ms, circuit_reason, state_reason,
  reason,
}

-- The reasons that stand in the way of a request.
unfoldable pub blocks : Reason → Bool
blocks endpoint_disabled = true
blocks not_loaded = true
blocks provider_disabled = true
blocks (circuit_open ms) = true
blocks probe_in_flight = true
blocks (full n m) = true
blocks retry_window_ready = false
blocks probe_available = false
blocks eligible = false

remaining-expired :
    (until : Option ℕ) (now : ℕ) → ltb 0 (remaining_ms until now) ≡ true → expired until now ≡ false
unfolding remaining_ms expired
remaining-expired none now h = ground arith
remaining-expired (some t) now h = ground arith

blocked_state :
    (route : ModelRoute) (now id : ℕ) (s : BackendState) (k : Circuit)
    → s.circuit ≡ k
    → s.enabled ≡ true
    → blocks (circuit_reason k route now id s) ≡ true
    → (consider route now id s).1 ≡ none
unfolding blocks circuit_reason consider is_full
blocked_state route now id s closed e en h = ground arith
blocked_state route now id s opened e en h = ground (arith, remaining-expired s.opened_until now)
blocked_state route now id s half_open e en h = ground arith

disabled_state :
    (route : ModelRoute) (now id : ℕ) (s : BackendState)
    → s.enabled ≡ false
    → (consider route now id s).1 ≡ none
unfolding consider
disabled_state route now id s e = ground arith

blocked_any :
    (route : ModelRoute) (now id : ℕ) (s : BackendState)
    → blocks (state_reason route now id (some s)) ≡ true
    → (consider route now id s).1 ≡ none
unfolding state_reason
blocked_any route now id s h = elim (Bool-cases s.enabled) [
  | inl en ↦ blocked_state route now id s s.circuit refl en (ground (arith, en))
  | inr dis ↦ disabled_state route now id s dis
]

-- A backend that the report calls disabled, not loaded, open with time left, probed or full is no
-- candidate at that time, for any request, whatever it has tried.
pub reason-candidate :
    (p : RamBackendPool) (route : ModelRoute) (now id : ℕ) (excluded : BackendExclusions)
    → blocks (reason p route now id) ≡ true
    → (candidate_for_backend p route id excluded now).1 ≡ none
unfolding reason candidate_for_backend
reason-candidate p route now id excluded h = elim (Option-cases (lookup id p.states)) [
  | inl e ↦ ground (arith, e)
  | inr (s, e) ↦ ground (arith, e, blocked_any route now id s)
]

eligible_state :
    (route : ModelRoute) (now id : ℕ) (s : BackendState) (k : Circuit)
    → s.circuit ≡ k
    → circuit_reason k route now id s ≡ eligible
    → (k ≡ closed) × (is_full route id s ≡ false)
unfolding circuit_reason is_full
eligible_state route now id s closed e h = (refl, ground arith)
eligible_state route now id s opened e h = ground arith
eligible_state route now id s half_open e h = ground arith

eligible_any :
    (route : ModelRoute) (now id : ℕ) (s : BackendState)
    → state_reason route now id (some s) ≡ eligible
    → (consider route now id s).1 ≡ some (candidate_of route id s)
unfolding state_reason
eligible_any route now id s h = elim (Bool-cases s.enabled) [
  | inl en ↦
      let (c, room) = eligible_state route now id s s.circuit refl (ground (arith, en)) in
      some-consider route now id s en (inl c) room
  | inr dis ↦ ground (arith, dis)
]

-- A backend that the report calls eligible is a candidate at that time for a request that has not
-- excluded it.
pub eligible-candidate :
    (p : RamBackendPool) (route : ModelRoute) (now id : ℕ) (excluded : BackendExclusions)
    → contains excluded id ≡ false
    → reason p route now id ≡ eligible
    → (c : Candidate) × ((candidate_for_backend p route id excluded now).1 ≡ some c)
unfolding reason candidate_for_backend
eligible-candidate p route now id excluded free h = elim (Option-cases (lookup id p.states)) [
  | inl e ↦ ground (arith, e)
  | inr (s, e) ↦ (candidate_of route id s, ground (arith, e, free, eligible_any route now id s))
]
