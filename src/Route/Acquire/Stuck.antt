-- ===== src/Route/Acquire/Stuck.antt =====
-- A half-open backend whose probe is lost: only a result noted for it, or its removal from the
-- configuration, brings it back.
use brigh_to_router.Prelude.{
  ℕ, ◌-◌, ◌≡◌, ap, ◌∙◌, Bool, false, not, ◌||◌, Option, none, some, List, [], ◌∷◌, ◌==◌, ==_iff,
  if◌then◌else◌, arith, Option-cases, Bool-cases, inl, inr,
}
use brigh_to_router.Prelude.Eq.{ℕ_eq}
use brigh_to_router.Prelude.Maps.{Map, lookup, lookup-insert, lookup-modify, map_option, insert}
use brigh_to_router.Contract.Config.{Backend, ModelRoute, endpoint_enabled}
use brigh_to_router.Route.Exclusions.{BackendExclusions, contains}
use brigh_to_router.Route.Pool.{
  RamBackendPool, BackendState, half_open, note_result, note, upsert_backend, is_missing,
  sync_backends,
}
use brigh_to_router.Route.Candidate.{Candidate, consider, candidate_for_backend}
use brigh_to_router.Route.Candidate.Stuck.{Stuck, stuck-consider, Stuck-candidate}
use brigh_to_router.Route.Pool.Configure.{upsert_keeps, sync_keeps}
use brigh_to_router.Route.Candidate.Stable.{lookup-ask}
use brigh_to_router.Route.Acquire.Lease.{lookup-drop}
use brigh_to_router.Route.Acquire.{claim, reserve_slot, drop}

-- What happens to the pool: a backend is considered for a request, claimed by one, given back by a
-- dropped lease, reports a result, or is configured; or a whole configuration is applied.
pub data Event : Type 0 where
  considered : ModelRoute → ℕ → BackendExclusions → ℕ → Event
  claimed : ModelRoute → Candidate → Event
  dropped : ℕ → Event
  noted : ℕ → Bool → ℕ → Event
  configured : Backend → Event
  synced : Map ℕ Backend → Event

claim_in : ModelRoute → Candidate → Option BackendState → RamBackendPool → RamBackendPool
claim_in route c none p = p
claim_in route c (some s) p = record p { states = insert c.backend_id (claim route c s).0 p.states }

pub apply : Event → RamBackendPool → RamBackendPool
unfolding claim_in
apply (considered route id excluded now) p = (candidate_for_backend p route id excluded now).0
apply (claimed route c) p = claim_in route c (lookup c.backend_id p.states) p
apply (dropped id) p = drop id p
apply (noted id ok now) p = note_result p id ok now
apply (configured b) p = upsert_backend p b
apply (synced snapshot) p = sync_backends p snapshot

pub apply_all : List Event → RamBackendPool → RamBackendPool
apply_all [] p = p
apply_all (ev ∷ evs) p = apply_all evs (apply ev p)

-- What can bring a backend back: a result noted for it, and a configuration that does not list it,
-- after which another one may list it anew.
unfoldable pub may_revive : ℕ → Event → Bool
may_revive id (noted j ok now) = j == id
may_revive id (synced snapshot) = is_missing (lookup id snapshot)
may_revive id _ = false

unfoldable pub any_may_revive : ℕ → List Event → Bool
any_may_revive id [] = false
any_may_revive id (ev ∷ evs) = may_revive id ev || any_may_revive id evs

stuck-claim :
    (route : ModelRoute) (c : Candidate) (s : BackendState)
    → s.circuit ≡ half_open
    → s.half_open_probe ≡ false
    → ((claim route c s).0.circuit ≡ half_open) × ((claim route c s).0.half_open_probe ≡ false)
unfolding claim reserve_slot
stuck-claim route c s h q = ground arith

kept :
    (id j : ℕ) (f : BackendState → BackendState) (p q : RamBackendPool)
    → lookup id q.states
      ≡ (if j == id then map_option f (lookup id p.states) else lookup id p.states)
    → ((s : BackendState)
        → s.circuit ≡ half_open
        → s.half_open_probe ≡ false
        → ((f s).circuit ≡ half_open) × ((f s).half_open_probe ≡ false))
    → Stuck id p
    → Stuck id q
kept id j f p q e k h = elim (Bool-cases (j == id)) [
  | inl same ↦
      let (c, pr) = k h.state h.is_half_open h.probe_taken in
      let found = h.found in
      record {
        state = f h.state;
        found = ground (arith, e, same, found);
        is_half_open = c;
        probe_taken = pr;
      }
  | inr other ↦
      let found = h.found in
      record {
        state = h.state;
        found = ground (arith, e, other, found);
        is_half_open = h.is_half_open;
        probe_taken = h.probe_taken;
      }
]

Stuck-claimed :
    (id : ℕ) (route : ModelRoute) (c : Candidate) (p : RamBackendPool)
    → Stuck id p
    → Stuck id (apply (claimed route c) p)
unfolding apply
Stuck-claimed id route c p h = elim (Option-cases (lookup c.backend_id p.states)) [
  | inl missing ↦ rw missing h
  | inr (s, found) ↦ rw found (
      kept id c.backend_id (λ s. (claim route c s).0) p _
        (ground (
          arith,
          found,
          lookup-insert c.backend_id id (claim route c s).0 p.states,
          ==_iff c.backend_id id,
        ))
        (stuck-claim route c) h)
]

Stuck-considered :
    (id j : ℕ) (route : ModelRoute) (excluded : BackendExclusions) (now : ℕ) (p : RamBackendPool)
    → Stuck id p
    → Stuck id (candidate_for_backend p route j excluded now).0
Stuck-considered id j route excluded now p h =
    let blocked = contains excluded j || not (endpoint_enabled route j) in
    elim (Bool-cases blocked) [
      | inl stopped ↦
          kept id j (λ s. s) p _
            (let found = h.found in
              ground (arith, stopped, found, lookup-ask route excluded now p j id))
            (λ s c q. (c, q)) h
      | inr asked ↦
          kept id j (λ s. (consider route now j s).0) p _
            (ground (arith, asked, lookup-ask route excluded now p j id))
            (λ s c q.
              let e = ap (λ r. r.0) (stuck-consider route now j s c q) in
              (ap (λ s. s.circuit) e ∙ c, ap (λ s. s.half_open_probe) e ∙ q))
            h
    ]

lookup-note_result :
    (p : RamBackendPool) (j id : ℕ) (ok : Bool) (now : ℕ)
    → lookup id (note_result p j ok now).states ≡ (
        if j == id
        then map_option (note ok now p.open_duration) (lookup id p.states)
        else lookup id p.states)
unfolding note_result
lookup-note_result p j id ok now = lookup-modify j id (note ok now p.open_duration) p.states

Stuck-apply :
    (id : ℕ) (ev : Event) (p : RamBackendPool)
    → may_revive id ev ≡ false
    → Stuck id p
    → Stuck id (apply ev p)
unfolding apply may_revive
Stuck-apply id (considered route j excluded now) p e h =
    Stuck-considered id j route excluded now p h
Stuck-apply id (claimed route c) p e h = Stuck-claimed id route c p h
Stuck-apply id (dropped j) p e h =
    kept id j (λ s. record s { inflight = s.inflight - 1 }) p _ (lookup-drop p j id)
      (λ s c q. (c, q)) h
Stuck-apply id (noted j ok now) p e h =
    let found = h.found in
    record {
      state = h.state;
      found = ground (arith, e, found, lookup-note_result p j id ok now);
      is_half_open = h.is_half_open;
      probe_taken = h.probe_taken;
    }
Stuck-apply id (configured b) p e h =
    let (t, found, c, q, i) = upsert_keeps p b id h.state h.found in
    record {
      state = t;
      found = found;
      is_half_open = c ∙ h.is_half_open;
      probe_taken = q ∙ h.probe_taken;
    }
Stuck-apply id (synced snapshot) p e h =
    let (t, found, c, q) = sync_keeps p snapshot id h.state e h.found in
    record {
      state = t;
      found = found;
      is_half_open = c ∙ h.is_half_open;
      probe_taken = q ∙ h.probe_taken;
    }

Stuck-apply_all :
    (id : ℕ) (evs : List Event) (p : RamBackendPool)
    → any_may_revive id evs ≡ false
    → Stuck id p
    → Stuck id (apply_all evs p)
unfolding apply_all any_may_revive
Stuck-apply_all id [] p e h = h
Stuck-apply_all id (ev ∷ evs) p e h =
    Stuck-apply_all id evs (apply ev p) (ground arith) (Stuck-apply id ev p (ground arith) h)

-- A lost probe is not found again: once a backend is half open with its probe taken, no sequence of
-- events in which no result is noted for it, and in which every whole configuration that is applied
-- lists it (choices, claims, dropped leases, its own included, results of other backends, changes of
-- its own settings), makes it a candidate again, for any request at any time.
pub Stuck-stays :
    (id : ℕ) (evs : List Event) (p : RamBackendPool) (route : ModelRoute)
    (excluded : BackendExclusions) (now : ℕ)
    → Stuck id p
    → any_may_revive id evs ≡ false
    → (candidate_for_backend (apply_all evs p) route id excluded now).1 ≡ none
Stuck-stays id evs p route excluded now h e =
    Stuck-candidate route id excluded now (apply_all evs p) (Stuck-apply_all id evs p e h)
