-- ===== src/Route/Select/Source.antt =====
-- Whatever the policy, the chosen backend is one of those asked and is not excluded.
use brigh_to_router.Prelude.{
  ℕ, ◌+◌, ◌-◌, ◌%◌, ◌≡◌, ◌⊎◌, Bool, true, false, Option, none, some, List, [], ◌∷◌, ltb, ◌==◌, max,
  arith, Bool-cases, inl, inr,
}
use brigh_to_router.Prelude.Result.{Result, ok, err}
use brigh_to_router.Contract.Config.{ModelRoute, endpoint_weight}
use brigh_to_router.Contract.Policy.{
  RoutingPolicy, round_robin, weighted_round_robin, least_loaded_weighted,
}
use brigh_to_router.Route.Exclusions.{BackendExclusions, contains, mem}
use brigh_to_router.Route.Pool.{RamBackendPool}
use brigh_to_router.Route.Candidate.{Candidate, candidate_for_backend}
use brigh_to_router.Route.Candidate.Eligible.{candidate_id}
use brigh_to_router.Route.Select.{
  AcquireError, Scores, count_pass, nth_pass, nth_step, after_draw, choose_round_robin,
  weight_total, slot_step, slot_pass, after_slot, choose_weighted, keep_best, least_pass,
  choose_least_loaded, by_policy, choose_candidate,
}
use brigh_to_router.Route.Select.Passes.{ask}

module _ (route : ModelRoute) (excluded : BackendExclusions) (now : ℕ) where
  pub record IsFrom (ids : List ℕ) (c : Candidate) : Type 0 where
    pub listed : mem ids c.backend_id ≡ true
    pub allowed : contains excluded c.backend_id ≡ false

  here :
      (id : ℕ) (ids : List ℕ) (c : Candidate)
      → c.backend_id ≡ id
      → contains excluded id ≡ false
      → IsFrom (id ∷ ids) c
  unfolding mem
  here id ids c e h = record { listed = ground (arith, e); allowed = rw e h }

  there : (id : ℕ) (ids : List ℕ) (c : Candidate) → IsFrom ids c → IsFrom (id ∷ ids) c
  unfolding mem
  there id ids c h = record { listed = let l = h.listed in ground (arith, l); allowed = h.allowed }

  ask-allowed :
      (p : RamBackendPool) (id : ℕ) (c : Candidate)
      → (ask route excluded now p id).1 ≡ some c
      → contains excluded id ≡ false
  unfolding candidate_for_backend
  ask-allowed p id c e = ground arith

  asked :
      (p : RamBackendPool) (id : ℕ) (ids : List ℕ) (c : Candidate)
      → (ask route excluded now p id).1 ≡ some c
      → IsFrom (id ∷ ids) c
  asked p id ids c e =
      here id ids c (candidate_id p route id excluded now c e) (ask-allowed p id c e)

  nth_step-from :
      (o : Option Candidate) (seen selected : ℕ) (p : RamBackendPool)
      (rest : ℕ → RamBackendPool × Option Candidate) (c : Candidate)
      → (nth_step route excluded now o seen selected p rest).1 ≡ some c
      → (o ≡ some c) ⊎ ((n : ℕ) × ((rest n).1 ≡ some c))
  unfolding nth_step
  nth_step-from none seen selected p rest c e = inr (seen, e)
  nth_step-from (some x) seen selected p rest c e = elim (Bool-cases (seen == selected)) [
    | inl h ↦ inl (rw h at e)
    | inr h ↦ inr (seen + 1, rw h at e)
  ]

  nth_pass-IsFrom :
      (ids : List ℕ) (seen selected : ℕ) (p : RamBackendPool) (c : Candidate)
      → (nth_pass route excluded now ids seen selected p).1 ≡ some c
      → IsFrom ids c
  unfolding nth_pass
  nth_pass-IsFrom [] seen selected p c e = ground arith
  nth_pass-IsFrom (id ∷ ids) seen selected p c e =
      elim (nth_step-from (ask route excluded now p id).1 seen selected
        (ask route excluded now p id).0 _ c e) [
          | inl h ↦ asked p id ids c h
          | inr (n, h) ↦ there id ids c (nth_pass-IsFrom ids n selected _ c h)
        ]

  slot_step-from :
      (o : Option Candidate) (id slot : ℕ) (p : RamBackendPool)
      (rest : ℕ → RamBackendPool × Option Candidate) (c : Candidate)
      → (slot_step route excluded now o id slot p rest).1 ≡ some c
      → (o ≡ some c) ⊎ ((n : ℕ) × ((rest n).1 ≡ some c))
  unfolding slot_step
  slot_step-from none id slot p rest c e = inr (slot, e)
  slot_step-from (some x) id slot p rest c e =
      elim (Bool-cases (ltb slot (max (endpoint_weight route id) 1))) [
        | inl h ↦ inl (rw h at e)
        | inr h ↦ inr (slot - max (endpoint_weight route id) 1, rw h at e)
      ]

  slot_pass-IsFrom :
      (ids : List ℕ) (slot : ℕ) (p : RamBackendPool) (c : Candidate)
      → (slot_pass route excluded now ids slot p).1 ≡ some c
      → IsFrom ids c
  unfolding slot_pass
  slot_pass-IsFrom [] slot p c e = ground arith
  slot_pass-IsFrom (id ∷ ids) slot p c e =
      elim (slot_step-from (ask route excluded now p id).1 id slot (ask route excluded now p id).0 _
        c e) [
          | inl h ↦ asked p id ids c h
          | inr (n, h) ↦ there id ids c (slot_pass-IsFrom ids n _ c h)
        ]

  choose_round_robin-IsFrom :
      (draw : Result ℕ AcquireError) (ids : List ℕ) (p : RamBackendPool) (c : Candidate)
      → (choose_round_robin route excluded now draw ids p).1 ≡ ok (some c)
      → IsFrom ids c
  unfolding choose_round_robin after_draw
  choose_round_robin-IsFrom (err x) ids p c e = ground arith
  choose_round_robin-IsFrom (ok k) ids p c e =
      let r = count_pass route excluded now ids p in
      ground (arith, nth_pass-IsFrom ids 0 (k % r.1) r.0 c)

  choose_weighted-IsFrom :
      (draw : Result ℕ AcquireError) (ids : List ℕ) (p : RamBackendPool) (c : Candidate)
      → (choose_weighted route excluded now draw ids p).1 ≡ ok (some c)
      → IsFrom ids c
  unfolding choose_weighted after_slot
  choose_weighted-IsFrom (err x) ids p c e = ground arith
  choose_weighted-IsFrom (ok k) ids p c e =
      let r = weight_total route excluded now ids 0 p in
      ground (arith, slot_pass-IsFrom ids (k % r.1) r.0 c)

  module _ (scores : Scores) (coin : ℕ → ℕ → Bool) where
    keep_best-from :
        (best : Option Candidate) (ties : ℕ) (o : Option Candidate) (c : Candidate)
        → (keep_best route excluded now scores coin (best, ties) o).0 ≡ some c
        → (best ≡ some c) ⊎ (o ≡ some c)
    unfolding keep_best
    keep_best-from best ties none c e = inl e
    keep_best-from none ties (some x) c e = inr e
    keep_best-from (some b) ties (some x) c e = ground arith

    least_pass-IsFrom :
        (ids : List ℕ) (best : Option Candidate × ℕ) (p : RamBackendPool) (c : Candidate)
        → (least_pass route excluded now scores coin ids best p).1 ≡ some c
        → (best.0 ≡ some c) ⊎ IsFrom ids c
    unfolding least_pass
    least_pass-IsFrom [] best p c e = inl e
    least_pass-IsFrom (id ∷ ids) best p c e = elim (least_pass-IsFrom ids _ _ c e) [
      | inl h ↦ elim (keep_best-from best.0 best.1 (ask route excluded now p id).1 c h) [
        | inl b ↦ inl b
        | inr o ↦ inr (asked p id ids c o)
      ]
      | inr h ↦ inr (there id ids c h)
    ]

    by_policy-IsFrom :
        (policy : RoutingPolicy) (draw : Result ℕ AcquireError) (ids : List ℕ) (p : RamBackendPool)
        (c : Candidate)
        → (by_policy route excluded now scores coin policy draw ids p).1 ≡ ok (some c)
        → IsFrom ids c
    unfolding by_policy choose_least_loaded
    by_policy-IsFrom round_robin draw ids p c e = choose_round_robin-IsFrom draw ids p c e
    by_policy-IsFrom weighted_round_robin draw ids p c e = choose_weighted-IsFrom draw ids p c e
    by_policy-IsFrom least_loaded_weighted draw ids p c e =
        elim (least_pass-IsFrom ids (none, 0) p c (cc)) [ inl h ↦ ground arith | inr h ↦ h ]

    pub choose_candidate-IsFrom :
        (draw : Result ℕ AcquireError) (ids : List ℕ) (p : RamBackendPool) (c : Candidate)
        → (choose_candidate route excluded now scores coin draw ids p).1 ≡ ok (some c)
        → IsFrom ids c
    unfolding choose_candidate
    choose_candidate-IsFrom draw ids p c e = by_policy-IsFrom route.routing_policy draw ids p c e
