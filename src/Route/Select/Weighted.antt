-- ===== src/Route/Select/Weighted.antt =====
-- Weighted round robin: each candidate owns as many slots as its weight.
use brigh_to_router.Prelude.{
  ℕ, ◌+◌, ◌-◌, ◌%◌, ◌≤◌, ◌<◌, ◌≡◌, ◌∙◌, ap, refl, false, Option, none, some, List, [], ◌∷◌, ◌++◌,
  ltb, ◌==◌, if◌then◌else◌, arith, max, u64_mod,
}
use brigh_to_router.Prelude.Eq.{ℕ_eq}
use brigh_to_router.Prelude.Result.{ok}
use brigh_to_router.Contract.Config.{ModelRoute, endpoint_weight}
use brigh_to_router.Route.Exclusions.{BackendExclusions}
use brigh_to_router.Route.Pool.{RamBackendPool}
use brigh_to_router.Route.Candidate.{Candidate}
use brigh_to_router.Route.Candidate.Eligible.{candidate_id}
use brigh_to_router.Route.Select.{
  choose_weighted, weight_total, add_weight, slot_weight, slot_step, slot_pass, after_slot,
}
use brigh_to_router.Route.Select.Passes.{
  ask, collect, SameAnswers, asked_same, candidates, candidates_same, candidates_asked,
}

module _ (route : ModelRoute) (excluded : BackendExclusions) (now : ℕ) where
  abbrev pub weight_of : Candidate → ℕ
  weight_of c = slot_weight route excluded now c.backend_id

  unfoldable pub total : List Candidate → ℕ
  total [] = 0
  total (c ∷ cs) = weight_of c + total cs

  unfoldable pub pick : List Candidate → ℕ → Option Candidate
  pick [] slot = none
  pick (c ∷ cs) slot = if ltb slot (weight_of c) then some c else pick cs (slot - weight_of c)

  add_weight-collect :
      (c : Option Candidate) (id sum : ℕ) (cs : List Candidate)
      → ((x : Candidate) → c ≡ some x → x.backend_id ≡ id)
      → sum + total (collect c cs) < u64_mod
      → add_weight route excluded now c id sum + total cs ≡ sum + total (collect c cs)
  unfolding add_weight total
  add_weight-collect none id sum cs h fits = refl
  add_weight-collect (some c) id sum cs h fits = ground (arith, h c refl)

  weight_total-total :
      (ids : List ℕ) (sum : ℕ) (p : RamBackendPool)
      → sum + total (candidates route excluded now p ids) < u64_mod
      → (weight_total route excluded now ids sum p).1
        ≡ sum + total (candidates route excluded now p ids)
  unfolding weight_total candidates total
  weight_total-total [] sum p fits = omega arith
  weight_total-total (id ∷ ids) sum p fits =
      let same = ap total (candidates_asked route excluded now p id ids) in
      let added =
        add_weight-collect (ask route excluded now p id).1 id sum
          (candidates route excluded now p ids) (λ x e. candidate_id p route id excluded now x e)
          fits in
      ground (
        arith,
        same,
        added,
        weight_total-total ids
            (add_weight route excluded now (ask route excluded now p id).1 id sum)
            (ask route excluded now p id).0,
      )

  weight_total_same :
      (ids : List ℕ) (sum : ℕ) (p : RamBackendPool)
      → SameAnswers route excluded now (weight_total route excluded now ids sum p).0 p
  unfolding weight_total
  weight_total_same [] sum p j = refl
  weight_total_same (id ∷ ids) sum p j =
      weight_total_same ids (add_weight route excluded now (ask route excluded now p id).1 id sum)
        (ask route excluded now p id).0 j
      ∙ asked_same route excluded now p id j

  slot_step-pick :
      (c : Option Candidate) (cs : List Candidate) (id slot : ℕ) (p : RamBackendPool)
      (rest : ℕ → RamBackendPool × Option Candidate)
      → ((x : Candidate) → c ≡ some x → x.backend_id ≡ id)
      → ((s : ℕ) → (rest s).1 ≡ pick cs s)
      → (slot_step route excluded now c id slot p rest).1 ≡ pick (collect c cs) slot
  unfolding slot_step pick
  slot_step-pick none cs id slot p rest h k = k slot
  slot_step-pick (some c) cs id slot p rest h k =
      ground (arith, h c refl, k (slot - slot_weight route excluded now id))

  slot_pass-pick :
      (ids : List ℕ) (slot : ℕ) (p : RamBackendPool)
      → (slot_pass route excluded now ids slot p).1
        ≡ pick (candidates route excluded now p ids) slot
  unfolding slot_pass candidates pick
  slot_pass-pick [] slot p = refl
  slot_pass-pick (id ∷ ids) slot p =
      slot_step-pick (ask route excluded now p id).1 (candidates route excluded now p ids) id slot
        (ask route excluded now p id).0
        (λ s. slot_pass route excluded now ids s (ask route excluded now p id).0)
        (λ x e. candidate_id p route id excluded now x e)
        (λ s.
          slot_pass-pick ids s (ask route excluded now p id).0
          ∙ ap (λ cs. pick cs s) (candidates_asked route excluded now p id ids))

  pick-append :
      (xs : List Candidate) (c : Candidate) (ys : List Candidate) (slot : ℕ)
      → total xs ≤ slot
      → slot < total xs + weight_of c
      → pick (xs ++ c ∷ ys) slot ≡ some c
  unfolding pick total
  pick-append [] c ys slot lo hi = ground arith
  pick-append (x ∷ xs) c ys slot lo hi = ground (arith, pick-append xs c ys (slot - weight_of x))

  total-append :
      (xs : List Candidate) (c : Candidate) (ys : List Candidate)
      → total xs + weight_of c ≤ total (xs ++ c ∷ ys)
  unfolding total
  total-append [] c ys = omega arith
  total-append (x ∷ xs) c ys = omega (arith, total-append xs c ys)

  nonzero : (t w : ℕ) → max w 1 ≤ t → (t == 0) ≡ false
  nonzero t w h = ground arith

  -- Weighted round robin gives a candidate its slots: with the candidates in the order of the route
  -- and their weights (at least 1 each) laid end to end, whose sum T is below 2^64, the counter value
  -- k takes the candidate `c` exactly where k mod T falls into the slots of `c`, which start behind
  -- those of the candidates before it.
  pub choose_weighted-slot :
      (k : ℕ) (ids : List ℕ) (p : RamBackendPool) (xs : List Candidate) (c : Candidate)
      (ys : List Candidate)
      → candidates route excluded now p ids ≡ xs ++ c ∷ ys
      → total (xs ++ c ∷ ys) < u64_mod
      → total xs ≤ k % total (xs ++ c ∷ ys)
      → k % total (xs ++ c ∷ ys) < total xs + weight_of c
      → (choose_weighted route excluded now (ok k) ids p).1 ≡ ok (some c)
  unfolding choose_weighted after_slot
  choose_weighted-slot k ids p xs c ys e fits lo hi =
      let cs = xs ++ c ∷ ys in
      let sum : (weight_total route excluded now ids 0 p).1 ≡ total cs =
        ground (arith, ap total e, weight_total-total ids 0 p (ground (arith, ap total e))) in
      let some_left : (total cs == 0) ≡ false =
        nonzero (total cs) (endpoint_weight route c.backend_id)
          (omega (arith, total-append xs c ys)) in
      let q = (weight_total route excluded now ids 0 p).0 in
      let same = candidates_same route excluded now q p ids (weight_total_same ids 0 p) in
      rw (sum, some_left)
        (ap ok (
          slot_pass-pick ids (k % total cs) q
          ∙ ap (λ l. pick l (k % total cs)) (same ∙ e)
          ∙ pick-append xs c ys (k % total cs) lo hi))
