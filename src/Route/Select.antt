-- ===== src/Route/Select.antt =====
-- The choice among the candidates (src/route/mod.rs): round robin, weighted round robin, and the
-- least loaded. `draw` is what the model's counter returns if it is asked, `coin id ties` whether a
-- random draw below `ties` is 0 at that backend, and `Scores` is division and comparison of `f64`.
pub mod Passes
pub mod RoundRobin
pub mod Weighted
pub mod LeastLoaded
pub mod Source
pub mod Tests
use brigh_to_router.Prelude.{
  ℕ, ◌+◌, ◌-◌, ◌%◌, Bool, true, false, Option, none, some, List, [], ◌∷◌, ltb, ◌==◌, if◌then◌else◌,
  max, saturating_add,
}
use brigh_to_router.Prelude.Result.{Result, ok, err}
use brigh_to_router.Prelude.Text.{Text}
use brigh_to_router.Contract.Config.{ModelRoute, endpoint_weight}
use brigh_to_router.Contract.Policy.{
  RoutingPolicy, round_robin, weighted_round_robin, least_loaded_weighted,
}
use brigh_to_router.Route.Exclusions.{BackendExclusions}
use brigh_to_router.Route.Pool.{RamBackendPool}
use brigh_to_router.Route.Candidate.{Candidate, Score, candidate_for_backend}

-- `<` and `==` of two scores.
pub record Scores : Type 0 where
  pub lt : Score → Score → Bool
  pub eq : Score → Score → Bool

-- `AcquireError::CounterUnavailable`.
pub data AcquireError : Type 0 where
  counter_unavailable : Text → AcquireError

abbrev pub Choice : Type 0
Choice = RamBackendPool × Result (Option Candidate) AcquireError

abbrev one_if : Option Candidate → ℕ
one_if none = 0
one_if (some c) = 1

module _ (route : ModelRoute) (excluded : BackendExclusions) (now : ℕ) where
  abbrev try : RamBackendPool → ℕ → RamBackendPool × Option Candidate
  try p id = candidate_for_backend p route id excluded now

  -- `.filter(…).count()`.
  unfoldable pub count_pass : List ℕ → RamBackendPool → RamBackendPool × ℕ
  count_pass [] p = (p, 0)
  count_pass (id ∷ ids) p =
      let (p', c) = try p id in let (p'', n) = count_pass ids p' in (p'', one_if c + n)

  -- The loop that stops at the candidate number `selected`. The rest of it waits in `rest`.
  nth_step :
      Option Candidate
      → ℕ
      → ℕ
      → RamBackendPool
      → (ℕ → RamBackendPool × Option Candidate)
      → RamBackendPool × Option Candidate
  nth_step none seen selected p rest = rest seen
  nth_step (some c) seen selected p rest = if seen == selected then (p, some c) else rest (seen + 1)

  unfoldable pub nth_pass : List ℕ → ℕ → ℕ → RamBackendPool → RamBackendPool × Option Candidate
  unfolding nth_step
  nth_pass [] seen selected p = (p, none)
  nth_pass (id ∷ ids) seen selected p =
      let (p', c) = try p id in nth_step c seen selected p' (λ n. nth_pass ids n selected p')

  after_draw : List ℕ → RamBackendPool → ℕ → Result ℕ AcquireError → Choice
  after_draw ids p n (err e) = (p, err e)
  after_draw ids p n (ok k) = let (p', c) = nth_pass ids 0 (k % n) p in (p', ok c)

  unfoldable pub choose_round_robin : Result ℕ AcquireError → List ℕ → RamBackendPool → Choice
  unfolding after_draw
  choose_round_robin draw ids p =
      let (p', n) = count_pass ids p in if n == 0 then (p', ok none) else after_draw ids p' n draw

  -- `u64::from(route.endpoint_weight(id).max(1))`.
  abbrev pub slot_weight : ℕ → ℕ
  slot_weight id = max (endpoint_weight route id) 1

  add_weight : Option Candidate → ℕ → ℕ → ℕ
  add_weight none id sum = sum
  add_weight (some c) id sum = saturating_add sum (slot_weight id)

  pub weight_total : List ℕ → ℕ → RamBackendPool → RamBackendPool × ℕ
  unfolding add_weight
  weight_total [] sum p = (p, sum)
  weight_total (id ∷ ids) sum p =
      let (p', c) = try p id in weight_total ids (add_weight c id sum) p'

  slot_step :
      Option Candidate
      → ℕ
      → ℕ
      → RamBackendPool
      → (ℕ → RamBackendPool × Option Candidate)
      → RamBackendPool × Option Candidate
  slot_step none id slot p rest = rest slot
  slot_step (some c) id slot p rest =
      if ltb slot (slot_weight id) then (p, some c) else rest (slot - slot_weight id)

  pub slot_pass : List ℕ → ℕ → RamBackendPool → RamBackendPool × Option Candidate
  unfolding slot_step
  slot_pass [] slot p = (p, none)
  slot_pass (id ∷ ids) slot p =
      let (p', c) = try p id in slot_step c id slot p' (λ s. slot_pass ids s p')

  after_slot : List ℕ → RamBackendPool → ℕ → Result ℕ AcquireError → Choice
  after_slot ids p total (err e) = (p, err e)
  after_slot ids p total (ok k) = let (p', c) = slot_pass ids (k % total) p in (p', ok c)

  pub choose_weighted : Result ℕ AcquireError → List ℕ → RamBackendPool → Choice
  unfolding after_slot
  choose_weighted draw ids p =
      let (p', total) = weight_total ids 0 p in
      if total == 0 then (p', ok none) else after_slot ids p' total draw

  module _ (scores : Scores) (coin : ℕ → ℕ → Bool) where
    -- The best so far with the number of its ties, and the next candidate.
    keep_best : Option Candidate × ℕ → Option Candidate → Option Candidate × ℕ
    keep_best (best, ties) none = (best, ties)
    keep_best (none, ties) (some c) = (some c, 1)
    keep_best (some b, ties) (some c) =
        if scores.lt c.score b.score
        then (some c, 1)
        else if scores.eq c.score b.score
        then (if coin c.backend_id (ties + 1) then some c else some b, ties + 1)
        else (some b, ties)

    pub least_pass :
        List ℕ → Option Candidate × ℕ → RamBackendPool → RamBackendPool × Option Candidate
    unfolding keep_best
    least_pass [] best p = (p, best.0)
    least_pass (id ∷ ids) best p = let (p', c) = try p id in least_pass ids (keep_best best c) p'

    pub choose_least_loaded : List ℕ → RamBackendPool → RamBackendPool × Option Candidate
    choose_least_loaded ids p = least_pass ids (none, 0) p

    by_policy : RoutingPolicy → Result ℕ AcquireError → List ℕ → RamBackendPool → Choice
    by_policy round_robin draw ids p = choose_round_robin draw ids p
    by_policy weighted_round_robin draw ids p = choose_weighted draw ids p
    by_policy least_loaded_weighted draw ids p =
        let (p', c) = choose_least_loaded ids p in (p', ok c)

    unfoldable pub choose_candidate : Result ℕ AcquireError → List ℕ → RamBackendPool → Choice
    unfolding by_policy
    choose_candidate draw ids p = by_policy route.routing_policy draw ids p
