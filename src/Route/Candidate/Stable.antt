-- ===== src/Route/Candidate/Stable.antt =====
-- Asking again gives the same answer: what one question changes in the pool does not matter to the
-- next, of any backend, at the same time.
use brigh_to_router.Prelude.{
  ℕ, ◌≡◌, ◌⊎◌, ap, refl, ◌∙◌, sym, Bool, true, not, ◌||◌, Option, none, some, ◌==◌, ==_iff,
  if◌then◌else◌, arith, Bool-cases, Option-cases, inl, inr,
}
use brigh_to_router.Prelude.Eq.{ℕ_eq}
use brigh_to_router.Prelude.Maps.{lookup, lookup-insert, map_option}
use brigh_to_router.Contract.Config.{ModelRoute, endpoint_enabled}
use brigh_to_router.Route.Exclusions.{BackendExclusions, contains}
use brigh_to_router.Route.Pool.{RamBackendPool, BackendState, opened, half_open}
use brigh_to_router.Route.Candidate.{
  Candidate, expired, is_full, candidate_weight, consider, candidate_for_backend,
}

-- The load and the settings that a question leaves alone, and what it may do to the circuit.
pub consider-state :
    (route : ModelRoute) (now id : ℕ) (s : BackendState)
    → ((consider route now id s).0 ≡ s)
      ⊎ ((s.circuit ≡ opened)
          × (expired s.opened_until now ≡ true)
          × ((consider route now id s).0
              ≡ record s { circuit = half_open; half_open_probe = true }))
unfolding consider
consider-state route now id s = ground arith

full_same :
    (route : ModelRoute) (id : ℕ) (s : BackendState)
    → (is_full route id (record s { circuit = half_open; half_open_probe = true })
        ≡ is_full route id s)
      × (candidate_weight route id (record s { circuit = half_open; half_open_probe = true })
          ≡ candidate_weight route id s)
unfolding is_full candidate_weight
full_same route id s = (refl, refl)

consider_twice :
    (route : ModelRoute) (now id : ℕ) (s : BackendState)
    → (consider route now id (consider route now id s).0).1 ≡ (consider route now id s).1
unfolding consider
consider_twice route now id s = ground (arith, full_same route id s)

same_lookup :
    (p : RamBackendPool) (i j : ℕ) → (i == j) ≡ true → lookup i p.states ≡ lookup j p.states
same_lookup p i j h = ap (λ k. lookup k p.states) ((==_iff i j).0 h)

module _ (route : ModelRoute) (excluded : BackendExclusions) (now : ℕ) where
  abbrev pub ask : RamBackendPool → ℕ → RamBackendPool × Option Candidate
  ask p id = candidate_for_backend p route id excluded now

  -- What a question does to the states.
  pub lookup-ask :
      (p : RamBackendPool) (i j : ℕ)
      → lookup j (ask p i).0.states ≡ (
          if i == j
          then (if contains excluded i || not (endpoint_enabled route i)
              then lookup j p.states
              else map_option (λ s. (consider route now i s).0) (lookup j p.states))
          else lookup j p.states)
  unfolding candidate_for_backend
  lookup-ask p i j = elim (Option-cases (lookup i p.states)) [
    | inl e ↦ ground (arith, e, same_lookup p i j)
    | inr (s, e) ↦ ground (
      arith,
      e,
      same_lookup p i j,
      lookup-insert i j (consider route now i s).0 p.states,
      ==_iff i j,
    )
  ]

  abbrev blocked : ℕ → Bool
  blocked i = contains excluded i || not (endpoint_enabled route i)

  abbrev answer : ℕ → Option BackendState → Option Candidate
  answer i none = none
  answer i (some s) = (consider route now i s).1

  ask-answer :
      (p : RamBackendPool) (i : ℕ)
      → (ask p i).1 ≡ (if blocked i then none else answer i (lookup i p.states))
  unfolding candidate_for_backend
  ask-answer p i = elim (Option-cases (lookup i p.states)) [
    | inl e ↦ ground (arith, e)
    | inr (s, e) ↦ ground (arith, e)
  ]

  answer_twice :
      (i : ℕ) (o : Option BackendState)
      → answer i (map_option (λ s. (consider route now i s).0) o) ≡ answer i o
  answer_twice i none = refl
  answer_twice i (some s) = consider_twice route now i s

  ask_stable_self : (p : RamBackendPool) (j : ℕ) → (ask (ask p j).0 j).1 ≡ (ask p j).1
  ask_stable_self p j = ground (
    arith,
    ask-answer (ask p j).0 j,
    ask-answer p j,
    lookup-ask p j j,
    ==_iff j j,
    answer_twice j (lookup j p.states),
  )

  -- What a question answers of any backend, it answers the same after any other question.
  pub ask_stable : (p : RamBackendPool) (i j : ℕ) → (ask (ask p i).0 j).1 ≡ (ask p j).1
  ask_stable p i j = elim (Bool-cases (i == j)) [
    | inl e ↦ rw ((==_iff i j).0 e) (ask_stable_self p j)
    | inr e ↦
        ask-answer (ask p i).0 j
        ∙ ap (λ o. if blocked j then none else answer j o) (rw e at (lookup-ask p i j))
        ∙ sym (ask-answer p j)
  ]
