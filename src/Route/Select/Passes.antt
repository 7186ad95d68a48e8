-- ===== src/Route/Select/Passes.antt =====
-- The passes over the backends see one and the same list of candidates.
use brigh_to_router.Prelude.{
  ℕ, suc, ◌+◌, ◌-◌, ◌≤◌, ◌≡◌, ◌∙◌, ap, refl, Option, none, some, List, [], ◌∷◌, length, get_elem?,
  ◌==◌, arith, Bool-cases, inl, inr,
}
use brigh_to_router.Contract.Config.{ModelRoute}
use brigh_to_router.Route.Exclusions.{BackendExclusions}
use brigh_to_router.Route.Pool.{RamBackendPool}
use brigh_to_router.Route.Candidate.{Candidate, candidate_for_backend}
use brigh_to_router.Route.Candidate.Stable.{ask_stable}
use brigh_to_router.Route.Select.{one_if, count_pass, nth_step, nth_pass}

abbrev pub collect : Option Candidate → List Candidate → List Candidate
collect none cs = cs
collect (some c) cs = c ∷ cs

module _ (route : ModelRoute) (excluded : BackendExclusions) (now : ℕ) where
  abbrev pub ask : RamBackendPool → ℕ → RamBackendPool × Option Candidate
  ask p id = candidate_for_backend p route id excluded now

  -- The candidates of a list of backends, in its order, each asked of the same pool.
  unfoldable pub candidates : RamBackendPool → List ℕ → List Candidate
  candidates p [] = []
  candidates p (id ∷ ids) = collect (ask p id).1 (candidates p ids)

  abbrev pub SameAnswers : RamBackendPool → RamBackendPool → Type 0
  SameAnswers p q = (j : ℕ) → (ask p j).1 ≡ (ask q j).1

  pub candidates_same :
      (p q : RamBackendPool) (ids : List ℕ) → SameAnswers p q → candidates p ids ≡ candidates q ids
  unfolding candidates
  candidates_same p q [] h = refl
  candidates_same p q (id ∷ ids) h = rw (h id, candidates_same p q ids h)

  pub asked_same : (p : RamBackendPool) (id : ℕ) → SameAnswers (ask p id).0 p
  asked_same p id j = ask_stable route excluded now p id j

  pub candidates_asked :
      (p : RamBackendPool) (id : ℕ) (ids : List ℕ) → candidates (ask p id).0 ids ≡ candidates p ids
  candidates_asked p id ids = candidates_same (ask p id).0 p ids (asked_same p id)

  length-collect :
      (c : Option Candidate) (cs : List Candidate) → length (collect c cs) ≡ one_if c + length cs
  length-collect none cs = omega arith
  length-collect (some c) cs = omega arith

  pub count_pass-length :
      (ids : List ℕ) (p : RamBackendPool)
      → (count_pass route excluded now ids p).1 ≡ length (candidates p ids)
  unfolding count_pass candidates
  count_pass-length [] p = refl
  count_pass-length (id ∷ ids) p = omega (
    arith,
    length-collect (ask p id).1 (candidates p ids),
    count_pass-length ids (ask p id).0,
    ap (λ (cs : List Candidate). length cs) (candidates_asked p id ids),
  )

  pub count_pass_same :
      (ids : List ℕ) (p : RamBackendPool) → SameAnswers (count_pass route excluded now ids p).0 p
  unfolding count_pass
  count_pass_same [] p j = refl
  count_pass_same (id ∷ ids) p j = count_pass_same ids (ask p id).0 j ∙ asked_same p id j

  nth_step-get :
      (c : Option Candidate) (cs : List Candidate) (seen selected : ℕ) (p : RamBackendPool)
      (rest : ℕ → RamBackendPool × Option Candidate)
      → seen ≤ selected
      → ((n : ℕ) → n ≤ selected → (rest n).1 ≡ get_elem? cs (selected - n))
      → (nth_step route excluded now c seen selected p rest).1
        ≡ get_elem? (collect c cs) (selected - seen)
  unfolding nth_step
  nth_step-get none cs seen selected p rest le h = h seen le
  nth_step-get (some c) cs seen selected p rest le h = elim (Bool-cases (seen == selected)) [
    | inl e ↦ let z : selected - seen ≡ 0 = ground (arith, e) in rw (e, z)
    | inr e ↦
        let z : selected - seen ≡ suc (selected - (seen + 1)) = ground (arith, e) in
        rw (e, z) (h (seen + 1) (ground (arith, e)))
  ]

  pub nth_pass-get :
      (ids : List ℕ) (seen selected : ℕ) (p : RamBackendPool)
      → seen ≤ selected
      → (nth_pass route excluded now ids seen selected p).1
        ≡ get_elem? (candidates p ids) (selected - seen)
  unfolding nth_pass candidates
  nth_pass-get [] seen selected p le = refl
  nth_pass-get (id ∷ ids) seen selected p le =
      nth_step-get (ask p id).1 (candidates p ids) seen selected (ask p id).0 _ le (λ n h.
        nth_pass-get ids n selected (ask p id).0 h
        ∙ ap (λ cs. get_elem? cs (selected - n)) (candidates_asked p id ids))
