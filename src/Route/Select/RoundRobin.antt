-- ===== src/Route/Select/RoundRobin.antt =====
-- Round robin: the counter walks through the candidates.
use brigh_to_router.Prelude.{
  ℕ, zero, suc, ◌-◌, ◌%◌, ◌<◌, ◌≡◌, ◌≢◌, ◌∙◌, ap, sym, refl, true, false, Option, none, some, List,
  [], ◌∷◌, length, get_elem?, ◌==◌, arith, Bool-cases, inl, inr,
}
use brigh_to_router.Prelude.Result.{Result, ok, err}
use brigh_to_router.Contract.Config.{ModelRoute}
use brigh_to_router.Route.Exclusions.{BackendExclusions}
use brigh_to_router.Route.Pool.{RamBackendPool}
use brigh_to_router.Route.Candidate.{Candidate}
use brigh_to_router.Route.Select.{AcquireError, choose_round_robin, after_draw, count_pass}
use brigh_to_router.Route.Select.Passes.{
  candidates, candidates_same, count_pass-length, count_pass_same, nth_pass-get,
}

-- The candidate at the draw, modulo their number; no draw is made where there is none.
abbrev pub rotation :
    Result ℕ AcquireError → List Candidate → Result (Option Candidate) AcquireError
rotation draw [] = ok none
rotation (err e) (c ∷ cs) = err e
rotation (ok k) (c ∷ cs) = ok (get_elem? (c ∷ cs) (k % length (c ∷ cs)))

get_elem?-some :
    {A : Type 0} (xs : List A) (i : ℕ) → i < length xs → (x : A) × (get_elem? xs i ≡ some x)
get_elem?-some [] i h = elim h [ ]
get_elem?-some (x ∷ xs) zero h = (x, refl)
get_elem?-some (x ∷ xs) (suc i) h = get_elem?-some xs i (omega arith)

rotation-nonempty :
    (draw : Result ℕ AcquireError) (cs : List Candidate) (n : ℕ)
    → n ≡ length cs
    → (n == 0) ≡ true
    → rotation draw cs ≡ ok none
rotation-nonempty draw [] n e h = refl
rotation-nonempty draw (c ∷ cs) n e h = absurd (ground (arith, e, h))

rotation-draw :
    (k : ℕ) (cs : List Candidate)
    → (length cs == 0) ≡ false
    → rotation (ok k) cs ≡ ok (get_elem? cs (k % length cs))
rotation-draw k [] h = cc
rotation-draw k (c ∷ cs) h = refl

rotation-err :
    (e : AcquireError) (cs : List Candidate)
    → (length cs == 0) ≡ false
    → rotation (err e) cs ≡ err e
rotation-err e [] h = cc
rotation-err e (c ∷ cs) h = refl

rotation-some :
    (k : ℕ) (cs : List Candidate) → cs ≢ [] → (c : Candidate) × (rotation (ok k) cs ≡ ok (some c))
rotation-some k [] h = absurd (h refl)
rotation-some k (c ∷ cs) h =
    let (x, e) = get_elem?-some (c ∷ cs) (k % length (c ∷ cs)) (omega arith) in (x, ap ok e)

module _ (route : ModelRoute) (excluded : BackendExclusions) (now : ℕ) where
  after_draw-rotation :
      (draw : Result ℕ AcquireError) (ids : List ℕ) (p : RamBackendPool) (cs : List Candidate)
      → candidates route excluded now p ids ≡ cs
      → (length cs == 0) ≡ false
      → (after_draw route excluded now ids p (length cs) draw).1 ≡ rotation draw cs
  unfolding after_draw
  after_draw-rotation (err e) ids p cs same h = sym (rotation-err e cs h)
  after_draw-rotation (ok k) ids p cs same h =
      ap ok (
        nth_pass-get route excluded now ids 0 (k % length cs) p (omega arith)
        ∙ ap (λ l. get_elem? l (k % length cs - 0)) same
        ∙ ap (λ i. get_elem? cs i) (omega arith))
      ∙ sym (rotation-draw k cs h)

  -- Round robin takes, of the candidates in the order of the route, the one at the counter's value
  -- modulo their number, although it asks every backend twice and asking changes the pool.
  pub choose_round_robin-rotation :
      (draw : Result ℕ AcquireError) (ids : List ℕ) (p : RamBackendPool)
      → (choose_round_robin route excluded now draw ids p).1
        ≡ rotation draw (candidates route excluded now p ids)
  unfolding choose_round_robin
  choose_round_robin-rotation draw ids p =
      let cs = candidates route excluded now p ids in
      let n = count_pass-length route excluded now ids p in
      elim (Bool-cases ((count_pass route excluded now ids p).1 == 0)) [
        | inl none_left ↦ rw none_left (sym (rotation-nonempty draw cs _ n none_left))
        | inr some_left ↦
            rw (some_left, n)
              (after_draw-rotation draw ids (count_pass route excluded now ids p).0 cs
                (candidates_same route excluded now _ p ids
                  (count_pass_same route excluded now ids p))
                (rw n at some_left))
      ]

  -- Round robin finds a candidate whenever there is one and the counter answers.
  pub choose_round_robin-some :
      (k : ℕ) (ids : List ℕ) (p : RamBackendPool)
      → candidates route excluded now p ids ≢ []
      → (c : Candidate) × ((choose_round_robin route excluded now (ok k) ids p).1 ≡ ok (some c))
  choose_round_robin-some k ids p h =
      let (c, e) = rotation-some k (candidates route excluded now p ids) h in
      (c, choose_round_robin-rotation (ok k) ids p ∙ e)
