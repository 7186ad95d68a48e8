-- ===== src/Route/Select/LeastLoaded.antt =====
-- Least loaded: the best score of all the candidates, for an order of the scores.
use brigh_to_router.Prelude.{
  ℕ, ◌+◌, ◌≡◌, ◌∙◌, ◌⊎◌, inl, inr, ap, sym, subst, refl, Bool, true, false, Option, none, some,
  List, [], ◌∷◌, All, arith, Bool-cases,
}
use brigh_to_router.Contract.Config.{ModelRoute}
use brigh_to_router.Route.Exclusions.{BackendExclusions}
use brigh_to_router.Route.Pool.{RamBackendPool}
use brigh_to_router.Route.Candidate.{Candidate, Score}
use brigh_to_router.Route.Select.{Scores, keep_best, least_pass, choose_least_loaded}
use brigh_to_router.Route.Select.Passes.{ask, collect, candidates, candidates_asked}

-- Scores in a linear order, as finite numbers are.
pub record Ordered (scores : Scores) : Type 0 where
  pub irrefl : (a : Score) → scores.lt a a ≡ false
  pub asym : (a b : Score) → scores.lt a b ≡ true → scores.lt b a ≡ false
  pub not_below :
      (a b c : Score) → scores.lt b a ≡ false → scores.lt c b ≡ false → scores.lt c a ≡ false
  pub eq_not_below : (a b : Score) → scores.eq a b ≡ true → scores.lt b a ≡ false

abbrev pub Among : Candidate → List Candidate → Type 0
Among r [] = ⊥
Among r (x ∷ xs) = (x ≡ r) ⊎ Among r xs

-- A best of the candidates: one of them, and none of them has a lower score; none of none.
abbrev pub IsBest : Scores → List Candidate → Option Candidate → Type 0
IsBest scores cs none = cs ≡ []
IsBest scores cs (some r) = Among r cs × All (λ x. scores.lt x.score r.score ≡ false) cs

module _ (route : ModelRoute) (excluded : BackendExclusions) (now : ℕ) (scores : Scores)
    (coin : ℕ → ℕ → Bool) where
  fold_best : List Candidate → Option Candidate × ℕ → Option Candidate × ℕ
  fold_best [] acc = acc
  fold_best (c ∷ cs) acc = fold_best cs (keep_best route excluded now scores coin acc (some c))

  keep-collect :
      (o : Option Candidate) (cs : List Candidate) (acc : Option Candidate × ℕ)
      → fold_best cs (keep_best route excluded now scores coin acc o) ≡ fold_best (collect o cs) acc
  unfolding fold_best keep_best
  keep-collect none cs acc = refl
  keep-collect (some c) cs acc = refl

  least_pass-fold :
      (ids : List ℕ) (acc : Option Candidate × ℕ) (p : RamBackendPool)
      → (least_pass route excluded now scores coin ids acc p).1
        ≡ (fold_best (candidates route excluded now p ids) acc).0
  unfolding least_pass fold_best candidates
  least_pass-fold [] acc p = refl
  least_pass-fold (id ∷ ids) acc p =
      let o = (ask route excluded now p id).1 in
      least_pass-fold ids (keep_best route excluded now scores coin acc o)
        (ask route excluded now p id).0
      ∙ ap (λ cs. (fold_best cs (keep_best route excluded now scores coin acc o)).0)
          (candidates_asked route excluded now p id ids)
      ∙ ap (λ r. r.0) (keep-collect o (candidates route excluded now p ids) acc)

  module _ (order : Ordered scores) where
    abbrev Kept : Candidate → List Candidate → Option Candidate → Type 0
    Kept b cs none = ⊥
    Kept b cs (some r) =
        ((b ≡ r) ⊎ Among r cs)
        × (scores.lt b.score r.score ≡ false)
        × All (λ x. scores.lt x.score r.score ≡ false) cs

    -- The best so far passes to `d`, not above both.
    pass_on :
        (b c d : Candidate) (cs : List Candidate) (o : Option Candidate)
        → (d ≡ b) ⊎ (d ≡ c)
        → scores.lt b.score d.score ≡ false
        → scores.lt c.score d.score ≡ false
        → Kept d cs o
        → Kept b (c ∷ cs) o
    pass_on b c d cs none which hb hc k = k
    pass_on b c d cs (some r) which hb hc (from, low, rest) = (
      ground (arith, from, which),
      order.not_below r.score d.score b.score low hb,
      (order.not_below r.score d.score c.score low hc, rest),
    )

    keep_step :
        (b c : Candidate) (ties : ℕ)
        → (d : Candidate) × (n : ℕ) × (keep_best route excluded now scores coin
              (some b, ties)
              (some c)
            ≡ (some d, n))
          × ((d ≡ b) ⊎ (d ≡ c))
          × (scores.lt b.score d.score ≡ false)
          × (scores.lt c.score d.score ≡ false)
    unfolding keep_best
    keep_step b c ties = elim (Bool-cases (scores.lt c.score b.score)) [
      | inl less ↦ (
        c,
        1,
        ground (arith, less),
        inr refl,
        order.asym c.score b.score less,
        order.irrefl c.score,
      )
      | inr more ↦ elim (Bool-cases (scores.eq c.score b.score)) [
        | inl same ↦ elim (Bool-cases (coin c.backend_id (ties + 1))) [
          | inl heads ↦ (
            c,
            ties + 1,
            ground (arith, more, same, heads),
            inr refl,
            order.eq_not_below c.score b.score same,
            order.irrefl c.score,
          )
          | inr tails ↦
              (b, ties + 1, ground (arith, more, same, tails), inl refl, order.irrefl b.score, more)
        ]
        | inr other ↦ (b, ties, ground (arith, more, other), inl refl, order.irrefl b.score, more)
      ]
    ]

    fold_best-Kept :
        (b : Candidate) (ties : ℕ) (cs : List Candidate) → Kept b cs (fold_best cs (some b, ties)).0
    unfolding fold_best
    fold_best-Kept b ties [] = (inl refl, order.irrefl b.score, tt)
    fold_best-Kept b ties (c ∷ cs) =
        let (d, n, e, which, hb, hc) = keep_step b c ties in
        subst (λ acc. Kept b (c ∷ cs) (fold_best cs acc).0) (sym e)
          (pass_on b c d cs (fold_best cs (some d, n)).0 which hb hc (fold_best-Kept d n cs))

    IsBest-of :
        (b : Candidate) (cs : List Candidate) (o : Option Candidate)
        → Kept b cs o
        → IsBest scores (b ∷ cs) o
    IsBest-of b cs none k = absurd k
    IsBest-of b cs (some r) (from, low, rest) = (from, (low, rest))

    fold_best-IsBest : (cs : List Candidate) → IsBest scores cs (fold_best cs (none, 0)).0
    unfolding fold_best keep_best
    fold_best-IsBest [] = refl
    fold_best-IsBest (c ∷ cs) = IsBest-of c cs _ (fold_best-Kept c 1 cs)

    -- Least loaded chooses one of the candidates of which none has a lower score, whatever the random
    -- draws between equal ones are, and nothing only if there is no candidate, for scores in a
    -- linear order.
    pub choose_least_loaded-IsBest :
        (ids : List ℕ) (p : RamBackendPool)
        → IsBest scores
            (candidates route excluded now p ids)
            (choose_least_loaded route excluded now scores coin ids p).1
    unfolding choose_least_loaded
    choose_least_loaded-IsBest ids p =
        rw (least_pass-fold ids (none, 0) p)
          (fold_best-IsBest (candidates route excluded now p ids))
