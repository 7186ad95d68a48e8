-- ===== src/Route/Exclusions/Laws.antt =====
-- The exclusions are a set: the zeros of the unused places are no members.
use brigh_to_router.Prelude.{
  ℕ, suc, ◌+◌, ◌≤◌, ◌≡◌, ap, ◌<◌, refl, true, false, ◌||◌, List, [], ◌∷◌, ◌++◌, length, take, set,
  length-set, take-set, ◌==◌, ==_iff, arith,
}
use brigh_to_router.Route.Exclusions.{
  BackendExclusions, inline_exclusions, mem, contains, insert, default,
}

pub record IsValid (e : BackendExclusions) : Type 0 where
  pub places : length e.inline ≡ inline_exclusions
  pub used : e.len ≤ inline_exclusions

pub default-IsValid : IsValid default
unfolding default
default-IsValid = record { places = refl; used = omega arith }

pub insert-IsValid : (id : ℕ) (e : BackendExclusions) → IsValid e → IsValid (insert id e)
unfolding insert
insert-IsValid id e v = ground (arith, length-set e.inline e.len id)

mem-append : (xs : List ℕ) (a b : ℕ) → mem (xs ++ a ∷ []) b ≡ (mem xs b || (a == b))
unfolding mem
mem-append [] a b = ground arith
mem-append (x ∷ xs) a b = ground (arith, mem-append xs a b)

take-set' :
    (n : ℕ) (xs : List ℕ) (v : ℕ) → n < length xs → take (n + 1) (set xs n v) ≡ take n xs ++ v ∷ []
take-set' n xs v h = let e : n + 1 ≡ suc n = omega arith in rw e (take-set n xs v h)

same_mem : (xs : List ℕ) (a b : ℕ) → (a == b) ≡ true → mem xs a ≡ mem xs b
same_mem xs a b h = ap (mem xs) ((==_iff a b).0 h)

pub contains-default : (j : ℕ) → contains default j ≡ false
unfolding contains default mem
contains-default j = refl

-- An insertion into a valid set adds its id and nothing else, in place or beyond.
pub contains-insert :
    (id j : ℕ) (e : BackendExclusions)
    → IsValid e
    → contains (insert id e) j ≡ ((id == j) || contains e j)
unfolding contains insert
contains-insert id j e v = ground (
  arith,
  mem-append (take e.len e.inline) id j,
  mem-append e.overflow id j,
  take-set' e.len e.inline id,
  ==_iff id j,
  same_mem (take e.len e.inline) id j,
  same_mem e.overflow id j,
)
