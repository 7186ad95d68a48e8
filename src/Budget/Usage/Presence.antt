-- ===== src/Budget/Usage/Presence.antt =====
-- Which keys have a counter.
use brigh_to_router.Prelude.{ℕ, ◌≡◌, ◌⊎◌, inl, inr, Option-cases, some, arith}
use brigh_to_router.Prelude.Maps.{lookup, insert, lookup-insert}
use brigh_to_router.Prelude.Result.{Result, ok, err}
use brigh_to_router.Budget.Usage.{
  UsageKey, Counters, usage_key_beq_iff, used, reserve_scope, reserve_round, store_round,
  get_or_insert, usage_key_eq,
}

-- A key that has a counter, which then holds its usage.
abbrev pub Has : Counters → UsageKey → Type 0
Has u k = lookup k u ≡ some (used u k)

pub insert-Has : (u : Counters) (k j : UsageKey) (v : ℕ) → (k ≡ j) ⊎ Has u j → Has (insert k v u) j
unfolding used
insert-Has u k j v h = rw lookup-insert (ground (arith, usage_key_beq_iff k j))

get_or_insert-Has :
    (u : Counters) (k j : UsageKey) → (k ≡ j) ⊎ Has u j → Has (get_or_insert (lookup k u) k u) j
unfolding used
get_or_insert-Has u k j h = elim (Option-cases (lookup k u)) [
  | inl e ↦ rw e (unfold get_or_insert in insert-Has u k j 0 h)
  | inr (v, e) ↦ rw e (unfold get_or_insert used in ground arith)
]

store_round-Has :
    (r : Result ℕ ℕ) (k j : UsageKey) (amount : ℕ) (u : Counters)
    → Has u j
    → Has (store_round r k amount u).0 j
unfolding store_round
store_round-Has (err x) k j amount u h = h
store_round-Has (ok v) k j amount u h = insert-Has u k j v (inr h)

-- A reservation makes its key's counter, and keeps every other.
pub reserve_scope-Has :
    (u : Counters) (k j : UsageKey) (limit amount : ℕ)
    → (k ≡ j) ⊎ Has u j
    → Has (reserve_scope u k limit amount).0 j
unfolding reserve_scope
reserve_scope-Has u k j limit amount h =
    let u' = get_or_insert (lookup k u) k u in
    store_round-Has (reserve_round limit amount (used u' k)) k j amount u'
      (get_or_insert-Has u k j h)
