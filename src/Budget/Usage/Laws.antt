-- ===== src/Budget/Usage/Laws.antt =====
-- What each counter operation does to the usage of every key.
use brigh_to_router.Prelude.{
  ℕ, ◌+◌, ◌-◌, ◌%◌, ◌≤◌, ◌<◌, ◌≡◌, ap, ◌≢◌, inl, inr, true, some, List, [], ◌∷◌, arith, ltb,
  if◌then◌else◌, u64_mod, Option-cases,
}
use brigh_to_router.Prelude.Eq.{◌=?◌}
use brigh_to_router.Prelude.Maps.{lookup, insert, lookup-insert, lookup-modify}
use brigh_to_router.Prelude.Result.{ok, err}
use brigh_to_router.Budget.Usage.{
  UsageKey, Counters, ReservedScope, usage_key_beq_iff, used, reserve_scope, get_or_insert, add,
  sub, rollback_scopes, commit_one, usage_key_eq,
}

pub used-insert :
    (u : Counters) (k j : UsageKey) (v : ℕ)
    → used (insert k v u) j ≡ (if k =? j then v else used u j)
unfolding used
used-insert u k j v = rw lookup-insert (ground arith)

used-get_or_insert :
    (u : Counters) (k j : UsageKey) → used (get_or_insert (lookup k u) k u) j ≡ used u j
unfolding used get_or_insert
used-get_or_insert u k j = elim (Option-cases (lookup k u)) [
  | inl e ↦ rw (e, get_or_insert, lookup-insert) (ground (arith, usage_key_beq_iff k j))
  | inr (v, e) ↦ rw (e, get_or_insert)
]

-- A reservation succeeds exactly when the amount fits in what remains, and then adds it to the
-- key; a refusal names what remains and changes no usage.
pub reserve_scope_lem :
    (u : Counters) (k j : UsageKey) (limit amount : ℕ)
    → ((reserve_scope u k limit amount).1 ≡ (
        if ltb (limit - used u k) amount
        then err (limit - used u k)
        else ok (record { key = k; amount = amount })))
      × (used (reserve_scope u k limit amount).0 j ≡ (
          if ltb (limit - used u k) amount
          then used u j
          else if k =? j
          then used u k + amount
          else used u j))
unfolding reserve_scope
reserve_scope_lem u k j limit amount = ground (
  arith,
  used-get_or_insert u k k,
  used-get_or_insert u k j,
  used-insert (get_or_insert (lookup k u) k u) k j
      (used (get_or_insert (lookup k u) k u) k + amount),
)

pub used-sub :
    (u : Counters) (k j : UsageKey) (n : ℕ)
    → used (sub u k n) j ≡ (if k =? j then used u j - n else used u j)
unfolding used sub
used-sub u k j n = ground (arith, lookup-modify k j (λ (v : ℕ). v - n) u)

-- An increment of a counter that exists, and that has room for it.
pub used-add :
    (u : Counters) (k j : UsageKey) (n v : ℕ)
    → lookup k u ≡ some v
    → v + n < u64_mod
    → used (add u k n) j ≡ (if k =? j then used u j + n else used u j)
unfolding used add
used-add u k j n v e h =
    ground (arith, lookup-modify k j (λ (v : ℕ). (v + n) % u64_mod) u, usage_key_beq_iff k j)

pub used_some : (u : Counters) (k : UsageKey) (v : ℕ) → lookup k u ≡ some v → used u k ≡ v
unfolding used
used_some u k v e = rw e

used_eq : (u : Counters) (k j : UsageKey) → (k =? j) ≡ true → used u k ≡ used u j
used_eq u k j h = ap (used u) ((usage_key_beq_iff k j).0 h)

-- The tokens that a list of reserved scopes holds on a key.
unfoldable pub reserved_on : List ReservedScope → UsageKey → ℕ
reserved_on [] j = 0
reserved_on (s ∷ ss) j = (if s.key =? j then s.amount else 0) + reserved_on ss j

-- A rollback takes back from every key what the scopes hold on it.
pub used-rollback_scopes :
    (u : Counters) (ss : List ReservedScope) (j : UsageKey)
    → used (rollback_scopes u ss) j ≡ used u j - reserved_on ss j
unfolding rollback_scopes reserved_on
used-rollback_scopes u [] j = omega arith
used-rollback_scopes u (s ∷ ss) j =
    ground (arith, used-rollback_scopes (sub u s.key s.amount) ss j, used-sub u s.key j s.amount)

-- One scope of a commit: the reserved amount becomes the actual one.
pub used-commit_one :
    (u : Counters) (s : ReservedScope) (j : UsageKey) (v actual : ℕ)
    → lookup s.key u ≡ some v
    → s.amount ≤ v
    → v + actual < u64_mod
    → used (commit_one u s actual) j ≡ (if s.key =? j then v - s.amount + actual else used u j)
unfolding commit_one
used-commit_one u s j v actual e le fits = ground (
  arith,
  used-add u s.key j (actual - s.amount) v e,
  used-sub u s.key j (s.amount - actual),
  used_some u s.key v e,
  used_eq u s.key j,
)

-- A commit leaves the counters of other keys as they are.
pub lookup-commit_one :
    (u : Counters) (s : ReservedScope) (j : UsageKey) (actual : ℕ)
    → s.key ≢ j
    → lookup j (commit_one u s actual) ≡ lookup j u
unfolding commit_one add sub
lookup-commit_one u s j actual h = ground (
  arith,
  usage_key_beq_iff s.key j,
  lookup-modify s.key j (λ (v : ℕ). (v + (actual - s.amount)) % u64_mod) u,
  lookup-modify s.key j (λ (v : ℕ). v - (s.amount - actual)) u,
)
