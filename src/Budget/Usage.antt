-- ===== src/Budget/Usage.antt =====
-- The usage counters of src/budget/mod.rs: a map from scopes to the tokens used in a period. Each
-- function is what one call does between its atomic operations; Budget/Cas.antt has the races.
pub mod Laws
pub mod Presence
use brigh_to_router.Prelude.{
  ℕ, ◌+◌, ◌-◌, ◌%◌, ◌≡◌, ◌↔◌, Bool, true, ◌&&◌, Option, none, some, List, [], ◌∷◌, ◌++◌, arith, ltb,
  leb, ◌==◌, if◌then◌else◌, u64_mod,
}
use brigh_to_router.Prelude.Eq.{Eq, list_eq, list_beq, list_beq_iff}
use brigh_to_router.Prelude.Maps.{Map, lookup, insert, modify}
use brigh_to_router.Prelude.Result.{Result, ok, err}
use brigh_to_router.Prelude.Text.{Text}
use brigh_to_router.Contract.Config.{unwrap_or}

pub record UsageKey : Type 0 where
  pub scope : ℕ
  pub id : ℕ
  pub model : Text
  pub period_start : ℕ

abbrev pub scope_key_total : ℕ
scope_key_total = 0

abbrev pub scope_key_model : ℕ
scope_key_model = 1

abbrev pub scope_team_total : ℕ
scope_team_total = 2

abbrev pub scope_team_model : ℕ
scope_team_model = 3

abbrev usage_key_beq : UsageKey → UsageKey → Bool
usage_key_beq a b =
    a.scope == b.scope
    && (a.id == b.id && (list_beq a.model b.model && a.period_start == b.period_start))

pub usage_key_beq_iff : (a b : UsageKey) → (usage_key_beq a b ≡ true) ↔ (a ≡ b)
usage_key_beq_iff a b = ground (arith, list_beq_iff a.model b.model)

instance abbrev pub usage_key_eq : Eq UsageKey
usage_key_eq = record { beq = usage_key_beq; beq_iff = usage_key_beq_iff }

abbrev pub Counters : Type 0
Counters = Map UsageKey ℕ

pub record ReservedScope : Type 0 where
  pub key : UsageKey
  pub amount : ℕ

-- `current_usage`.
unfoldable pub used : Counters → UsageKey → ℕ
used u k = unwrap_or (lookup k u) 0

-- `get`, and on a miss `entry().or_insert_with(0)`.
get_or_insert : Option ℕ → UsageKey → Counters → Counters
get_or_insert none k u = insert k 0 u
get_or_insert (some v) k u = u

-- One round of the compare-exchange loop: the value to write, or the tokens that remain.
unfoldable pub reserve_round : ℕ → ℕ → ℕ → Result ℕ ℕ
reserve_round limit amount current =
    let remaining = limit - current in
    if ltb remaining amount then err remaining else ok (current + amount)

store_round : Result ℕ ℕ → UsageKey → ℕ → Counters → Counters × Result ReservedScope ℕ
store_round (err remaining) k amount u = (u, err remaining)
store_round (ok v) k amount u = (insert k v u, ok (record { key = k; amount = amount }))

unfoldable pub reserve_scope : Counters → UsageKey → ℕ → ℕ → Counters × Result ReservedScope ℕ
unfolding get_or_insert reserve_round store_round
reserve_scope u k limit amount =
    let u' = get_or_insert (lookup k u) k u in
    store_round (reserve_round limit amount (used u' k)) k amount u'

-- `fetch_add` wraps around.
unfoldable pub add : Counters → UsageKey → ℕ → Counters
add u k amount = if amount == 0 then u else modify k (λ v. (v + amount) % u64_mod) u

-- `saturating_sub`, which `-` is.
unfoldable pub sub : Counters → UsageKey → ℕ → Counters
sub u k amount = if amount == 0 then u else modify k (λ v. v - amount) u

-- One scope of a commit: the reserved amount becomes the actual one.
pub commit_one : Counters → ReservedScope → ℕ → Counters
commit_one u s actual =
    if leb s.amount actual then add u s.key (actual - s.amount) else sub u s.key (s.amount - actual)

unfoldable pub commit_scopes : Counters → List ReservedScope → ℕ → Counters
commit_scopes u [] actual = u
commit_scopes u (s ∷ ss) actual = commit_scopes (commit_one u s actual) ss actual

unfoldable pub rollback_scopes : Counters → List ReservedScope → Counters
rollback_scopes u [] = u
rollback_scopes u (s ∷ ss) = rollback_scopes (sub u s.key s.amount) ss
