-- ===== src/Budget.antt =====
-- src/budget/mod.rs: token budgets, request rates and concurrency, kept in memory. A method of
-- `RamBudgetStore` returns the store that it leaves. Between two atomic operations no other thread
-- runs here; Budget/Cas.antt has the interleavings. The clock is an argument.
pub mod Usage
pub mod Rpm
pub mod Period
pub mod Cas
pub mod Conservation
pub mod Limits
pub mod Commit
pub mod Guards
pub mod Teams
pub mod Tests
use brigh_to_router.Prelude.{
  ℕ, zero, suc, ◌+◌, ◌-◌, ◌%◌, Bool, true, false, Option, none, some, List, [], ◌∷◌, ◌++◌, ltb, leb,
  ◌==◌, if◌then◌else◌, u64_mod,
}
use brigh_to_router.Prelude.Eq.{ℕ_eq, list_eq}
use brigh_to_router.Prelude.Maps.{Map, lookup, insert, remove, modify}
use brigh_to_router.Prelude.Result.{Result, ok, err}
use brigh_to_router.Prelude.Text.{Text, codes}
use brigh_to_router.Contract.Config.{ApiKey, Budget, Team, unwrap_or}
use Usage.{
  Counters, UsageKey, ReservedScope, usage_key_eq, scope_key_total, scope_key_model,
  scope_team_total, scope_team_model, used, reserve_scope, commit_scopes, rollback_scopes,
}
use Rpm.{RpmBucket, try_take}
use Rpm
use Period.{period_start}

pub record RamBudgetStore : Type 0 where
  pub rpm : Map ℕ RpmBucket
  pub usage : Counters
  pub inflight : Map ℕ ℕ
  pub team_budgets : Map ℕ Budget

pub data BudgetError : Type 0 where
  rate_limited : ℕ → BudgetError
  budget_exceeded : ℕ → BudgetError

pub data UsageScope : Type 0 where
  key_total key_model team_total team_model : UsageScope

pub record UsageSeed : Type 0 where
  pub scope : UsageScope
  pub id : ℕ
  pub model : Text
  pub period_start : ℕ
  pub used_tokens : ℕ

pub new : RamBudgetStore
new = record { rpm = []; usage = []; inflight = []; team_budgets = [] }

-- A budget with the pair of scope numbers and the id that it is charged to.
pub record Effective : Type 0 where
  pub total_scope : ℕ
  pub model_scope : ℕ
  pub scope_id : ℕ
  pub budget : Budget

team_budget : ApiKey → Option Budget → Option Effective
team_budget key none = none
team_budget key (some b) = some (record {
  total_scope = scope_team_total;
  model_scope = scope_team_model;
  scope_id = key.team_id;
  budget = b;
})

own_or_team : RamBudgetStore → ApiKey → Option Budget → Option Effective
unfolding team_budget
own_or_team s key none = team_budget key (lookup key.team_id s.team_budgets)
own_or_team s key (some b) = some (record {
  total_scope = scope_key_total;
  model_scope = scope_key_model;
  scope_id = key.id;
  budget = b;
})

pub effective_budget : RamBudgetStore → ApiKey → Option Effective
unfolding own_or_team
effective_budget s key = own_or_team s key key.budget

abbrev pub total_key : Effective → ℕ → UsageKey
total_key e now = record {
  scope = e.total_scope;
  id = e.scope_id;
  model = codes "";
  period_start = period_start e.budget.period now;
}

abbrev pub model_key : Effective → Text → ℕ → UsageKey
model_key e model now = record {
  scope = e.model_scope;
  id = e.scope_id;
  model = model;
  period_start = period_start e.budget.period now;
}

-- The model's own cap, after the total is reserved: a refusal rolls the total back.
after_model :
    ReservedScope
    → Counters × Result ReservedScope ℕ
    → Counters × Result (List ReservedScope) BudgetError
after_model total (u, err remaining) =
    (rollback_scopes u (total ∷ []), err (budget_exceeded remaining))
after_model total (u, ok scope) = (u, ok (total ∷ scope ∷ []))

reserve_model :
    ReservedScope
    → Counters
    → UsageKey
    → Option ℕ
    → ℕ
    → Counters × Result (List ReservedScope) BudgetError
unfolding after_model
reserve_model total u k none est = (u, ok (total ∷ []))
reserve_model total u k (some cap) est = after_model total (reserve_scope u k cap est)

after_total :
    Effective
    → Text
    → ℕ
    → ℕ
    → Counters × Result ReservedScope ℕ
    → Counters × Result (List ReservedScope) BudgetError
unfolding reserve_model
after_total e model est now (u, err remaining) =
    (rollback_scopes u [], err (budget_exceeded remaining))
after_total e model est now (u, ok total) =
    reserve_model total u (model_key e model now) (lookup model e.budget.per_model) est

-- The budget part of `reserve`.
unfoldable pub reserve_budget :
    Option Effective → Counters → Text → ℕ → ℕ → Counters × Result (List ReservedScope) BudgetError
unfolding after_total
reserve_budget none u model est now = (u, ok [])
reserve_budget (some e) u model est now =
    after_total e model est now (reserve_scope u (total_key e now) e.budget.max_tokens est)

pub take_rpm : RamBudgetStore → ℕ → ℕ → ℕ → RamBudgetStore × Result (Unit {0}) ℕ
take_rpm s key_id limit now_ms =
    let (b, r) = try_take (unwrap_or (lookup key_id s.rpm) (Rpm.new limit now_ms)) limit now_ms in
    (record s { rpm = insert key_id b s.rpm }, r)

-- The request rate, after the budget: a refusal rolls the scopes back.
rate_result :
    List ReservedScope
    → RamBudgetStore × Result (Unit {0}) ℕ
    → RamBudgetStore × Result (List ReservedScope) BudgetError
rate_result scopes (s, err delay) =
    (record s { usage = rollback_scopes s.usage scopes }, err (rate_limited delay))
rate_result scopes (s, ok t) = (s, ok scopes)

check_rate :
    RamBudgetStore
    → ℕ
    → Option ℕ
    → ℕ
    → List ReservedScope
    → RamBudgetStore × Result (List ReservedScope) BudgetError
unfolding rate_result
check_rate s key_id none now_ms scopes = (s, ok scopes)
check_rate s key_id (some limit) now_ms scopes =
    if ltb 0 limit then rate_result scopes (take_rpm s key_id limit now_ms) else (s, ok scopes)

after_budget :
    RamBudgetStore
    → ApiKey
    → ℕ
    → Counters × Result (List ReservedScope) BudgetError
    → RamBudgetStore × Result (List ReservedScope) BudgetError
unfolding check_rate
after_budget s key now_ms (u, err e) = (record s { usage = u }, err e)
after_budget s key now_ms (u, ok scopes) =
    check_rate (record s { usage = u }) key.id key.rpm_limit now_ms scopes

-- The scopes stand for the `BudgetReservation`.
pub reserve :
    RamBudgetStore
    → ApiKey
    → Text
    → ℕ
    → ℕ
    → ℕ
    → RamBudgetStore × Result (List ReservedScope) BudgetError
unfolding after_budget
reserve s key model est_tokens now_secs now_ms =
    after_budget s key now_ms
      (reserve_budget (effective_budget s key) s.usage model est_tokens now_secs)

-- `BudgetReservation::commit`, and `rollback`, which is also what its `Drop` does.
pub commit : RamBudgetStore → List ReservedScope → ℕ → RamBudgetStore
commit s scopes actual = record s { usage = commit_scopes s.usage scopes actual }

unfoldable pub rollback : RamBudgetStore → List ReservedScope → RamBudgetStore
rollback s scopes = record s { usage = rollback_scopes s.usage scopes }

-- `ConcurrencyGuard`: the key whose slot it holds, if it holds one. `none` is a refusal.
acquire_slot : RamBudgetStore → ℕ → ℕ → RamBudgetStore × Option (Option ℕ)
acquire_slot s key_id limit =
    let current = unwrap_or (lookup key_id s.inflight) 0 in
    if leb limit current
    then (record s { inflight = insert key_id current s.inflight }, none)
    else (record s { inflight = insert key_id (current + 1) s.inflight }, some (some key_id))

acquire_limited : RamBudgetStore → ℕ → Option ℕ → RamBudgetStore × Option (Option ℕ)
unfolding acquire_slot
acquire_limited s key_id none = (s, some none)
acquire_limited s key_id (some zero) = (s, some none)
acquire_limited s key_id (some (suc n)) = acquire_slot s key_id (suc n)

pub acquire_concurrency : RamBudgetStore → ApiKey → RamBudgetStore × Option (Option ℕ)
unfolding acquire_limited
acquire_concurrency s key = acquire_limited s key.id key.concurrency_limit

abbrev pub release_concurrency_id : RamBudgetStore → ℕ → RamBudgetStore
release_concurrency_id s id = record s { inflight = modify id (λ v. v - 1) s.inflight }

-- The guard's `Drop`.
unfoldable pub release_concurrency : RamBudgetStore → Option ℕ → RamBudgetStore
release_concurrency s none = s
release_concurrency s (some id) = release_concurrency_id s id

scope_of : UsageScope → ℕ
scope_of key_total = scope_key_total
scope_of key_model = scope_key_model
scope_of team_total = scope_team_total
scope_of team_model = scope_team_model

pub seed_key : UsageSeed → UsageKey
unfolding scope_of
seed_key seed = record {
  scope = scope_of seed.scope;
  id = seed.id;
  model = seed.model;
  period_start = seed.period_start;
}

pub seed_usage : RamBudgetStore → UsageSeed → RamBudgetStore
unfolding seed_key
seed_usage s seed = record s { usage = insert (seed_key seed) seed.used_tokens s.usage }

set_budget : Map ℕ Budget → ℕ → Option Budget → Map ℕ Budget
set_budget m id none = remove id m
set_budget m id (some b) = insert id b m

load_each : Map ℕ Team → Map ℕ Budget → Map ℕ Budget
unfolding set_budget
load_each [] m = m
load_each ((id, team) ∷ teams) m = load_each teams (set_budget m id team.budget)

pub load_teams : RamBudgetStore → Map ℕ Team → RamBudgetStore
unfolding load_each
load_teams s teams = record s { team_budgets = load_each teams s.team_budgets }

-- The first loop of `sync_teams`, over the ids that are loaded.
has_team : Option Team → Bool
has_team none = false
has_team (some t) = true

prune : List (ℕ × Budget) → Map ℕ Team → Map ℕ Budget → Map ℕ Budget
unfolding has_team
prune [] teams m = m
prune ((id, b) ∷ current) teams m =
    prune current teams (if has_team (lookup id teams) then m else remove id m)

sync_each : Map ℕ Team → Map ℕ Budget → Map ℕ Budget
unfolding set_budget
sync_each [] m = m
sync_each ((id, team) ∷ teams) m =
    sync_each teams (if team.enabled then set_budget m id team.budget else remove id m)

pub sync_teams : RamBudgetStore → Map ℕ Team → RamBudgetStore
unfolding prune sync_each
sync_teams s teams = record s {
  team_budgets = sync_each teams (prune s.team_budgets teams s.team_budgets);
}

-- What remains of the budgets of the teams, for the metrics.
cap_rows : RamBudgetStore → ℕ → ℕ → List (Text × ℕ) → List (ℕ × Text × ℕ)
cap_rows s id period [] = []
cap_rows s id period ((model, cap) ∷ caps) =
    (
      id,
      model,
      cap
          - used s.usage
              (record { scope = scope_team_model; id = id; model = model; period_start = period }),
    )
    ∷ cap_rows s id period caps

budget_rows : RamBudgetStore → ℕ → List (ℕ × Budget) → List (ℕ × Text × ℕ)
unfolding cap_rows
budget_rows s now [] = []
budget_rows s now ((id, b) ∷ rest) =
    let period = period_start b.period now in
    (
      id,
      codes "total",
      b.max_tokens
          - used s.usage (record {
            scope = scope_team_total;
            id = id;
            model = codes "";
            period_start = period;
          }),
    )
      ∷ cap_rows s id period b.per_model
    ++ budget_rows s now rest

pub budget_remaining_snapshot : RamBudgetStore → ℕ → List (ℕ × Text × ℕ)
unfolding budget_rows
budget_remaining_snapshot s now = budget_rows s now s.team_budgets
