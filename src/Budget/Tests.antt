-- ===== src/Budget/Tests.antt =====
-- The theorems on budgets at concrete inputs.
use brigh_to_router.Prelude.{
  ℕ, ◌+◌, ◌-◌, ◌≤◌, ◌<◌, ◌≡◌, ◌≢◌, refl, true, false, Option, none, some, List, [], ◌∷◌, arith,
  if◌then◌else◌, ltb, u64_mod,
}
use brigh_to_router.Prelude.Eq.{ℕ_eq, list_eq}
use brigh_to_router.Prelude.Maps.{Map, lookup}
use brigh_to_router.Prelude.Result.{ok}
use brigh_to_router.Prelude.Text.{codes}
use brigh_to_router.Contract.Config.{ApiKey, Budget, Team}
use brigh_to_router.Budget.{
  RamBudgetStore, Effective, BudgetError, rate_limited, effective_budget, own_or_team, team_budget,
  reserve_budget, after_total, reserve_model, after_model, reserve, after_budget, check_rate,
  rate_result, take_rpm, commit, rollback, acquire_concurrency, acquire_limited, acquire_slot,
  release_concurrency, sync_teams, total_key, model_key,
}
use brigh_to_router.Budget.Usage.{UsageKey, ReservedScope, used, reserve_scope, usage_key_eq}
use brigh_to_router.Budget.Limits.{reserve_budget-eq, expected}
use brigh_to_router.Budget.Commit.{commit-reserve, on, Distinct, Backed}
use brigh_to_router.Budget.Conservation
use brigh_to_router.Budget.Conservation.{reserve-used, rollback-reserve}
use brigh_to_router.Budget.Guards.{release-acquire, gauge}
use brigh_to_router.Budget.Teams.{sync_teams-eq, UniqueKeys, budget_of}

abbrev pub monthly : Budget
monthly = record {
  period = codes "month";
  max_tokens = 100;
  max_usd_cents = none;
  per_model = (codes "m", 50) ∷ [];
}

abbrev pub caller : ApiKey
caller = record {
  id = 1;
  key_hash = 9 ∷ [];
  key_prefix = codes "sk";
  team_id = 7;
  owner = codes "o";
  allowed_models = [];
  budget = none;
  rpm_limit = some 60;
  concurrency_limit = some 2;
  expires_at = none;
  enabled = true;
}

abbrev pub store : RamBudgetStore
store = record { rpm = []; usage = []; inflight = []; team_budgets = (7, monthly) ∷ [] }

abbrev team_monthly : Effective
team_monthly = record { total_scope = 2; model_scope = 3; scope_id = 7; budget = monthly }

-- The first of January 1970 and a day in it.
abbrev pub total_usage : UsageKey
total_usage = record { scope = 2; id = 7; model = []; period_start = 0 }

abbrev pub model_usage : UsageKey
model_usage = record { scope = 3; id = 7; model = codes "m"; period_start = 0 }

abbrev pub both : List ReservedScope
both = record { key = total_usage; amount = 40 } ∷ record { key = model_usage; amount = 40 } ∷ []

abbrev pub after : RamBudgetStore
after = record {
  rpm = (1, record { tokens = 59; last_refill_ms = 5_000 }) ∷ [];
  usage = (total_usage, 40) ∷ (model_usage, 40) ∷ [];
  inflight = [];
  team_budgets = (7, monthly) ∷ [];
}

applies : effective_budget store caller ≡ some team_monthly
unfolding effective_budget own_or_team team_budget lookup
applies = refl

reserve_budget-eq_example :
    (reserve_budget (effective_budget store caller) store.usage (codes "m") 60 5).1
    ≡ expected team_monthly store.usage (codes "m") 60 5
reserve_budget-eq_example = reserve_budget-eq store caller team_monthly (codes "m") 60 5 applies

pub reserved : reserve store caller (codes "m") 40 5 5_000 ≡ (after, ok both)
unfolding reserve reserve_budget effective_budget lookup reserve_scope used
    brigh_to_router.Prelude.Maps.insert brigh_to_router.Budget.Period.period_start
    brigh_to_router.Budget.Period.days_from_civil brigh_to_router.Budget.Period.civil_from_days
    take_rpm brigh_to_router.Budget.Rpm.try_take brigh_to_router.Budget.Rpm.new
    brigh_to_router.Budget.Rpm.refill
reserved = refl

reserve-used_example :
    used (reserve store caller (codes "m") 40 5 5_000).0.usage total_usage
    ≡ Conservation.held
        (used store.usage total_usage)
        (reserve store caller (codes "m") 40 5 5_000).1
        total_usage
reserve-used_example = reserve-used store caller (codes "m") 40 5 5_000 total_usage

rollback-reserve_example :
    used (rollback after both).usage model_usage ≡ used store.usage model_usage
rollback-reserve_example =
    rollback-reserve store after caller (codes "m") 40 5 5_000 both model_usage reserved

pub after_fits : (k : UsageKey) → used after.usage k + 55 < u64_mod
unfolding used lookup
after_fits k = ground arith

commit-reserve_example :
    used (commit after both 55).usage total_usage
    ≡ used store.usage total_usage + (if on both total_usage then 55 else 0)
commit-reserve_example =
    commit-reserve store after caller (codes "m") 40 5 5_000 55 both total_usage reserved after_fits

abbrev one_slot : RamBudgetStore
one_slot = record { rpm = []; usage = []; inflight = (1, 1) ∷ []; team_budgets = (7, monthly) ∷ [] }

slot_taken : acquire_concurrency store caller ≡ (one_slot, some (some 1))
unfolding acquire_concurrency lookup brigh_to_router.Prelude.Maps.insert
slot_taken = refl

release-acquire_example : gauge (release_concurrency one_slot (some 1)) 1 ≡ gauge store 1
release-acquire_example = release-acquire store one_slot caller (some 1) 1 slot_taken

abbrev teams : Map ℕ Team
teams =
    (7, record { id = 7; name = codes "a"; budget = some monthly; enabled = false })
    ∷ (8, record { id = 8; name = codes "b"; budget = some monthly; enabled = true })
    ∷ []

unique : UniqueKeys teams
unfolding lookup
unique = (refl, (refl, tt))

sync_teams-eq_example : lookup 7 (sync_teams store teams).team_budgets ≡ budget_of (lookup 7 teams)
sync_teams-eq_example = sync_teams-eq store teams 7 unique

distinct : Distinct both
unfolding on
distinct = (refl, (refl, tt))

backed : Backed after.usage 55 both
unfolding used lookup
backed = ground arith
