-- ===== src/Ledger/Seeds.antt =====
-- `load_usage_seeds` of src/ledger/mod.rs: what the usage table says of the two current periods. The
-- sums are the database's; a query that fails ends the loading.
use brigh_to_router.Prelude.{ℕ, Option, none, some, List, [], ◌∷◌, ◌++◌}
use brigh_to_router.Prelude.Int.{ℤ, max_zero}
use brigh_to_router.Prelude.Text.{Text, codes}
use brigh_to_router.Budget.{UsageScope, key_total, key_model, team_total, team_model, UsageSeed}
use brigh_to_router.Budget.Period.{period_start}

-- The sums since a moment, by key or team, in all or by model.
pub record UsageTable : Type 0 where
  pub by_key : ℕ → Option (List (ℕ × ℤ))
  pub by_key_model : ℕ → Option (List (ℕ × Text × ℤ))
  pub by_team : ℕ → Option (List (ℕ × ℤ))
  pub by_team_model : ℕ → Option (List (ℕ × Text × ℤ))

total_seeds : UsageScope → ℕ → List (ℕ × ℤ) → List UsageSeed
total_seeds scope period [] = []
total_seeds scope period ((id, used) ∷ rows) =
    record {
      scope = scope;
      id = id;
      model = [];
      period_start = period;
      used_tokens = max_zero used;
    }
    ∷ total_seeds scope period rows

model_seeds : UsageScope → ℕ → List (ℕ × Text × ℤ) → List UsageSeed
model_seeds scope period [] = []
model_seeds scope period ((id, model, used) ∷ rows) =
    record {
      scope = scope;
      id = id;
      model = model;
      period_start = period;
      used_tokens = max_zero used;
    }
    ∷ model_seeds scope period rows

-- `?` on each query, in order.
both : Option (List UsageSeed) → Option (List UsageSeed) → Option (List UsageSeed)
both none o = none
both (some xs) none = none
both (some xs) (some ys) = some (xs ++ ys)

on_rows {ℓ} : {A : Type ℓ} → (A → List UsageSeed) → Option A → Option (List UsageSeed)
on_rows f none = none
on_rows f (some rows) = some (f rows)

period_seeds : UsageTable → ℕ → Option (List UsageSeed)
unfolding total_seeds model_seeds both on_rows
period_seeds table period = both (on_rows (total_seeds key_total period) (table.by_key period)) (
    both (on_rows (model_seeds key_model period) (table.by_key_model period)) (
      both (on_rows (total_seeds team_total period) (table.by_team period))
        (on_rows (model_seeds team_model period) (table.by_team_model period))))

unfoldable pub load_usage_seeds : UsageTable → ℕ → Option (List UsageSeed)
unfolding period_seeds
load_usage_seeds table now =
    both (period_seeds table (period_start (codes "day") now))
      (period_seeds table (period_start (codes "month") now))
