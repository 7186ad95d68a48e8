-- ===== src/Budget/Period/Tests.antt =====
-- The theorems on periods at concrete inputs.
use brigh_to_router.Prelude.{◌/◌, ◌≤◌, ◌≡◌, ◌↔◌}
use brigh_to_router.Prelude.Text.{codes}
use brigh_to_router.Budget.Period.{civil_from_days, period_start}
use brigh_to_router.Budget.Period.Start.{period_start_lem, monthly_period_iff}

period_start_lem_example :
    (period_start (codes "month") 1_709_200_000 ≤ 1_709_200_000)
    × (period_start (codes "month") (period_start (codes "month") 1_709_200_000)
        ≡ period_start (codes "month") 1_709_200_000)
period_start_lem_example = period_start_lem (codes "month") 1_709_200_000

monthly_period_iff_example :
    (period_start (codes "month") 1_709_200_000 ≡ period_start (codes "month") 1_707_000_000) ↔ (
      ((civil_from_days (1_709_200_000 / 86_400)).year
        ≡ (civil_from_days (1_707_000_000 / 86_400)).year)
      × ((civil_from_days (1_709_200_000 / 86_400)).month
          ≡ (civil_from_days (1_707_000_000 / 86_400)).month))
monthly_period_iff_example = monthly_period_iff 1_709_200_000 1_707_000_000
