-- ===== src/Budget/Period/Start.antt =====
-- What a period's start says of the period.
use brigh_to_router.Prelude.{ℕ, ◌*◌, ◌/◌, ◌≤◌, ◌≡◌, ◌↔◌, ap, sym, ◌∙◌, Bool-cases, inl, inr, arith}
use brigh_to_router.Prelude.Eq.{list_beq}
use brigh_to_router.Prelude.Text.{Text, codes}
use brigh_to_router.Budget.Period.{Civil, civil_from_days, month_start, period_start}
use brigh_to_router.Budget.Period.Calendar.{month_first}

day_of : (n : ℕ) → n * 86_400 / 86_400 ≡ n
day_of n = omega arith

month_start_lem :
    (days : ℕ)
    → (month_start days ≤ days * 86_400)
      × (civil_from_days (month_start days / 86_400) ≡ record {
        year = (civil_from_days days).year;
        month = (civil_from_days days).month;
        day = 1;
      })
unfolding month_start
month_start_lem days = let first = month_first days in (omega (arith, first.0), rw day_of first.1)

-- Dates of one month have one start.
month_start_of :
    (a b : ℕ)
    → (civil_from_days a).year ≡ (civil_from_days b).year
    → (civil_from_days a).month ≡ (civil_from_days b).month
    → month_start a ≡ month_start b
unfolding month_start
month_start_of a b y m = rw (y, m)

-- A period begins at or before each of its moments, and its start is in the same period.
pub period_start_lem :
    (period : Text) (t : ℕ)
    → (period_start period t ≤ t)
      × (period_start period (period_start period t) ≡ period_start period t)
unfolding period_start
period_start_lem period t = elim (Bool-cases (list_beq period (codes "month"))) [
  | inl month ↦
      let m = month_start_lem (t / 86_400) in
      rw month (
        omega (arith, m.0),
        month_start_of (month_start (t / 86_400) / 86_400) (t / 86_400)
            (ap (λ (c : Civil). c.year) m.1) (ap (λ (c : Civil). c.month) m.1),
      )
  | inr day ↦ rw day (omega arith, omega arith)
]

-- Two moments have the same monthly period exactly when their dates have the same year and month.
pub monthly_period_iff :
    (s t : ℕ)
    → (period_start (codes "month") s ≡ period_start (codes "month") t) ↔ (
        ((civil_from_days (s / 86_400)).year ≡ (civil_from_days (t / 86_400)).year)
        × ((civil_from_days (s / 86_400)).month ≡ (civil_from_days (t / 86_400)).month))
unfolding period_start
monthly_period_iff s t =
    let a = month_start_lem (s / 86_400) in
    let b = month_start_lem (t / 86_400) in
    (
      λ e.
          let same = sym a.1 ∙ ap (λ n. civil_from_days (n / 86_400)) e ∙ b.1 in
          (ap (λ (c : Civil). c.year) same, ap (λ (c : Civil). c.month) same),
      λ h. month_start_of (s / 86_400) (t / 86_400) h.0 h.1,
    )
