-- ===== src/Budget/Period.antt =====
-- `period_start` and the calendar of src/budget/mod.rs, for a clock at or after the epoch, which is
-- what `now_secs` returns. There every quotient and difference of the source is a natural number.
pub mod Calendar
pub mod Start
pub mod Tests
use brigh_to_router.Prelude.{ℕ, ◌+◌, ◌-◌, ◌*◌, ◌/◌, ◌%◌, leb, ltb, if◌then◌else◌}
use brigh_to_router.Prelude.Eq.{list_beq}
use brigh_to_router.Prelude.Text.{Text, codes}

pub record Civil : Type 0 where
  pub year : ℕ
  pub month : ℕ
  pub day : ℕ

unfoldable pub days_from_civil : ℕ → ℕ → ℕ → ℕ
days_from_civil y m d =
    let y' = if leb m 2 then y - 1 else y in
    let era = y' / 400 in
    let yoe = y' - era * 400 in
    let mp = (m + 9) % 12 in
    let doy = ((153 * mp + 2) / 5 + d) - 1 in
    let doe = ((yoe * 365 + yoe / 4) - yoe / 100) + doy in (era * 146_097 + doe) - 719_468

unfoldable pub civil_from_days : ℕ → Civil
civil_from_days z =
    let z' = z + 719_468 in
    let era = z' / 146_097 in
    let doe = z' - era * 146_097 in
    let yoe = ((((doe - doe / 1_460) + doe / 36_524) - doe / 146_096) / 365) in
    let y = yoe + era * 400 in
    let doy = doe - ((365 * yoe + yoe / 4) - yoe / 100) in
    let mp = (5 * doy + 2) / 153 in
    let d = (doy - (153 * mp + 2) / 5) + 1 in
    let m = if ltb mp 10 then mp + 3 else mp - 9 in
    record { year = if leb m 2 then y + 1 else y; month = m; day = d }

month_start : ℕ → ℕ
month_start days = let c = civil_from_days days in days_from_civil c.year c.month 1 * 86_400

unfoldable pub period_start : Text → ℕ → ℕ
unfolding month_start
period_start period now_secs =
    let days = now_secs / 86_400 in
    if list_beq period (codes "month") then month_start days else days * 86_400
