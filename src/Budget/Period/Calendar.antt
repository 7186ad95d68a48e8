-- ===== src/Budget/Period/Calendar.antt =====
-- The calendar: days and civil dates determine each other, and the first of a month.
use brigh_to_router.Prelude.{
  ℕ, ◌+◌, ◌-◌, ◌*◌, ◌/◌, ◌≤◌, ◌<◌, ◌≡◌, refl, leb, ltb, ltb→lt, Bool-cases, inl, inr, ap, sym, ◌∙◌,
  if◌then◌else◌, arith,
}
use brigh_to_router.Budget.Period.{days_from_civil, civil_from_days}

year_of_era : ℕ → ℕ
year_of_era doe = (((doe - doe / 1_460) + doe / 36_524) - doe / 146_096) / 365

abbrev year_start : ℕ → ℕ
year_start yoe = (365 * yoe + yoe / 4) - yoe / 100

yoe_lt : (doe : ℕ) → doe < 146_097 → year_of_era doe < 400
unfolding year_of_era
yoe_lt doe h = omega arith

yoe_start : (doe : ℕ) → doe < 146_097 → year_start (year_of_era doe) ≤ doe
unfolding year_of_era
yoe_start doe h = omega arith

yoe_end : (doe : ℕ) → doe < 146_097 → doe ≤ year_start (year_of_era doe) + 365
unfolding year_of_era
yoe_end doe h = omega arith

-- The month and the day of a day of the year that begins in March.
month_bounds :
    (doy : ℕ)
    → doy ≤ 365
    → ((5 * doy + 2) / 153 ≤ 11) × ((153 * ((5 * doy + 2) / 153) + 2) / 5 ≤ doy)
month_bounds doy h = omega arith

abbrev month_of : ℕ → ℕ
month_of mp = if ltb mp 10 then mp + 3 else mp - 9

-- `days_from_civil` on the parts that `civil_from_days` computes, for any day of that month.
from_parts :
    (era yoe mp d : ℕ)
    → yoe < 400
    → mp ≤ 11
    → days_from_civil
        (if leb (month_of mp) 2 then (yoe + era * 400) + 1 else yoe + era * 400)
        (month_of mp)
        (d + 1)
      ≡ (era * 146_097 + (year_start yoe + (153 * mp + 2) / 5 + d)) - 719_468
unfolding days_from_civil
from_parts era yoe mp d h k = ground arith

yoe_next : (doe : ℕ) → doe < 146_096 → doe < year_start (year_of_era doe + 1)
unfolding year_of_era
yoe_next doe h = omega arith

yoe_mono : (a b : ℕ) → a ≤ b → b < 146_097 → year_of_era a ≤ year_of_era b
unfolding year_of_era
yoe_mono a b h k = omega arith

year_start_mono : (a b : ℕ) → a ≤ b → year_start a ≤ year_start b
year_start_mono a b h = omega arith

same_year_early :
    (a b : ℕ)
    → year_start (year_of_era b) ≤ a
    → a ≤ b
    → b < 146_097
    → a < 146_096
    → year_of_era a ≡ year_of_era b
same_year_early a b h k l early = elim (Bool-cases (ltb (year_of_era a) (year_of_era b))) [
  | inl less ↦ absurd (
      omega (
        arith,
        yoe_next a early,
        year_start_mono (year_of_era a + 1) (year_of_era b) (omega (arith, ltb→lt _ _ less)),
      ))
  | inr not_less ↦ ground (arith, not_less, yoe_mono a b k l)
]

same_year :
    (a b : ℕ) → year_start (year_of_era b) ≤ a → a ≤ b → b < 146_097 → year_of_era a ≡ year_of_era b
same_year a b h k l = elim (Bool-cases (ltb a 146_096)) [
  | inl early ↦ same_year_early a b h k l (ltb→lt a 146_096 early)
  | inr last ↦ let e : a ≡ b = ground (arith, last) in ap year_of_era e
]

epoch_year : year_of_era 135_080 ≡ 369
unfolding year_of_era
epoch_year = refl

later_year : (yoe : ℕ) → 370 ≤ yoe → 135_080 ≤ year_start yoe
later_year yoe h = omega (arith, year_start_mono 370 yoe h)

epoch_day :
    (doe yoe : ℕ)
    → yoe ≡ 369
    → 135_080 ≤ doe
    → 135_080 ≤ year_start yoe + (153 * ((5 * (doe - year_start yoe) + 2) / 153) + 2) / 5
epoch_day doe yoe e h = rw e (omega arith)

-- The epoch is the first of a month, so the month of a later day begins at or after it.
month_after_epoch :
    (era doe yoe : ℕ)
    → yoe ≡ year_of_era doe
    → doe < 146_097
    → 719_468 ≤ era * 146_097 + doe
    → 719_468
      ≤ era * 146_097 + (year_start yoe + (153 * ((5 * (doe - year_start yoe) + 2) / 153) + 2) / 5)
month_after_epoch era doe yoe e h k = elim (Bool-cases (ltb doe 135_080)) [
  | inl early ↦ omega (arith, ltb→lt doe 135_080 early)
  | inr late ↦
      let from_epoch : 369 ≤ yoe =
        ground (arith, late, e, epoch_year, yoe_mono 135_080 doe (ground arith) h) in
      elim (Bool-cases (ltb 369 yoe)) [
        | inl later ↦ omega (arith, from_epoch, later_year yoe (ltb→lt 369 yoe later))
        | inr first ↦
            omega
              (arith, epoch_day doe yoe (ground (arith, from_epoch, first)) (ground (arith, late)))
      ]
]

-- The parts of a day number: the era, the year in it, the month from March and the day from 0.
record Parts (z : ℕ) : Type 0 where
  era : ℕ
  yoe : ℕ
  mp : ℕ
  d : ℕ
  year_fits : yoe < 400
  month_fits : mp ≤ 11
  era_eq : era ≡ (z + 719_468) / 146_097
  yoe_eq : yoe ≡ year_of_era ((z + 719_468) - era * 146_097)
  mp_eq : mp ≡ (5 * (((z + 719_468) - era * 146_097) - year_start yoe) + 2) / 153
  after_epoch : 719_468 ≤ era * 146_097 + (year_start yoe + (153 * mp + 2) / 5)
  sum : z + 719_468 ≡ era * 146_097 + (year_start yoe + (153 * mp + 2) / 5 + d)
  civil : civil_from_days z ≡ record {
    year = if leb (month_of mp) 2 then (yoe + era * 400) + 1 else yoe + era * 400;
    month = month_of mp;
    day = d + 1;
  }

parts : (z : ℕ) → Parts z
unfolding civil_from_days year_of_era
parts z =
    let era = (z + 719_468) / 146_097 in
    let doe = (z + 719_468) - era * 146_097 in
    let fits : doe < 146_097 = omega arith in
    let yoe = year_of_era doe in
    let doy = doe - year_start yoe in
    let mp = (5 * doy + 2) / 153 in
    let below : year_start yoe ≤ doe = yoe_start doe fits in
    let month : (mp ≤ 11) × ((153 * mp + 2) / 5 ≤ doy) =
      month_bounds doy (omega (arith, yoe_end doe fits)) in
    record {
      era = era;
      yoe = yoe;
      mp = mp;
      d = doy - (153 * mp + 2) / 5;
      year_fits = yoe_lt doe fits;
      month_fits = month.0;
      era_eq = refl;
      yoe_eq = refl;
      mp_eq = refl;
      after_epoch = month_after_epoch era doe yoe refl fits (omega arith);
      sum = omega (arith, below, month.1);
      civil = refl;
    }

-- The civil date of a day has that day's number.
pub days-civil_from_days :
    (z : ℕ)
    → days_from_civil (civil_from_days z).year (civil_from_days z).month (civil_from_days z).day ≡ z
days-civil_from_days z =
    let p = parts z in
    rw p.civil (omega (arith, from_parts p.era p.yoe p.mp p.d p.year_fits p.month_fits, p.sum))

abbrev month_base : {z : ℕ} → Parts z → ℕ
month_base p = p.era * 146_097 + (year_start p.yoe + (153 * p.mp + 2) / 5)

same_era : {z w : ℕ} (p : Parts z) (q : Parts w) → w + 719_468 ≡ month_base p → q.era ≡ p.era
same_era p q e = omega (arith, p.era_eq, q.era_eq, p.sum)

same_yoe : {z w : ℕ} (p : Parts z) (q : Parts w) → w + 719_468 ≡ month_base p → q.yoe ≡ p.yoe
same_yoe {z} {w} p q e =
    let era_w = same_era p q e in
    q.yoe_eq
    ∙ same_year ((w + 719_468) - q.era * 146_097) ((z + 719_468) - p.era * 146_097)
        (rw (← p.yoe_eq) (omega (arith, era_w))) (omega (arith, era_w, p.sum))
        (omega (arith, p.era_eq))
    ∙ sym p.yoe_eq

same_mp : {z w : ℕ} (p : Parts z) (q : Parts w) → w + 719_468 ≡ month_base p → q.mp ≡ p.mp
same_mp p q e =
    let doy : year_start q.yoe ≡ year_start p.yoe = ap (λ y. year_start y) (same_yoe p q e) in
    omega (arith, same_era p q e, doy, q.mp_eq, p.month_fits)

rewound :
    {z : ℕ} (w : ℕ) (p : Parts z)
    → w + 719_468 ≡ month_base p
    → civil_from_days w
      ≡ record { year = (civil_from_days z).year; month = (civil_from_days z).month; day = 1 }
rewound {z} w p e =
    let q = parts w in
    let starts : year_start q.yoe ≡ year_start p.yoe = ap (λ y. year_start y) (same_yoe p q e) in
    let first : q.d ≡ 0 = omega (arith, q.sum, same_era p q e, starts, same_mp p q e) in
    ground (arith, q.civil, p.civil, same_era p q e, same_yoe p q e, same_mp p q e, first)

-- The first of a day's month is not after the day, and its own date has the same year and month.
pub month_first :
    (z : ℕ)
    → (days_from_civil (civil_from_days z).year (civil_from_days z).month 1 ≤ z)
      × (civil_from_days (days_from_civil (civil_from_days z).year (civil_from_days z).month 1)
          ≡ record { year = (civil_from_days z).year; month = (civil_from_days z).month; day = 1 })
month_first z =
    let p = parts z in
    let first = from_parts p.era p.yoe p.mp 0 p.year_fits p.month_fits in
    let number : days_from_civil (civil_from_days z).year (civil_from_days z).month 1 + 719_468
        ≡ month_base p =
      rw p.civil (omega (arith, first, p.after_epoch)) in
    (omega (arith, number, p.sum), rewound _ p number)
