-- ===== src/LineParser/Days.antt =====
-- `daysFromCivil` counts the days of the calendar.
use log_transfer_analyzer.Prelude.{
  ℕ, zero, suc, ◌+◌, ◌≤◌, ◌<◌, ◌≡◌, refl, ltb, if◌then◌else◌, arith,
}
use native.Mathlib.Decide.{dec_lt}
use log_transfer_analyzer.LineParser.Calendar.{days_from_civil, is_leap_year, days_in_month}

-- Inside a month.
day_after : (y m d : ℕ) → 1 ≤ d → days_from_civil y m (d + 1) ≡ days_from_civil y m d + 1
unfolding days_from_civil
day_after y m d h = omega arith

-- From the last day of December.
year_after : (y : ℕ) → days_from_civil (y + 1) 1 1 ≡ days_from_civil y 12 31 + 1
unfolding days_from_civil
year_after y = omega arith

-- From the last day of February.
march_after : (y : ℕ) → days_from_civil y 3 1 ≡ days_from_civil y 2 (days_in_month y 2) + 1
unfolding days_from_civil days_in_month is_leap_year
march_after y = ground arith

-- From the last day of a month to the first of the next one.
month_after :
    (y m : ℕ)
    → 1 ≤ m
    → m < 12
    → days_from_civil y (m + 1) 1 ≡ days_from_civil y m (days_in_month y m) + 1
unfolding days_from_civil days_in_month
month_after y zero low high = absurd (omega arith)
month_after y (suc zero) low high = omega arith
month_after y (suc (suc zero)) low high = march_after y
month_after y (suc (suc (suc zero))) low high = omega arith
month_after y (suc (suc (suc (suc zero)))) low high = omega arith
month_after y (suc (suc (suc (suc (suc zero))))) low high = omega arith
month_after y (suc (suc (suc (suc (suc (suc zero)))))) low high = omega arith
month_after y (suc (suc (suc (suc (suc (suc (suc zero))))))) low high = omega arith
month_after y (suc (suc (suc (suc (suc (suc (suc (suc zero)))))))) low high = omega arith
month_after y (suc (suc (suc (suc (suc (suc (suc (suc (suc zero))))))))) low high = omega arith
month_after y (suc (suc (suc (suc (suc (suc (suc (suc (suc (suc zero)))))))))) low high =
    omega arith
month_after y (suc (suc (suc (suc (suc (suc (suc (suc (suc (suc (suc zero))))))))))) low high =
    omega arith
month_after y (suc (suc (suc (suc (suc (suc (suc (suc (suc (suc (suc (suc m)))))))))))) low high =
    absurd (omega arith)

december_days : (y : ℕ) → days_in_month y 12 ≡ 31
unfolding days_in_month
december_days y = refl

-- The day behind a date of the calendar.
abbrev pub next_day : ℕ → ℕ → ℕ → ℕ × ℕ × ℕ
next_day y m d =
    if ltb d (days_in_month y m)
    then (y, m, d + 1)
    else if ltb m 12
    then (y, m + 1, 1)
    else (y + 1, 1, 1)

-- For a date on the calendar, the number of the next day, over the ends of months and years and
-- in leap years, is one more.
pub days_from_civil-next_day :
    (y m d : ℕ)
    → 1 ≤ m
    → m ≤ 12
    → 1 ≤ d
    → d ≤ days_in_month y m
    → let (y', m', d') = next_day y m d in days_from_civil y' m' d' ≡ days_from_civil y m d + 1
days_from_civil-next_day y m d m_low m_high d_low d_high = elim (dec_lt d (days_in_month y m)) [
  | yes h ↦ ground (arith, day_after y m d d_low)
  | no h ↦
      let last : d ≡ days_in_month y m = omega arith in
      elim (dec_lt m 12) [
        | yes k ↦ ground (arith, last, month_after y m m_low k)
        | no k ↦
            let december : m ≡ 12 = omega arith in
            ground (arith, last, december, december_days y, year_after y)
      ]
]
