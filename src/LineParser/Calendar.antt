-- ===== src/LineParser/Calendar.antt =====
-- server/src/parser/LogLineParser.cpp: the calendar and the timestamp. Days and seconds are counted
-- from 719468 + 146097 days (an era of 400 years) before the source's origin, so that none is
-- negative; the parser uses only differences.
use log_transfer_analyzer.Prelude.{
  ℕ, zero, suc, ◌+◌, ◌-◌, ◌*◌, ◌/◌, ◌%◌, Bool, true, false, not, ◌&&◌, ◌||◌, [], ◌∷◌, Option, none,
  some, ◌==◌, ltb, leb, if◌then◌else◌, length, get_or, drop, slice, Bytes,
}

-- `daysFromCivil`, with `y` and the era one era later.
unfoldable pub days_from_civil : ℕ → ℕ → ℕ → ℕ
days_from_civil y m d =
    let shifted = y + 400 - (if leb m 2 then 1 else 0) in
    let era = shifted / 400 in
    let yoe = shifted - era * 400 in
    let doy = (153 * (if ltb 2 m then m - 3 else m + 9) + 2) / 5 + d - 1 in
    era * 146097 + (yoe * 365 + yoe / 4 - yoe / 100 + doy)

-- `isLeapYear`.
unfoldable pub is_leap_year : ℕ → Bool
is_leap_year y = ((y % 4 == 0) && not (y % 100 == 0)) || (y % 400 == 0)

-- `daysInMonth`.
unfoldable pub days_in_month : ℕ → ℕ → ℕ
days_in_month y m =
    if (m == 2) && is_leap_year y
    then 29
    else get_or (31 ∷ 28 ∷ 31 ∷ 30 ∷ 31 ∷ 30 ∷ 31 ∷ 31 ∷ 30 ∷ 31 ∷ 30 ∷ 31 ∷ []) (m - 1) 0

abbrev pub is_digit : ℕ → Bool
is_digit c = leb b'0' c && leb c b'9'

-- The loop of `allDigitsAt`; a character that is not there is no digit.
abbrev pub all_digits : ℕ → Bytes → Bool
all_digits zero text = true
all_digits (suc n) [] = false
all_digits (suc n) (c ∷ text) = is_digit c && all_digits n text

abbrev pub all_digits_at : Bytes → ℕ → ℕ → Bool
all_digits_at s pos n = all_digits n (drop pos s)

-- The loop of `digitsToInt`.
abbrev pub digits_value : ℕ → Bytes → ℕ
digits_value v [] = v
digits_value v (c ∷ text) = digits_value (v * 10 + (c - b'0')) text

abbrev pub digits_to_int : Bytes → ℕ → ℕ → ℕ
digits_to_int s pos n = digits_value 0 (slice s pos n)

-- What `parseTimestamp` writes.
pub record Timestamp : Type 0 where
  pub year : ℕ
  pub month : ℕ
  pub day : ℕ
  pub hour : ℕ
  pub abs_seconds : ℕ

-- The two tests of the format.
abbrev has_separators : Bytes → Bool
has_separators ts =
    (length ts == 26)
    && (get_or ts 4 0 == b'-')
    && (get_or ts 7 0 == b'-')
    && (get_or ts 10 0 == b'_')
    && (get_or ts 13 0 == b':')
    && (get_or ts 16 0 == b':')
    && (get_or ts 19 0 == b'.')

abbrev has_digits : Bytes → Bool
has_digits ts =
    all_digits_at ts 0 4
    && all_digits_at ts 5 2
    && all_digits_at ts 8 2
    && all_digits_at ts 11 2
    && all_digits_at ts 14 2
    && all_digits_at ts 17 2
    && all_digits_at ts 20 6

-- The test of the calendar.
abbrev pub on_calendar : ℕ → ℕ → ℕ → ℕ → ℕ → ℕ → Bool
on_calendar year month day hour minute second =
    leb 1 month
    && leb month 12
    && leb 1 day
    && leb day (days_in_month year month)
    && leb hour 23
    && leb minute 59
    && leb second 59

-- `parseTimestamp`.
unfoldable pub parse_timestamp : Bytes → Option Timestamp
parse_timestamp ts =
    let year = digits_to_int ts 0 4 in
    let month = digits_to_int ts 5 2 in
    let day = digits_to_int ts 8 2 in
    let hour = digits_to_int ts 11 2 in
    let minute = digits_to_int ts 14 2 in
    let second = digits_to_int ts 17 2 in
    if not (has_separators ts)
    then none
    else if not (has_digits ts)
    then none
    else if not (on_calendar year month day hour minute second)
    then none
    else some (record {
      year = year;
      month = month;
      day = day;
      hour = hour;
      abs_seconds = days_from_civil year month day * 86400 + hour * 3600 + minute * 60 + second;
    })
