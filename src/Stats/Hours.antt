-- ===== src/Stats/Hours.antt =====
-- The hour keys: `makeHourKey` and `formatHourKey`.
use log_transfer_analyzer.Prelude.{
  ℕ, ◌+◌, ◌*◌, ◌/◌, ◌%◌, ◌<◌, ◌≡◌, refl, sym, subst, ◌++◌, ◌∷◌, get_or, length, Bytes, u64_mod,
  arith,
}
use log_transfer_analyzer.Stats.{make_hour_key, format_hour_key, digits}
use log_transfer_analyzer.LineParser.Calendar.{digits_to_int}

-- A text of the form `YYYY-MM-DD HH` that says this hour.
pub record Says (year month day hour : ℕ) (text : Bytes) : Type 0 where
  pub long : length text ≡ 13
  pub says_year : digits_to_int text 0 4 ≡ year
  pub first_dash : get_or text 4 0 ≡ b'-'
  pub says_month : digits_to_int text 5 2 ≡ month
  pub second_dash : get_or text 7 0 ≡ b'-'
  pub says_day : digits_to_int text 8 2 ≡ day
  pub blank : get_or text 10 0 ≡ b' '
  pub says_hour : digits_to_int text 11 2 ≡ hour

module _ (year month day hour : ℕ) (small_year : year < 10000) (small_month : month < 100)
    (small_day : day < 100) (small_hour : hour < 100) where
  written : Bytes
  written =
      digits 4 year ++ (b'-' ∷ digits 2 month ++ (b'-' ∷ digits 2 day ++ (b' ' ∷ digits 2 hour)))

  written-Says : Says year month day hour written
  unfolding written digits
  written-Says = record {
    long = refl;
    says_year = omega arith;
    first_dash = refl;
    says_month = omega arith;
    second_dash = refl;
    says_day = omega arith;
    blank = refl;
    says_hour = omega arith;
  }

  format-make_hour_key_lem : format_hour_key (make_hour_key year month day hour) ≡ written
  unfolding format_hour_key make_hour_key written
  format-make_hour_key_lem =
      let key = (year * 1000000 + month * 10000 + day * 100 + hour) % u64_mod in
      let y : key / 1000000 ≡ year = omega arith in
      let m : key / 10000 % 100 ≡ month = omega arith in
      let d : key / 100 % 100 ≡ day = omega arith in
      let h : key % 100 ≡ hour = omega arith in rw (y, m, d, h) refl

  -- The key of an hour, its year below 10,000 and its month, day and hour below 100, is written as
  -- `YYYY-MM-DD HH`: the reader of digits that the parser has for timestamps reads the year, the
  -- month, the day and the hour back from their places, with dashes and a blank between them.
  pub format-make_hour_key :
      Says year month day hour (format_hour_key (make_hour_key year month day hour))
  format-make_hour_key =
      subst (Says year month day hour) (sym format-make_hour_key_lem) written-Says
