-- ===== src/LineParser/Runs.antt =====
-- Sample lines, with natural numbers for `double`.
use log_transfer_analyzer.Prelude.{
  ℕ, ◌+◌, ◌-◌, ◌*◌, ◌/◌, ◌≤◌, ◌≡◌, ◌⊎◌, ◌↔◌, refl, true, false, ◌==◌, leb, ltb, none, some, Bytes,
  codes, length, arith,
}
use log_transfer_analyzer.Doubles.{Doubles}
use log_transfer_analyzer.LineParser.{
  ParsedLine, beam_steer_ctrl_unit_impl, module_index, bad_frame, bad_timestamp,
}
use log_transfer_analyzer.LineParser.Calendar.{
  days_from_civil, is_leap_year, days_in_month, digits_value, parse_timestamp,
}
use log_transfer_analyzer.LineParser.Fields.{
  accepted, skipped, leading_digits, parse_int64_field, parse_double_field, find_field,
}
use log_transfer_analyzer.LineParser.Stages.{
  byte_stage, header_tokens, frame_of, module_named, speed_stage, module_stage, domain_stage,
  check_line, parse,
}
use log_transfer_analyzer.LineParser.Fields.{brackets_sane}
use log_transfer_analyzer.LineParser.Brackets.{Sane, brackets_sane_lem}
use log_transfer_analyzer.LineParser.Days.{next_day, days_from_civil-next_day}
use log_transfer_analyzer.LineParser.Accepted.{OnCalendar, InHour, IsNear, anchored, parse-accepted}

abbrev decimal : Doubles
decimal = record {
  Carrier = ℕ;
  zero_double = 0;
  plus = λ a b. a + b;
  divide = λ a b. a / b;
  of_u64 = λ n. n;
  minus = λ a b. a - b;
  times = λ a b. a * b;
  to_u64 = λ n. n;
  at_least = λ a b. leb b a;
  less = ltb;
  is_finite = λ a. true;
  from_chars = λ s. some (digits_value 0 (leading_digits s), length (leading_digits s));
}

abbrev beam_text : Bytes
beam_text = codes "[2026-06-19_22:15:30.123456][1][2][3] BYDA::BeamSteerCtrlUnitImpl: spd[137500]"

abbrev beam_line : ParsedLine ℕ
beam_line = record {
  module_id = beam_steer_ctrl_unit_impl;
  year = 2026;
  month = 6;
  day = 19;
  hour = 22;
  has_spd = true;
  spd_in_range = true;
  spd = 137500;
}

beam_accepted : (parse decimal none beam_text false).0 ≡ accepted beam_line
unfolding parse check_line byte_stage frame_of header_tokens parse_timestamp days_in_month
    is_leap_year domain_stage module_stage speed_stage module_named parse_int64_field
    parse_double_field find_field
beam_accepted = refl

-- Refused lines, each with its reason.
bad_day :
    (parse decimal none
      (codes "[2026-02-29_22:15:30.123456][1][2][3] BYDA::AntennaProfileSpec: x")
      false).0
    ≡ skipped bad_timestamp
unfolding parse check_line byte_stage frame_of header_tokens parse_timestamp days_in_month
    is_leap_year
bad_day = refl

garbage : (parse decimal none (codes "2026-02-29") false).0 ≡ skipped bad_frame
unfolding parse check_line byte_stage frame_of header_tokens
garbage = refl

-- An anchor at the start of the day.
abbrev midnight : ℕ
midnight = 886188 * 86400

near_accepted : (parse decimal (some midnight) beam_text false).0 ≡ accepted beam_line
unfolding parse check_line byte_stage frame_of header_tokens parse_timestamp days_in_month
    is_leap_year domain_stage module_stage speed_stage module_named parse_int64_field
    parse_double_field find_field days_from_civil
near_accepted = refl

parse-accepted_example :
    OnCalendar 2026 6 19 22
    × (((module_index beam_line.module_id == module_index beam_steer_ctrl_unit_impl) ≡ true)
        ⊎ (beam_line.has_spd ≡ false))
    × ((seconds : ℕ) × InHour 2026 6 19 22 seconds
        × IsNear (some midnight) seconds
        × ((parse decimal (some midnight) beam_text false).1 ≡ anchored (some midnight) seconds))
parse-accepted_example =
    parse-accepted decimal (some midnight) beam_text false beam_line near_accepted

leap : 28 ≤ days_in_month 2024 2
unfolding days_in_month is_leap_year
leap = omega arith

days_from_civil-next_day_example :
    days_from_civil (next_day 2024 2 28).0 (next_day 2024 2 28).1 (next_day 2024 2 28).2
    ≡ days_from_civil 2024 2 28 + 1
days_from_civil-next_day_example =
    days_from_civil-next_day 2024 2 28 (omega arith) (omega arith) (omega arith) leap

brackets_sane_lem_example : (brackets_sane (codes "spd[1], x") ≡ true) ↔ Sane (codes "spd[1], x")
brackets_sane_lem_example = brackets_sane_lem (codes "spd[1], x")
