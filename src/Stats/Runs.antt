-- ===== src/Stats/Runs.antt =====
-- Sample lines through the collector, with natural numbers as speeds.
use log_transfer_analyzer.Prelude.{
  ℕ, ◌≤◌, ◌+◌, ◌-◌, ◌*◌, ◌/◌, ◌%◌, ◌≡◌, refl, true, false, not, ◌&&◌, ◌==◌, leb, ltb, if◌then◌else◌,
  List, [], ◌∷◌, none, inl, inr, inc_u64, u64_mod, All, codes, arith,
}
use log_transfer_analyzer.Doubles.{Doubles}
use log_transfer_analyzer.LineParser.{
  ParsedLine, beam_steer_ctrl_unit_impl, antenna_profile_spec, module_index,
}
use log_transfer_analyzer.Stats.{
  record_line, record_all, cleared, make_hour_key, format_hour_key, digits, hour_key,
  max_stats_entries,
}
use log_transfer_analyzer.Stats.Samples.{record_line_counts, count_of, is_refused, entries}
use log_transfer_analyzer.Stats.Buckets.{IsAscending}
use log_transfer_analyzer.Stats.Session.{
  record_all_balanced, beam_sum, record_all_bounded, cleared-IsCounts,
}
use log_transfer_analyzer.Stats.Hours.{Says, format-make_hour_key}

abbrev numbers : Doubles
numbers = record {
  Carrier = ℕ;
  zero_double = 0;
  plus = λ a b. a + b;
  divide = λ a b. a / b;
  of_u64 = λ n. n;
  minus = λ a b. a - b;
  times = λ a b. a * b;
  to_u64 = λ n. n;
  at_least = λ a b. leb b a;
  less = ltb;
  is_finite = λ a. true;
  from_chars = λ s. none;
}

abbrev beam_line : ParsedLine ℕ
beam_line = record {
  module_id = beam_steer_ctrl_unit_impl;
  year = 2026;
  month = 6;
  day = 19;
  hour = 22;
  has_spd = true;
  spd_in_range = true;
  spd = 137500;
}

abbrev antenna_line : ParsedLine ℕ
antenna_line = record beam_line { module_id = antenna_profile_spec; has_spd = false }

abbrev lines : List (ParsedLine ℕ)
lines =
    beam_line
    ∷ antenna_line
    ∷ record beam_line { spd_in_range = false }
    ∷ record beam_line { has_spd = false }
    ∷ []

record_all_balanced_example :
    beam_sum (record_all numbers (cleared numbers) lines).buckets % u64_mod
    ≡ ((record_all numbers (cleared numbers) lines).valid_spd_samples
        + (record_all numbers (cleared numbers) lines).excluded_spd_samples
        + (record_all numbers (cleared numbers) lines).missing_spd_samples)
      % u64_mod
record_all_balanced_example =
    record_all_balanced numbers lines (inl refl, (inr refl, (inl refl, (inl refl, tt))))

record_line_counts_example :
    ((record_line numbers (cleared numbers) beam_line).0
      ≡ not (
          is_refused
            (cleared numbers).buckets
            beam_steer_ctrl_unit_impl
            (hour_key numbers beam_line)))
    × (count_of
          (record_line numbers (cleared numbers) beam_line).1
          beam_steer_ctrl_unit_impl
          2026061922
        ≡ (if (record_line numbers (cleared numbers) beam_line).0
              && (module_index beam_steer_ctrl_unit_impl == module_index beam_steer_ctrl_unit_impl)
              && (hour_key numbers beam_line == 2026061922)
            then inc_u64 (count_of (cleared numbers) beam_steer_ctrl_unit_impl 2026061922)
            else count_of (cleared numbers) beam_steer_ctrl_unit_impl 2026061922))
record_line_counts_example =
    record_line_counts numbers (cleared numbers) beam_line (cleared-IsCounts numbers)
      beam_steer_ctrl_unit_impl 2026061922

hour_text : format_hour_key (make_hour_key 2026 6 19 22) ≡ codes "2026-06-19 22"
unfolding format_hour_key make_hour_key digits
hour_text = refl

format-make_hour_key_example : Says 2026 6 19 22 (format_hour_key (make_hour_key 2026 6 19 22))
format-make_hour_key_example =
    format-make_hour_key 2026 6 19 22 (omega arith) (omega arith) (omega arith) (omega arith)

record_all_bounded_example :
    All IsAscending (record_all numbers (cleared numbers) lines).buckets
    × (entries (record_all numbers (cleared numbers) lines).buckets ≤ max_stats_entries)
record_all_bounded_example = record_all_bounded numbers lines
