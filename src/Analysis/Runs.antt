-- ===== src/Analysis/Runs.antt =====
-- A payload in two chunks through the pipeline.
use log_transfer_analyzer.Prelude.{
  ℕ, ◌+◌, ◌-◌, ◌*◌, ◌/◌, ◌%◌, ◌≡◌, true, leb, ltb, List, [], ◌∷◌, some, Bytes, codes, length,
  u64_mod, arith,
}
use log_transfer_analyzer.Doubles.{Doubles}
use log_transfer_analyzer.LineParser.Calendar.{digits_value}
use log_transfer_analyzer.LineParser.Fields.{leading_digits}
use log_transfer_analyzer.Reassembler.Reference.{lines}
use log_transfer_analyzer.Reassembler.Stream.{joined}
use log_transfer_analyzer.Stats.Session.{sum_of_all, beam_sum}
use log_transfer_analyzer.Analysis.{analyse, on_lines, fresh_totals}
use log_transfer_analyzer.Analysis.Lines.{analyse-lines}
use log_transfer_analyzer.Table.{for_each_bucket, reason_rows}
use log_transfer_analyzer.Table.Rows.{sum_of_rows, sum_of_reasons}
use log_transfer_analyzer.Analysis.Reported.{analyse_table}
use log_transfer_analyzer.Analysis.Balance.{analyse_balanced}

abbrev whole_numbers : Doubles
whole_numbers = record {
  Carrier = ℕ;
  zero_double = 0;
  plus = λ a b. a + b;
  divide = λ a b. a / b;
  of_u64 = λ n. n;
  minus = λ a b. a - b;
  times = λ a b. a * b;
  to_u64 = λ n. n;
  at_least = λ a b. leb b a;
  less = ltb;
  is_finite = λ a. true;
  from_chars = λ s. some (digits_value 0 (leading_digits s), length (leading_digits s));
}

abbrev payload : List Bytes
payload =
    codes "[2026-06-19_22:15:30.123456][1][2][3] BYDA::BeamSteerCtrlUn"
    ∷ codes "itImpl: spd[137500]\r\ngarbage"
    ∷ []

analyse-lines_example :
    analyse whole_numbers 200 payload
    ≡ on_lines whole_numbers (fresh_totals whole_numbers) (lines 200 (joined payload))
analyse-lines_example = analyse-lines whole_numbers 200 payload (omega arith)

analyse_balanced_example :
    ((sum_of_all (analyse whole_numbers 200 payload).stats.buckets
          + (analyse whole_numbers 200 payload).reporter.total)
        % u64_mod
      ≡ (analyse whole_numbers 200 payload).total_lines % u64_mod)
    × (beam_sum (analyse whole_numbers 200 payload).stats.buckets % u64_mod
        ≡ ((analyse whole_numbers 200 payload).stats.valid_spd_samples
            + (analyse whole_numbers 200 payload).stats.excluded_spd_samples
            + (analyse whole_numbers 200 payload).stats.missing_spd_samples)
          % u64_mod)
analyse_balanced_example = analyse_balanced whole_numbers 200 payload

analyse_table_example :
    (sum_of_rows (for_each_bucket (analyse whole_numbers 200 payload).stats.buckets)
        + sum_of_reasons (reason_rows (analyse whole_numbers 200 payload).reporter))
      % u64_mod
    ≡ (analyse whole_numbers 200 payload).total_lines % u64_mod
analyse_table_example = analyse_table whole_numbers 200 payload
