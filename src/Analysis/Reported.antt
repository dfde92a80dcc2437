-- ===== src/Analysis/Reported.antt =====
-- The result table of a session accounts for every line.
use log_transfer_analyzer.Prelude.{
  ℕ, ◌+◌, ◌%◌, ◌≡◌, refl, Bool-cases, inl, inr, List, [], ◌∷◌, Bytes, inc_u64, u64_mod, arith,
}
use log_transfer_analyzer.Doubles.{Doubles}
use log_transfer_analyzer.LineParser.{ParsedLine, map_limit}
use log_transfer_analyzer.LineParser.Fields.{Outcome, accepted, skipped}
use log_transfer_analyzer.LineParser.Stages.{parse}
use log_transfer_analyzer.Reassembler.{Line, run}
use log_transfer_analyzer.Stats.{record_line}
use log_transfer_analyzer.Skips.Sums.{IsSums, record_skip-IsSums}
use log_transfer_analyzer.Table.{for_each_bucket, reason_rows}
use log_transfer_analyzer.Table.Rows.{
  sum_of_rows, for_each_bucket_sum, sum_of_reasons, reason_rows_sum,
}
use log_transfer_analyzer.Analysis.{Totals, judged, on_line, on_lines, fresh_totals, analyse}
use log_transfer_analyzer.Analysis.Lines.{analyse-run}
use log_transfer_analyzer.Analysis.Balance.{analyse_balanced, analyse-IsCounts}

module _ (D : Doubles) where
  judged-IsSums :
      (t : Totals D) (line : Line) (o : Outcome (ParsedLine D.Carrier))
      → IsSums t.reporter
      → IsSums (judged D t line o).reporter
  judged-IsSums t line (skipped reason) v =
      record_skip-IsSums t.reporter reason line.offset line.text v
  judged-IsSums t line (accepted parsed) v = elim (Bool-cases (record_line D t.stats parsed).0) [
    | inl e ↦ rw e v
    | inr e ↦ rw e (record_skip-IsSums t.reporter map_limit line.offset line.text v)
  ]

  on_lines-IsSums :
      (lines : List Line) (t : Totals D) → IsSums t.reporter → IsSums (on_lines D t lines).reporter
  unfolding on_lines on_line
  on_lines-IsSums [] t v = v
  on_lines-IsSums (line ∷ lines) t v = on_lines-IsSums lines (on_line D t line) (
      judged-IsSums
        (record t {
          anchor = (parse D t.anchor line.text line.too_long).1;
          total_lines = inc_u64 t.total_lines;
        })
        line (parse D t.anchor line.text line.too_long).0 v)

  -- In the table of a session the counts by module and hour and the counts by reason add up to the
  -- total of the lines, modulo 2 ^ 64.
  pub analyse_table :
      (max_len : ℕ) (chunks : List Bytes)
      → let t = analyse D max_len chunks in
        (sum_of_rows (for_each_bucket t.stats.buckets) + sum_of_reasons (reason_rows t.reporter))
          % u64_mod
        ≡ t.total_lines % u64_mod
  unfolding fresh_totals
  analyse_table max_len chunks =
      let (eleven, total, _) =
        rw (← analyse-run D max_len chunks) at
          (on_lines-IsSums (run max_len chunks) (fresh_totals D) (refl, refl, refl)) in
      let t = analyse D max_len chunks in
      omega (
        arith,
        total,
        reason_rows_sum t.reporter eleven,
        for_each_bucket_sum t.stats.buckets (analyse-IsCounts D max_len chunks).five,
        (analyse_balanced D max_len chunks).0,
      )
