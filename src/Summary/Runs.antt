-- ===== src/Summary/Runs.antt =====
-- A small table of the server, read by the client.
use log_transfer_analyzer.Prelude.{◌≡◌, refl, true, some, [], ◌∷◌, codes, arith}
use log_transfer_analyzer.Table.{to_text, decimal}
use log_transfer_analyzer.Summary.{
  ResultSummary, parse_count, summarize_result_csv, format_skip_warning,
}
use log_transfer_analyzer.Summary.Counts.{parse_count-to_text}

parse_count-to_text_example : parse_count (to_text 3483528) ≡ some 3483528
parse_count-to_text_example = parse_count-to_text 3483528 (omega arith)

abbrev sample : ResultSummary
sample = record {
  has_total = true;
  total_lines = 100;
  skipped_lines = 5;
  reasons = (codes "BAD_FRAME", 3) ∷ (codes "CTRL_CHAR", 2) ∷ [];
}

sample_summary :
    summarize_result_csv (
      codes
        "module,hour,count\n\nmetric,value\ntotal_lines,100\r\nskipped_lines,5\nskip_reason_CTRL_CHAR,2\nskip_reason_BAD_FRAME,3\n")
    ≡ sample
unfolding summarize_result_csv parse_count
sample_summary = refl

sample_warning :
    format_skip_warning sample ≡ codes "5 of 100 lines were skipped - BAD_FRAME 3, CTRL_CHAR 2"
unfolding format_skip_warning decimal
sample_warning = refl
