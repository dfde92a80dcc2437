-- ===== src/Table/Runs.antt =====
-- Numbers and rows of a sample table.
use log_transfer_analyzer.Prelude.{◌≡◌, refl, List, [], ◌∷◌, codes}
use log_transfer_analyzer.LineParser.{unknown_module, bad_frame, ctrl_char}
use log_transfer_analyzer.Skips.{Reporter, empty_reporter}
use log_transfer_analyzer.Skips.Sums.{sum_of_counts}
use log_transfer_analyzer.Stats.{Bucket}
use log_transfer_analyzer.Stats.Session.{sum_of_all}
use log_transfer_analyzer.Table.{decimal, to_text, for_each_bucket, reason_rows}
use log_transfer_analyzer.Table.Rows.{
  sum_of_rows, for_each_bucket_sum, sum_of_reasons, reason_rows_sum,
}

number_text : to_text 137500 ≡ codes "137500"
unfolding decimal
number_text = refl

abbrev sample_buckets : List Bucket
sample_buckets =
    [] ∷ ((2026061922, 3) ∷ []) ∷ [] ∷ [] ∷ ((2026061922, 1) ∷ (2026061923, 4) ∷ []) ∷ []

for_each_bucket_sum_example :
    sum_of_rows (for_each_bucket sample_buckets) ≡ sum_of_all sample_buckets
for_each_bucket_sum_example = for_each_bucket_sum sample_buckets refl

-- Three reasons occurred; they are listed by their codes.
abbrev sample_reporter : Reporter
sample_reporter = record empty_reporter {
  counts = 0 ∷ 0 ∷ 2 ∷ 1 ∷ 0 ∷ 0 ∷ 0 ∷ 0 ∷ 0 ∷ 5 ∷ 0 ∷ [];
  total = 8;
}

sample_reasons :
    reason_rows sample_reporter ≡ (bad_frame, 1) ∷ (ctrl_char, 2) ∷ (unknown_module, 5) ∷ []
unfolding reason_rows
sample_reasons = refl

reason_rows_sum_example :
    sum_of_reasons (reason_rows sample_reporter) ≡ sum_of_counts sample_reporter.counts
reason_rows_sum_example = reason_rows_sum sample_reporter refl
