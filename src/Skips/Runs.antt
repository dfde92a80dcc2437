-- ===== src/Skips/Runs.antt =====
-- A reporter after three skips.
use log_transfer_analyzer.Prelude.{
  ℕ, ◌+◌, ◌≤◌, ◌≡◌, ◌%◌, refl, some, List, [], ◌∷◌, Bytes, codes, u64_mod, length, All,
}
use log_transfer_analyzer.LineParser.{unknown_module, bad_frame}
use log_transfer_analyzer.Skips.{Skip, empty_reporter, record_skips, count, module_name_in}
use log_transfer_analyzer.Skips.Sums.{sum_of_counts, sum_of_names, record_skips_sums}
use log_transfer_analyzer.Skips.Limits.{record_skips_bounded}

abbrev skips : List Skip
skips =
    record { reason = unknown_module; offset = 0; text = codes "[t][1][2][3] BYDA::BeyondLimit: x" }
    ∷ record { reason = bad_frame; offset = 34; text = codes "garbage" }
    ∷ record { reason = unknown_module; offset = 42; text = codes "[t][1][2][3] BYDA::Other: y" }
    ∷ []

beyond_limit_name :
    module_name_in (codes "[t][1][2][3] BYDA::BeyondLimit: x") ≡ some (codes "BeyondLimit")
unfolding module_name_in
beyond_limit_name = refl

record_skips_sums_example :
    ((record_skips empty_reporter skips).total
      ≡ sum_of_counts (record_skips empty_reporter skips).counts % u64_mod)
    × ((sum_of_names (record_skips empty_reporter skips).unknown_modules
            + (record_skips empty_reporter skips).unlisted_unknown_lines)
          % u64_mod
        ≡ count (record_skips empty_reporter skips) unknown_module % u64_mod)
record_skips_sums_example = record_skips_sums skips

record_skips_bounded_example :
    (length (record_skips empty_reporter skips).samples ≤ 100)
    × All (λ s. length s.text ≤ 800) (record_skips empty_reporter skips).samples
    × (length (record_skips empty_reporter skips).unknown_modules ≤ 50)
    × All
        (λ (entry : Bytes × ℕ). length entry.0 ≤ 256)
        (record_skips empty_reporter skips).unknown_modules
record_skips_bounded_example = record_skips_bounded skips
