-- ===== src/Skips/Report.antt =====
-- server/src/parser/SkipReporter.cpp: the text that `writeReport` writes.
use log_transfer_analyzer.Prelude.{
  ℕ, ◌-◌, Bool, [], ◌++◌, ◌==◌, ltb, if◌then◌else◌, length, Bytes, codes, less_text,
}
use log_transfer_analyzer.LineParser.{SkipReason, unknown_module, skip_reason_code}
use log_transfer_analyzer.Skips.{Reporter, Sample, count, max_unknown_modules, max_skip_samples}
use log_transfer_analyzer.Table.{to_text, all_text, all_reasons, sort_by}

abbrev reason_line : Reporter → SkipReason → Bytes
reason_line r reason =
    skip_reason_code reason ++ (codes " " ++ (to_text (count r reason) ++ codes "\n"))

-- The comparison of the names: by count, the largest first, then by name.
abbrev pub name_before : Bytes × ℕ → Bytes × ℕ → Bool
name_before (name, n) (other, m) = if n == m then less_text name other else ltb m n

abbrev name_line : Bytes × ℕ → Bytes
name_line (name, n) = name ++ (codes " " ++ (to_text n ++ codes "\n"))

abbrev unlisted_text : ℕ → Bytes
unlisted_text n =
    if ltb 0 n
    then codes "... "
      ++ (to_text n
          ++ (codes " more skipped lines whose module name is not listed (distinct-name limit "
              ++ (to_text max_unknown_modules ++ codes ")\n")))
    else []

abbrev names_text : Reporter → Bytes
names_text r =
    if ltb 0 (count r unknown_module)
    then codes "\n[Unknown module names]\n"
      ++ (all_text name_line (sort_by name_before r.unknown_modules)
          ++ unlisted_text r.unlisted_unknown_lines)
    else []

abbrev sample_line : Sample → Bytes
sample_line s =
    codes "["
    ++ (skip_reason_code s.reason
        ++ (codes "] offset=" ++ (to_text s.offset ++ (codes " | " ++ (s.text ++ codes "\n")))))

abbrev hidden_text : Reporter → Bytes
hidden_text r =
    if ltb (length r.samples) r.total
    then codes "... "
      ++ (to_text (r.total - length r.samples)
          ++ codes " more skipped lines not shown (sample limit)\n")
    else []

-- `writeReport`, for a file that can be written.
pub report_text : Reporter → Bytes
report_text r =
    codes "=== Skip Report ===\n"
    ++ (codes "Total skipped lines: "
        ++ (to_text r.total
            ++ (codes "\n\n[Counts by reason]\n"
                ++ (all_text (reason_line r) all_reasons
                    ++ (names_text r
                        ++ (codes "\n[First "
                            ++ (to_text max_skip_samples
                                ++ (codes " skipped lines: reason, byte offset, raw prefix]\n"
                                    ++ (all_text sample_line r.samples ++ hidden_text r)))))))))
