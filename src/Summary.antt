-- ===== src/Summary.antt =====
-- client/src/service/ResultSummary.cpp: what the client reads out of the result table.
pub mod Counts
mod Runs
use log_transfer_analyzer.Prelude.{
  ℕ, zero, suc, ◌+◌, ◌-◌, Bool, true, false, not, ◌&&◌, ◌||◌, List, [], ◌∷◌, ◌++◌, Option, none,
  some, ◌==◌, ltb, leb, if◌then◌else◌, length, take, drop, min, add_u64, u64_mod, Bytes, codes,
  starts_with, find_text, same_text,
}
use log_transfer_analyzer.LineParser.Calendar.{digits_value}
use log_transfer_analyzer.LineParser.Fields.{only_digits}
use log_transfer_analyzer.Table.{to_text, sort_by}
use log_transfer_analyzer.Skips.Report.{name_before}

abbrev pub is_blank : ℕ → Bool
is_blank c = (c == b' ') || (c == b'\t')

-- The two loops of `trim`.
abbrev trim_front : Bytes → Bytes
trim_front [] = []
trim_front (c ∷ text) = let rest = trim_front text in if is_blank c then rest else c ∷ text

abbrev trim_back : Bytes → Bytes
trim_back [] = []
trim_back (c ∷ text) = elim (trim_back text) [
  | [] ↦ if is_blank c || (c == b'\r') then [] else c ∷ []
  | d ∷ rest ↦ c ∷ d ∷ rest
]

abbrev trim : Bytes → Bytes
trim text = trim_back (trim_front text)

-- `parseCount`: `from_chars` reads all characters just if they are digits.
pub parse_count : Bytes → Option ℕ
parse_count token =
    let text = trim token in
    let value = digits_value 0 text in
    if length text == 0
    then none
    else if only_digits text && ltb value u64_mod
    then some value
    else none

-- `ResultSummary`.
pub record ResultSummary : Type 0 where
  pub has_total : Bool
  pub total_lines : ℕ
  pub skipped_lines : ℕ
  pub reasons : List (Bytes × ℕ)

-- The locals of `summarizeResultCsv`.
pub record Reading : Type 0 where
  pub summary : ResultSummary
  pub in_metric_block : Bool
  pub have_skipped : Bool

abbrev begun : Reading
begun = record {
  summary = record { has_total = false; total_lines = 0; skipped_lines = 0; reasons = [] };
  in_metric_block = false;
  have_skipped = false;
}

abbrev is_some : Option ℕ → Bool
is_some none = false
is_some (some n) = true

abbrev or_else : Option ℕ → ℕ → ℕ
or_else none n = n
or_else (some m) n = m

abbrev with_reason : ResultSummary → Bytes → Option ℕ → ResultSummary
with_reason s name none = s
with_reason s name (some n) = record s { reasons = s.reasons ++ ((drop 12 name, n) ∷ []) }

-- The tests on the name of a row.
abbrev read_row : Reading → Bytes → Bytes → Reading
read_row r name value =
    let parsed = parse_count value in
    let s = r.summary in
    if same_text name (codes "total_lines")
    then record r {
      summary = record s { has_total = is_some parsed; total_lines = or_else parsed s.total_lines };
    }
    else if same_text name (codes "skipped_lines")
    then record r {
      summary = record s { skipped_lines = or_else parsed s.skipped_lines };
      have_skipped = is_some parsed;
    }
    else if ltb 12 (length name) && starts_with (codes "skip_reason_") name
    then record r { summary = with_reason s name parsed }
    else r

-- A line of the second block that is not empty.
abbrev read_metric : Reading → Bytes → Reading
read_metric r line = elim (find_text line (codes ",") 0) [
  | none ↦ r
  | some comma ↦ read_row r (trim (take comma line)) (drop (comma + 1) line)
]

-- The pieces between newlines, the one behind the last newline included.
abbrev pub split_lines : Bytes → List Bytes
split_lines [] = [] ∷ []
split_lines (c ∷ csv) = elim (split_lines csv) [
  | [] ↦ []
  | line ∷ lines ↦ if c == b'\n' then [] ∷ line ∷ lines else (c ∷ line) ∷ lines
]

-- The loop.
abbrev read_lines : Reading → List Bytes → Reading
read_lines r [] = r
read_lines r (piece ∷ pieces) =
    let line = trim piece in
    let waiting =
      read_lines (record r { in_metric_block = same_text line (codes "metric,value") }) pieces in
    let reading = read_lines (read_metric r line) pieces in
    if not r.in_metric_block then waiting else if length line == 0 then r else reading

abbrev pub sum_of_read : ℕ → List (Bytes × ℕ) → ℕ
sum_of_read total [] = total
sum_of_read total ((name, n) ∷ reasons) = sum_of_read (add_u64 total n) reasons

-- `summarizeResultCsv`.
pub summarize_result_csv : Bytes → ResultSummary
summarize_result_csv csv =
    let r = read_lines begun (split_lines csv) in
    let s = r.summary in
    record s {
      skipped_lines = if r.have_skipped then s.skipped_lines else sum_of_read 0 s.reasons;
      reasons = sort_by name_before s.reasons;
    }

-- The loop over the shown reasons, from the second on.
abbrev more_reasons : List (Bytes × ℕ) → Bytes
more_reasons [] = []
more_reasons ((name, n) ∷ reasons) =
    codes ", " ++ (name ++ (codes " " ++ (to_text n ++ more_reasons reasons)))

abbrev shown_reasons : List (Bytes × ℕ) → Bytes
shown_reasons [] = []
shown_reasons ((name, n) ∷ reasons) = name ++ (codes " " ++ (to_text n ++ more_reasons reasons))

-- `formatSkipWarning`.
pub format_skip_warning : ResultSummary → Bytes
format_skip_warning s =
    let of_total = if s.has_total then codes " of " ++ to_text s.total_lines else [] in
    let text = to_text s.skipped_lines ++ (of_total ++ codes " lines were skipped") in
    let hidden =
      if ltb 3 (length s.reasons)
      then codes ", +" ++ (to_text (length s.reasons - 3) ++ codes " more")
      else [] in
    if s.skipped_lines == 0
    then []
    else if length s.reasons == 0
    then text
    else text ++ (codes " - " ++ (shown_reasons (take 3 s.reasons) ++ hidden))
