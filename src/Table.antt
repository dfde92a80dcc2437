-- ===== src/Table.antt =====
-- server/src/csv/CsvBuilder.cpp: the result table as text. The order of the rows is that of
-- `forEachBucket` of server/src/stats/StatsCollector.h.
pub mod Numbers
pub mod Rows
mod Runs
use log_transfer_analyzer.Prelude.{
  ℕ, zero, suc, ◌+◌, ◌-◌, ◌*◌, ◌/◌, ◌%◌, Bool, true, false, not, List, [], ◌∷◌, ◌++◌, map, ltb, leb,
  if◌then◌else◌, get_or, Bytes, codes, less_text, u64_mod,
}
use log_transfer_analyzer.Doubles.{Doubles}
use log_transfer_analyzer.LineParser.{
  ModuleId, radar_track_node_state, antenna_profile_spec, beam_steer_ctrl_unit_impl,
  detection_task_runner, sector_scheduler_rts, module_name, SkipReason, line_too_long, empty_line,
  ctrl_char, bad_frame, bad_bracket, bad_timestamp, ts_out_of_range, bad_number, num_out_of_range,
  unknown_module, map_limit, skip_reason_code,
}
use log_transfer_analyzer.Stats.{
  Bucket, Collector, bucket_of, average_speed, format_hour_key, digits,
}
use log_transfer_analyzer.Skips.{Reporter, count}

-- `std::to_string`: the digits of a number, with `fuel` of them at most.
unfoldable pub decimal : ℕ → ℕ → Bytes
decimal zero n = []
decimal (suc fuel) n =
    let front = decimal fuel (n / 10) in
    if ltb n 10 then (b'0' + n) ∷ [] else front ++ ((b'0' + n % 10) ∷ [])

-- A 64-bit number has at most 20 digits.
abbrev pub to_text : ℕ → Bytes
to_text n = decimal 20 n

-- `std::sort`, for keys that are all different.
abbrev pub insert_by {ℓ} : {A : Type ℓ} → (A → A → Bool) → A → List A → List A
insert_by less x [] = x ∷ []
insert_by less x (y ∷ ys) =
    let later = insert_by less x ys in if less x y then x ∷ y ∷ ys else y ∷ later

abbrev pub sort_by {ℓ} : {A : Type ℓ} → (A → A → Bool) → List A → List A
sort_by less [] = []
sort_by less (x ∷ xs) = insert_by less x (sort_by less xs)

-- The order of the modules in `forEachBucket`.
abbrev module_order : List ModuleId
module_order =
    sort_by (λ a b. less_text (module_name a) (module_name b))
      (radar_track_node_state ∷ antenna_profile_spec ∷ beam_steer_ctrl_unit_impl
        ∷ detection_task_runner ∷ sector_scheduler_rts ∷ [])

-- A call of the callback of `forEachBucket`.
pub record Row : Type 0 where
  pub module_id : ModuleId
  pub hour : ℕ
  pub row_count : ℕ

abbrev bucket_rows : ModuleId → Bucket → List Row
bucket_rows id [] = []
bucket_rows id ((hour, n) ∷ bucket) =
    record { module_id = id; hour = hour; row_count = n } ∷ bucket_rows id bucket

abbrev rows_in : List ModuleId → List Bucket → List Row
rows_in [] buckets = []
rows_in (id ∷ ids) buckets = bucket_rows id (bucket_of buckets id) ++ rows_in ids buckets

-- `forEachBucket`: the calls of the callback, in order.
pub for_each_bucket : List Bucket → List Row
for_each_bucket buckets = rows_in module_order buckets

abbrev row_text : Row → Bytes
row_text row =
    module_name row.module_id
    ++ (codes ","
        ++ (format_hour_key row.hour ++ (codes "," ++ (to_text row.row_count ++ codes "\n"))))

abbrev pub all_text {ℓ} : {A : Type ℓ} → (A → Bytes) → List A → Bytes
all_text text [] = []
all_text text (x ∷ xs) = text x ++ all_text text xs

-- A row of the second block.
abbrev metric : Bytes → Bytes → Bytes
metric name value = name ++ (codes "," ++ (value ++ codes "\n"))

abbrev pub all_reasons : List SkipReason
all_reasons =
    line_too_long ∷ empty_line ∷ ctrl_char ∷ bad_frame ∷ bad_bracket ∷ bad_timestamp
    ∷ ts_out_of_range ∷ bad_number ∷ num_out_of_range ∷ unknown_module ∷ map_limit ∷ []

-- The first loop over the reasons: those that occurred, with their counts.
abbrev occurred : Reporter → List SkipReason → List (SkipReason × ℕ)
occurred r [] = []
occurred r (reason ∷ reasons) =
    let others = occurred r reasons in
    if ltb 0 (count r reason) then (reason, count r reason) ∷ others else others

-- The reasons in the order of their codes.
unfoldable pub reason_rows : Reporter → List (SkipReason × ℕ)
reason_rows r =
    sort_by (λ (a b : SkipReason × ℕ). less_text (skip_reason_code a.0) (skip_reason_code b.0))
      (occurred r all_reasons)

module _ (D : Doubles) where
  -- `formatFixed6`: the whole part and the rounded millionths, then their text.
  abbrev million : D.Carrier
  million = D.of_u64 1000000

  abbrev half : D.Carrier
  half = D.divide (D.of_u64 1) (D.of_u64 2)

  abbrev micros_of : D.Carrier → ℕ
  micros_of value =
      D.to_u64 (D.plus (D.times (D.minus value (D.of_u64 (D.to_u64 value))) million) half)

  pub format_fixed6 : D.Carrier → Bytes
  format_fixed6 value =
      let whole = D.to_u64 value in
      let micros = micros_of value in
      if not (D.less D.zero_double value)
      then codes "0.000000"
      else if leb 1000000 micros
      then to_text ((whole + 1) % u64_mod) ++ (codes "." ++ digits 6 (micros - 1000000))
      else to_text whole ++ (codes "." ++ digits 6 micros)

  -- `buildResultCsv`.
  pub build_result_csv : Collector D.Carrier → Reporter → ℕ → Bytes
  build_result_csv stats reporter total_lines =
      codes "module,hour,count\n"
      ++ (all_text row_text (for_each_bucket stats.buckets)
          ++ (codes "\n"
              ++ (codes "metric,value\n"
                  ++ (metric (codes "total_lines") (to_text total_lines)
                      ++ (metric (codes "avg_speed") (format_fixed6 (average_speed D stats))
                          ++ (metric (codes "valid_spd_samples") (to_text stats.valid_spd_samples)
                              ++ (metric (codes "excluded_spd_samples")
                                    (to_text stats.excluded_spd_samples)
                                  ++ (metric (codes "missing_spd_samples")
                                        (to_text stats.missing_spd_samples)
                                      ++ (metric (codes "skipped_lines") (to_text reporter.total)
                                          ++ all_text
                                              (λ (row : SkipReason × ℕ).
                                                metric
                                                  (codes "skip_reason_" ++ skip_reason_code row.0)
                                                  (to_text row.1))
                                              (reason_rows reporter))))))))))
