-- ===== src/Stats.antt =====
-- server/src/stats/StatsCollector.h and StatsCollector.cpp: lines counted by module and hour, and
-- the samples of the speed. A `std::map` is the list of its entries in ascending order of keys;
-- the array of the maps is a list of five. `Double` and its addition stand for `double`.
pub mod Buckets
pub mod Samples
pub mod Session
pub mod Hours
mod Runs
use log_transfer_analyzer.Prelude.{
  ℕ, zero, suc, ◌+◌, ◌*◌, ◌/◌, Bool, ◌++◌, Bytes, true, false, List, [], ◌∷◌, Option, none, some,
  ◌==◌, ltb, leb, if◌then◌else◌, length, get_or, set, replicate, inc_u64, add_u64, u64_mod, ◌%◌,
}
use log_transfer_analyzer.Doubles.{Doubles}
use log_transfer_analyzer.LineParser.{ParsedLine, ModuleId, beam_steer_ctrl_unit_impl, module_index}

-- `kMaxStatsEntries`.
abbrev pub max_stats_entries : ℕ
max_stats_entries = 10000

-- `makeHourKey`; the casts of the small fields to 64 bits change nothing.
pub make_hour_key : ℕ → ℕ → ℕ → ℕ → ℕ
make_hour_key year month day hour = (year * 1000000 + month * 10000 + day * 100 + hour) % u64_mod

-- The lambda `put` of `formatHourKey`: the last decimal digits of a number.
pub digits : ℕ → ℕ → Bytes
digits zero value = []
digits (suc n) value = digits n (value / 10) ++ ((b'0' + value % 10) ∷ [])

-- `formatHourKey`, for a key whose year fits an `int`.
pub format_hour_key : ℕ → Bytes
format_hour_key key =
    digits 4 (key / 1000000)
    ++ (b'-' ∷ digits 2 (key / 10000 % 100)
        ++ (b'-' ∷ digits 2 (key / 100 % 100) ++ (b' ' ∷ digits 2 (key % 100))))

-- A `std::map<HourKey, std::uint64_t>`.
abbrev pub Bucket : Type 0
Bucket = List (ℕ × ℕ)

-- `find`.
abbrev pub find : Bucket → ℕ → Option ℕ
find [] key = none
find ((k, n) ∷ rest) key = if k == key then some n else find rest key

-- `emplace` of a key that is not there, and the write behind an iterator.
abbrev pub put : Bucket → ℕ → ℕ → Bucket
put [] key n = (key, n) ∷ []
put ((k, m) ∷ rest) key n =
    let others = put rest key n in
    if ltb key k
    then (key, n) ∷ (k, m) ∷ rest
    else if k == key
    then (k, n) ∷ rest
    else (k, m) ∷ others

-- `StatsCollector`.
pub record Collector (Double : Type 0) : Type 0 where
  pub buckets : List Bucket
  pub valid_spd_samples : ℕ
  pub excluded_spd_samples : ℕ
  pub missing_spd_samples : ℕ
  pub spd_sum : Double

-- The loop of `totalEntries`.
abbrev pub total_from : ℕ → List Bucket → ℕ
total_from total [] = total
total_from total (bucket ∷ buckets) = total_from (add_u64 total (length bucket)) buckets

abbrev pub total_entries : List Bucket → ℕ
total_entries buckets = total_from 0 buckets

abbrev pub bucket_of : List Bucket → ModuleId → Bucket
bucket_of buckets id = get_or buckets (module_index id) []

-- The first part of `record`: the count of the line, or nothing for a refusal.
pub counted : List Bucket → ModuleId → ℕ → Option (List Bucket)
counted buckets id key = elim (find (bucket_of buckets id) key) [
  | none ↦
      if leb max_stats_entries (total_entries buckets)
      then none
      else some (set buckets (module_index id) (put (bucket_of buckets id) key 1))
  | some n ↦ some (set buckets (module_index id) (put (bucket_of buckets id) key (inc_u64 n)))
]

abbrev pub is_beam_steer : ModuleId → Bool
is_beam_steer id = module_index id == module_index beam_steer_ctrl_unit_impl

module _ (D : Doubles) where
  -- The second part of `record`: the sample of the line.
  abbrev pub sampled : Collector D.Carrier → ParsedLine D.Carrier → Collector D.Carrier
  sampled c line =
      if line.has_spd
      then (if line.spd_in_range
          then record c {
            spd_sum = D.plus c.spd_sum line.spd;
            valid_spd_samples = inc_u64 c.valid_spd_samples;
          }
          else record c { excluded_spd_samples = inc_u64 c.excluded_spd_samples })
      else if is_beam_steer line.module_id
      then record c { missing_spd_samples = inc_u64 c.missing_spd_samples }
      else c

  abbrev pub hour_key : ParsedLine D.Carrier → ℕ
  hour_key line = make_hour_key line.year line.month line.day line.hour

  -- `record`: whether the line was counted, and the new state.
  pub record_line : Collector D.Carrier → ParsedLine D.Carrier → Bool × Collector D.Carrier
  record_line c line = elim (counted c.buckets line.module_id (hour_key line)) [
    | none ↦ (false, c)
    | some buckets ↦ (true, sampled (record c { buckets = buckets }) line)
  ]

  -- `averageSpeed`.
  pub average_speed : Collector D.Carrier → D.Carrier
  average_speed c =
      if c.valid_spd_samples == 0
      then D.zero_double
      else D.divide c.spd_sum (D.of_u64 c.valid_spd_samples)

  -- `reset`, and the state of a new collector.
  unfoldable pub cleared : Collector D.Carrier
  cleared = record {
    buckets = replicate 5 [];
    valid_spd_samples = 0;
    excluded_spd_samples = 0;
    missing_spd_samples = 0;
    spd_sum = D.zero_double;
  }

  -- The lines of a session, one `record` after the other.
  pub record_all : Collector D.Carrier → List (ParsedLine D.Carrier) → Collector D.Carrier
  record_all c [] = c
  record_all c (line ∷ lines) = record_all (record_line c line).1 lines
