-- ===== src/Table/Rows.antt =====
-- The rows of the table hold every count.
use log_transfer_analyzer.Prelude.{
  ℕ, ◌+◌, ◌≡◌, refl, ◌∙◌, Bool, List, [], ◌∷◌, ◌++◌, length, get_or, less_text, arith,
}
use log_transfer_analyzer.LineParser.{ModuleId, SkipReason, skip_reason_code}
use log_transfer_analyzer.Stats.{Bucket, bucket_of}
use log_transfer_analyzer.Stats.Buckets.{sum_of}
use log_transfer_analyzer.Stats.Session.{sum_of_all}
use log_transfer_analyzer.Skips.{Reporter, count}
use log_transfer_analyzer.Skips.Sums.{sum_of_counts}
use log_transfer_analyzer.Table.{
  Row, bucket_rows, rows_in, module_order, for_each_bucket, insert_by, sort_by, occurred,
  all_reasons, reason_rows,
}

abbrev pub sum_of_rows : List Row → ℕ
sum_of_rows [] = 0
sum_of_rows (row ∷ rows) = row.row_count + sum_of_rows rows

sum_of_rows-append : (xs ys : List Row) → sum_of_rows (xs ++ ys) ≡ sum_of_rows xs + sum_of_rows ys
sum_of_rows-append [] ys = omega arith
sum_of_rows-append (x ∷ xs) ys = omega (arith, sum_of_rows-append xs ys)

sum-bucket_rows : (id : ModuleId) (b : Bucket) → sum_of_rows (bucket_rows id b) ≡ sum_of b
sum-bucket_rows id [] = refl
sum-bucket_rows id ((hour, n) ∷ b) = omega (arith, sum-bucket_rows id b)

abbrev sum_in : List ModuleId → List Bucket → ℕ
sum_in [] buckets = 0
sum_in (id ∷ ids) buckets = sum_of (bucket_of buckets id) + sum_in ids buckets

sum-rows_in :
    (ids : List ModuleId) (buckets : List Bucket)
    → sum_of_rows (rows_in ids buckets) ≡ sum_in ids buckets
sum-rows_in [] buckets = refl
sum-rows_in (id ∷ ids) buckets = omega (
  arith,
  sum_of_rows-append (bucket_rows id (bucket_of buckets id)) (rows_in ids buckets),
  sum-bucket_rows id (bucket_of buckets id),
  sum-rows_in ids buckets,
)

five_buckets :
    (buckets : List Bucket) → length buckets ≡ 5 → sum_in module_order buckets ≡ sum_of_all buckets
five_buckets (a ∷ b ∷ c ∷ d ∷ e ∷ []) h = omega arith
five_buckets _ h = absurd (omega arith)

-- The counts of the first block add up to all counts of the five maps.
pub for_each_bucket_sum :
    (buckets : List Bucket)
    → length buckets ≡ 5
    → sum_of_rows (for_each_bucket buckets) ≡ sum_of_all buckets
unfolding for_each_bucket
for_each_bucket_sum buckets five = sum-rows_in module_order buckets ∙ five_buckets buckets five

abbrev pub sum_of_reasons : List (SkipReason × ℕ) → ℕ
sum_of_reasons [] = 0
sum_of_reasons ((reason, n) ∷ rows) = n + sum_of_reasons rows

module _ (less : SkipReason × ℕ → SkipReason × ℕ → Bool) where
  sum-insert_by :
      (x : SkipReason × ℕ) (rows : List (SkipReason × ℕ))
      → sum_of_reasons (insert_by less x rows) ≡ x.1 + sum_of_reasons rows
  sum-insert_by (reason, n) [] = refl
  sum-insert_by (reason, n) (y ∷ rows) = ground (arith, sum-insert_by (reason, n) rows)

  sum-sort_by :
      (rows : List (SkipReason × ℕ)) → sum_of_reasons (sort_by less rows) ≡ sum_of_reasons rows
  sum-sort_by [] = refl
  sum-sort_by ((reason, n) ∷ rows) =
      omega (arith, sum-insert_by (reason, n) (sort_by less rows), sum-sort_by rows)

abbrev sum_over : Reporter → List SkipReason → ℕ
sum_over r [] = 0
sum_over r (reason ∷ reasons) = count r reason + sum_over r reasons

sum-occurred :
    (r : Reporter) (reasons : List SkipReason)
    → sum_of_reasons (occurred r reasons) ≡ sum_over r reasons
sum-occurred r [] = refl
sum-occurred r (reason ∷ reasons) = ground (arith, sum-occurred r reasons)

abbrev sum_at : List ℕ → ℕ
sum_at n =
    get_or n 0 0
    + get_or n 1 0
    + get_or n 2 0
    + get_or n 3 0
    + get_or n 4 0
    + get_or n 5 0
    + get_or n 6 0
    + get_or n 7 0
    + get_or n 8 0
    + get_or n 9 0
    + get_or n 10 0

eleven_counts : (counts : List ℕ) → length counts ≡ 11 → sum_at counts ≡ sum_of_counts counts
eleven_counts (a ∷ b ∷ c ∷ d ∷ e ∷ f ∷ g ∷ h ∷ i ∷ j ∷ k ∷ []) eleven = omega arith
eleven_counts _ eleven = absurd (omega arith)

-- For a reporter with its eleven counters, the counts of the listed reasons add up to all
-- counters: a reason that is not listed has none.
pub reason_rows_sum :
    (r : Reporter) → length r.counts ≡ 11 → sum_of_reasons (reason_rows r) ≡ sum_of_counts r.counts
unfolding reason_rows
reason_rows_sum r eleven = omega (
  arith,
  sum-sort_by (λ (a b : SkipReason × ℕ). less_text (skip_reason_code a.0) (skip_reason_code b.0))
      (occurred r all_reasons),
  sum-occurred r all_reasons,
  eleven_counts r.counts eleven,
)
