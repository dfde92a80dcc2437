-- ===== src/Skips/Sums.antt =====
-- What the counters of the reporter add up to.
use log_transfer_analyzer.Prelude.{
  ℕ, zero, suc, ◌+◌, ◌%◌, ◌<◌, ◌≡◌, refl, sym, ap, ◌∙◌, List, [], ◌∷◌, Option, none, some, inl, inr,
  ◌==◌, if◌then◌else◌, length, get_or, get_or-set_self, get_or-set_ne, set, length-set, inc_u64,
  u64_mod, Bytes, arith, Bool-cases, Option-cases, ==→≡,
}
use log_transfer_analyzer.LineParser.{SkipReason, reason_index, line_too_long, unknown_module}
use log_transfer_analyzer.Skips.{
  Reporter, Names, Skip, empty_reporter, bump, insert_name, module_name_in, with_name,
  record_unknown_module, count, tallied, with_sample, record_skip, record_skips,
}

abbrev pub sum_of_counts : List ℕ → ℕ
sum_of_counts [] = 0
sum_of_counts (n ∷ counts) = n + sum_of_counts counts

abbrev pub sum_of_names : Names → ℕ
sum_of_names [] = 0
sum_of_names ((name, n) ∷ names) = n + sum_of_names names

sum-set :
    (counts : List ℕ) (i n : ℕ)
    → i < length counts
    → sum_of_counts (set counts i n) + get_or counts i 0 ≡ sum_of_counts counts + n
sum-set [] i n h = absurd (omega arith)
sum-set (x ∷ counts) zero n h = omega arith
sum-set (x ∷ counts) (suc i) n h = omega (arith, sum-set counts i n (omega arith))

sum-bump :
    (names names' : Names) (name : Bytes)
    → bump names name ≡ some names'
    → sum_of_names names' % u64_mod ≡ (sum_of_names names + 1) % u64_mod
sum-bump [] names' name e = cc
sum-bump ((known, n) ∷ names) names' name e = elim (Option-cases (bump names name)) [
  | inl none_later ↦ ground (arith, none_later)
  | inr (later, some_later) ↦ ground (arith, some_later, sum-bump names later name some_later)
]

sum-insert_name :
    (names : Names) (name : Bytes) → sum_of_names (insert_name names name) ≡ sum_of_names names + 1
sum-insert_name [] name = refl
sum-insert_name ((known, n) ∷ names) name = ground (arith, sum-insert_name names name)

reason_index-lt : (reason : SkipReason) → reason_index reason < 11
reason_index-lt line_too_long = omega arith
reason_index-lt _ = omega arith

abbrev pub named_lines : Reporter → ℕ
named_lines r = sum_of_names r.unknown_modules + r.unlisted_unknown_lines

-- The totals of a reporter.
abbrev pub IsSums : Reporter → Type 0
IsSums r =
    (length r.counts ≡ 11)
    × (r.total ≡ sum_of_counts r.counts % u64_mod)
    × (named_lines r % u64_mod ≡ count r unknown_module % u64_mod)

with_sample-IsSums :
    (r : Reporter) (reason : SkipReason) (offset : ℕ) (text : Bytes)
    → IsSums r
    → IsSums (with_sample r reason offset text)
with_sample-IsSums r reason offset text v = ground (arith, v)

with_name-named_lines :
    (r : Reporter) (name : Option Bytes)
    → named_lines (with_name r name) % u64_mod ≡ (named_lines r + 1) % u64_mod
with_name-named_lines r none = omega arith
with_name-named_lines r (some name) = elim (Option-cases (bump r.unknown_modules name)) [
  | inr (names, e) ↦ ground (arith, e, sum-bump r.unknown_modules names name e)
  | inl e ↦ ground (arith, e, sum-insert_name r.unknown_modules name)
]

with_name-rest :
    (r : Reporter) (name : Option Bytes)
    → ((with_name r name).counts ≡ r.counts) × ((with_name r name).total ≡ r.total)
with_name-rest r name = ground arith

tallied-sums :
    (r : Reporter) (reason : SkipReason)
    → length r.counts ≡ 11
    → r.total ≡ sum_of_counts r.counts % u64_mod
    → (length (tallied r reason).counts ≡ 11)
      × ((tallied r reason).total ≡ sum_of_counts (tallied r reason).counts % u64_mod)
tallied-sums r reason eleven total = (
  length-set r.counts (reason_index reason) _ ∙ eleven,
  omega (
    arith,
    sum-set r.counts (reason_index reason) (inc_u64 (count r reason))
        (omega (arith, reason_index-lt reason)),
  ),
)

tallied-count :
    (r : Reporter) (reason : SkipReason)
    → length r.counts ≡ 11
    → count (tallied r reason) unknown_module ≡ (
        if reason_index reason == 9
        then inc_u64 (count r unknown_module)
        else count r unknown_module)
tallied-count r reason eleven = elim (Bool-cases (reason_index reason == 9)) [
  | inl e ↦
      rw (e, ==→≡ (reason_index reason) 9 e)
        (get_or-set_self r.counts 9 (inc_u64 (count r unknown_module)) 0 (omega arith))
  | inr e ↦ rw e (
      get_or-set_ne r.counts (reason_index reason) 9 (inc_u64 (count r reason)) 0
        (λ same. ground (arith, same)))
]

pub record_skip-IsSums :
    (r : Reporter) (reason : SkipReason) (offset : ℕ) (text : Bytes)
    → IsSums r
    → IsSums (record_skip r reason offset text)
unfolding record_skip
record_skip-IsSums r reason offset text (eleven, total, names) =
    let (eleven', total') = tallied-sums r reason eleven total in
    let tally = tallied-count r reason eleven in
    let (rest, rest') = with_name-rest (tallied r reason) (module_name_in text) in
    let named = with_name-named_lines (tallied r reason) (module_name_in text) in
    elim (Bool-cases (reason_index reason == 9)) [
      | inr e ↦ rw e (
          with_sample-IsSums (tallied r reason) reason offset text
            (eleven', total', names ∙ ap (λ n. n % u64_mod) (sym (rw e at tally))))
      | inl e ↦ rw e (
          with_sample-IsSums (record_unknown_module (tallied r reason) text) reason offset text (
            ap length rest ∙ eleven',
            rest' ∙ total' ∙ ap (λ c. sum_of_counts c % u64_mod) (sym rest),
            omega (arith, named, names, rw e at tally, ap (λ (c : List ℕ). get_or c 9 0) rest),
          ))
    ]

-- Each skip is one more.
pub record_skip-total :
    (r : Reporter) (reason : SkipReason) (offset : ℕ) (text : Bytes)
    → (record_skip r reason offset text).total ≡ inc_u64 r.total
unfolding record_skip
record_skip-total r reason offset text =
    ground (arith, with_name-rest (tallied r reason) (module_name_in text))

record_skips-IsSums : (skips : List Skip) (r : Reporter) → IsSums r → IsSums (record_skips r skips)
unfolding record_skips
record_skips-IsSums [] r v = v
record_skips-IsSums (s ∷ skips) r v =
    record_skips-IsSums skips (record_skip r s.reason s.offset s.text)
      (record_skip-IsSums r s.reason s.offset s.text v)

-- After the skips of a session the total is the sum of the counts by reason, and the counts of
-- the listed names with the unlisted lines are the count of unknown modules, all modulo 2 ^ 64.
pub record_skips_sums :
    (skips : List Skip)
    → let r = record_skips empty_reporter skips in
      (r.total ≡ sum_of_counts r.counts % u64_mod)
      × ((sum_of_names r.unknown_modules + r.unlisted_unknown_lines) % u64_mod
          ≡ count r unknown_module % u64_mod)
record_skips_sums skips =
    let (eleven, total, names) = record_skips-IsSums skips empty_reporter (refl, refl, refl) in
    (total, names)
