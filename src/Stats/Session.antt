-- ===== src/Stats/Session.antt =====
-- The collector over all lines of a session.
use log_transfer_analyzer.Prelude.{
  ℕ, zero, suc, ◌+◌, ◌%◌, ◌≤◌, ◌<◌, ◌≡◌, refl, sym, ap, ◌∙◌, true, false, List, [], ◌∷◌, ◌⊎◌, inl,
  inr, if◌then◌else◌, length, get_or, set, inc_u64, u64_mod, All, arith, Bool-cases, Option-cases,
  ==→≡,
}
use log_transfer_analyzer.Doubles.{Doubles}
use log_transfer_analyzer.LineParser.{ParsedLine, ModuleId, module_index, beam_steer_ctrl_unit_impl}
use log_transfer_analyzer.Stats.{
  Bucket, Collector, find, put, bucket_of, max_stats_entries, is_beam_steer, sampled, hour_key,
  record_line, cleared, record_all,
}
use log_transfer_analyzer.Stats.Buckets.{
  count_in, IsAscending, sum_of, sum_of-put_new, sum_of-put_known,
}
use log_transfer_analyzer.Stats.Samples.{
  entries, IsCounts, is_refused, with_line, record_line_lem, with_line-IsCounts, sampled-buckets,
  bucket_of-set, module_index-lt, IsAscending-get_or,
}

pub cleared-IsCounts : (D : Doubles) → IsCounts (cleared D).buckets
unfolding cleared
cleared-IsCounts D = record {
  five = refl;
  ascending = (tt, (tt, (tt, (tt, (tt, tt)))));
  limited = omega arith;
}

pub record_line-IsCounts :
    (D : Doubles) (c : Collector D.Carrier) (line : ParsedLine D.Carrier)
    → IsCounts c.buckets
    → IsCounts (record_line D c line).1.buckets
record_line-IsCounts D c line v =
    elim (Bool-cases (is_refused c.buckets line.module_id (hour_key D line))) [
      | inl e ↦ rw (record_line_lem D c line v, e) v
      | inr e ↦
          rw (record_line_lem D c line v, e, sampled-buckets D)
            (with_line-IsCounts c.buckets v line.module_id (hour_key D line) e)
    ]

record_all-IsCounts :
    (D : Doubles) (lines : List (ParsedLine D.Carrier)) (c : Collector D.Carrier)
    → IsCounts c.buckets
    → IsCounts (record_all D c lines).buckets
unfolding record_all
record_all-IsCounts D [] c v = v
record_all-IsCounts D (line ∷ lines) c v =
    record_all-IsCounts D lines (record_line D c line).1 (record_line-IsCounts D c line v)

-- Whatever lines a session has, its maps keep their keys in ascending order, each once, and hold
-- at most 10,000 entries in all.
pub record_all_bounded :
    (D : Doubles) (lines : List (ParsedLine D.Carrier))
    → let buckets = (record_all D (cleared D) lines).buckets in
      All IsAscending buckets × (entries buckets ≤ max_stats_entries)
record_all_bounded D lines =
    let v = record_all-IsCounts D lines (cleared D) (cleared-IsCounts D) in (v.ascending, v.limited)

-- A line of the parser: only those of one module have a speed.
abbrev pub HasOwnSpeed : {A : Type 0} → ParsedLine A → Type 0
HasOwnSpeed line = (is_beam_steer line.module_id ≡ true) ⊎ (line.has_spd ≡ false)

abbrev pub beam_sum : List Bucket → ℕ
beam_sum bs = sum_of (bucket_of bs beam_steer_ctrl_unit_impl)

abbrev pub samples_of : {A : Type 0} → Collector A → ℕ
samples_of c = c.valid_spd_samples + c.excluded_spd_samples + c.missing_spd_samples

sum_of-count_up :
    (key : ℕ) (b : Bucket)
    → IsAscending b
    → sum_of (put b key (inc_u64 (count_in b key))) % u64_mod ≡ (sum_of b + 1) % u64_mod
sum_of-count_up key b up = elim (Option-cases (find b key)) [
  | inl e ↦ rw (e, count_in) (omega (arith, sum_of-put_new b key 1 e))
  | inr (n, e) ↦ rw (e, count_in) (omega (arith, sum_of-put_known b key (inc_u64 n) n up e))
]

-- The sum of all counts.
abbrev pub sum_of_all : List Bucket → ℕ
sum_of_all [] = 0
sum_of_all (b ∷ bs) = sum_of b + sum_of_all bs

sum_of_all-set :
    (bs : List Bucket) (i : ℕ) (b : Bucket)
    → i < length bs
    → sum_of_all (set bs i b) + sum_of (get_or bs i []) ≡ sum_of_all bs + sum_of b
sum_of_all-set [] i b h = absurd (omega arith)
sum_of_all-set (x ∷ bs) zero b h = omega arith
sum_of_all-set (x ∷ bs) (suc i) b h = omega (arith, sum_of_all-set bs i b (omega arith))

sum_of_all-with_line :
    (bs : List Bucket) (v : IsCounts bs) (id : ModuleId) (key : ℕ)
    → sum_of_all (with_line bs id key) % u64_mod ≡ (sum_of_all bs + 1) % u64_mod
sum_of_all-with_line bs v id key = omega (
  arith,
  sum_of_all-set bs (module_index id)
      (put (bucket_of bs id) key (inc_u64 (count_in (bucket_of bs id) key)))
      (omega (arith, v.five, module_index-lt id)),
  sum_of-count_up key (bucket_of bs id) (IsAscending-get_or bs (module_index id) v.ascending),
)

-- `record` adds one to all counts just if it takes the line.
pub record_line-sum :
    (D : Doubles) (c : Collector D.Carrier) (line : ParsedLine D.Carrier)
    → IsCounts c.buckets
    → let (counted, c') = record_line D c line in
      sum_of_all c'.buckets % u64_mod
      ≡ (sum_of_all c.buckets + (if counted then 1 else 0)) % u64_mod
record_line-sum D c line v =
    elim (Bool-cases (is_refused c.buckets line.module_id (hour_key D line))) [
      | inl e ↦ rw (record_line_lem D c line v, e) (omega arith)
      | inr e ↦
          rw (record_line_lem D c line v, e, sampled-buckets D)
            (sum_of_all-with_line c.buckets v line.module_id (hour_key D line))
    ]

-- A counted line adds one to the sum of its module.
sum-with_line :
    (bs : List Bucket) (v : IsCounts bs) (id : ModuleId) (key : ℕ)
    → beam_sum (with_line bs id key) % u64_mod
      ≡ (beam_sum bs + (if is_beam_steer id then 1 else 0)) % u64_mod
sum-with_line bs v id key = elim (Bool-cases (is_beam_steer id)) [
  | inr e ↦ rw (bucket_of-set bs id beam_steer_ctrl_unit_impl _ v.five, e) (omega arith)
  | inl e ↦
      let same : bucket_of bs beam_steer_ctrl_unit_impl ≡ bucket_of bs id =
        ap (λ i. get_or bs i []) (sym (==→≡ (module_index id) 2 e)) in
      rw (bucket_of-set bs id beam_steer_ctrl_unit_impl _ v.five, e, same)
        (sum_of-count_up key (bucket_of bs id)
          (IsAscending-get_or bs (module_index id) v.ascending))
]

sampled_counts :
    (D : Doubles) (c : Collector D.Carrier) (line : ParsedLine D.Carrier)
    → HasOwnSpeed line
    → samples_of (sampled D c line) % u64_mod
      ≡ (samples_of c + (if is_beam_steer line.module_id then 1 else 0)) % u64_mod
sampled_counts D c line own = ground arith

pub record_line_balanced :
    (D : Doubles) (c : Collector D.Carrier) (line : ParsedLine D.Carrier)
    → IsCounts c.buckets
    → HasOwnSpeed line
    → beam_sum c.buckets % u64_mod ≡ samples_of c % u64_mod
    → let c' = (record_line D c line).1 in beam_sum c'.buckets % u64_mod ≡ samples_of c' % u64_mod
record_line_balanced D c line v own balanced =
    elim (Bool-cases (is_refused c.buckets line.module_id (hour_key D line))) [
      | inl e ↦ rw (record_line_lem D c line v, e) balanced
      | inr e ↦
          let bs = with_line c.buckets line.module_id (hour_key D line) in
          let c' : Collector D.Carrier = record c { buckets = bs } in
          rw (record_line_lem D c line v, e)
            (ap (λ b. beam_sum b % u64_mod) (sampled-buckets D c' line)
              ∙ sum-with_line c.buckets v line.module_id (hour_key D line)
              ∙ same_rest (beam_sum c.buckets) (samples_of c)
                  (if is_beam_steer line.module_id then 1 else 0) balanced
              ∙ sym (sampled_counts D c' line own))
    ]
  where
    same_rest : (a b k : ℕ) → a % u64_mod ≡ b % u64_mod → (a + k) % u64_mod ≡ (b + k) % u64_mod
    same_rest a b k h = omega arith

record_all_lem :
    (D : Doubles) (lines : List (ParsedLine D.Carrier)) (c : Collector D.Carrier)
    → IsCounts c.buckets
    → All HasOwnSpeed lines
    → beam_sum c.buckets % u64_mod ≡ samples_of c % u64_mod
    → let c' = record_all D c lines in beam_sum c'.buckets % u64_mod ≡ samples_of c' % u64_mod
unfolding record_all
record_all_lem D [] c v own balanced = balanced
record_all_lem D (line ∷ lines) c v (own, owns) balanced =
    record_all_lem D lines (record_line D c line).1 (record_line-IsCounts D c line v) owns
      (record_line_balanced D c line v own balanced)

-- If only lines of the beam unit carry a speed, then after all lines of a session the counts of
-- the beam unit add up to the valid, the excluded and the missing samples, modulo 2 ^ 64.
pub record_all_balanced :
    (D : Doubles) (lines : List (ParsedLine D.Carrier))
    → All HasOwnSpeed lines
    → let c = record_all D (cleared D) lines in
      beam_sum c.buckets % u64_mod
      ≡ (c.valid_spd_samples + c.excluded_spd_samples + c.missing_spd_samples) % u64_mod
unfolding cleared
record_all_balanced D lines own = record_all_lem D lines (cleared D) (cleared-IsCounts D) own refl
