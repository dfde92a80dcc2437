-- ===== src/Stats/Samples.antt =====
-- `record` on the whole collector.
use log_transfer_analyzer.Prelude.{
  ℕ, zero, suc, ◌+◌, ◌≤◌, ◌<◌, ◌≡◌, refl, sym, ap, ◌∙◌, Bool, true, false, not, ◌&&◌, List, [], ◌∷◌,
  none, some, inl, inr, ◌==◌, leb, if◌then◌else◌, length, get_or, get_or-set_self, get_or-set_ne,
  set, length-set, inc_u64, add_u64, u64_mod, All, arith, Bool-cases, Option-cases, ==→≡, ==_self,
}
use log_transfer_analyzer.Doubles.{Doubles}
use log_transfer_analyzer.LineParser.{ParsedLine, ModuleId, module_index, radar_track_node_state}
use log_transfer_analyzer.Stats.{
  Bucket, Collector, find, put, total_from, total_entries, bucket_of, counted, max_stats_entries,
  sampled, hour_key, record_line,
}
use log_transfer_analyzer.Stats.Buckets.{
  count_in, IsAscending, find-put_self, find-put_ne, put-IsAscending, length-put_new,
  length-put_known,
}

-- The number of entries, which no wrap-around changes.
abbrev pub entries : List Bucket → ℕ
entries [] = 0
entries (b ∷ bs) = length b + entries bs

total_from-entries :
    (bs : List Bucket) (total : ℕ)
    → total + entries bs < u64_mod
    → total_from total bs ≡ total + entries bs
total_from-entries [] total h = omega arith
total_from-entries (b ∷ bs) total h =
    let sum : add_u64 total (length b) ≡ total + length b = omega arith in
    rw sum (omega (arith, total_from-entries bs (total + length b) (omega arith)))

entries-set :
    (bs : List Bucket) (i : ℕ) (b : Bucket)
    → i < length bs
    → entries (set bs i b) + length (get_or bs i []) ≡ entries bs + length b
entries-set [] i b h = absurd (omega arith)
entries-set (x ∷ bs) zero b h = omega arith
entries-set (x ∷ bs) (suc i) b h = omega (arith, entries-set bs i b (omega arith))

IsAscending-set :
    (bs : List Bucket) (i : ℕ) (b : Bucket)
    → IsAscending b
    → All IsAscending bs
    → All IsAscending (set bs i b)
IsAscending-set [] i b v h = tt
IsAscending-set (x ∷ bs) zero b v (h, hs) = (v, hs)
IsAscending-set (x ∷ bs) (suc i) b v (h, hs) = (h, IsAscending-set bs i b v hs)

pub IsAscending-get_or :
    (bs : List Bucket) (i : ℕ) → All IsAscending bs → IsAscending (get_or bs i [])
IsAscending-get_or [] i h = tt
IsAscending-get_or (x ∷ bs) zero (h, hs) = h
IsAscending-get_or (x ∷ bs) (suc i) (h, hs) = IsAscending-get_or bs i hs

-- The five maps, in order, and within the limit.
pub record IsCounts (bs : List Bucket) : Type 0 where
  pub five : length bs ≡ 5
  pub ascending : All IsAscending bs
  pub limited : entries bs ≤ max_stats_entries

pub module_index-lt : (id : ModuleId) → module_index id < 5
module_index-lt radar_track_node_state = omega arith
module_index-lt _ = omega arith

-- Whether a line is refused, and what a counted line makes of the maps.
abbrev pub is_refused : List Bucket → ModuleId → ℕ → Bool
is_refused bs id key = elim (find (bucket_of bs id) key) [
  | none ↦ leb max_stats_entries (entries bs)
  | some n ↦ false
]

abbrev pub with_line : List Bucket → ModuleId → ℕ → List Bucket
with_line bs id key =
    set bs (module_index id) (put (bucket_of bs id) key (inc_u64 (count_in (bucket_of bs id) key)))

module _ (bs : List Bucket) (v : IsCounts bs) (id : ModuleId) (key : ℕ) where
  counted_lem :
      counted bs id key ≡ (if is_refused bs id key then none else some (with_line bs id key))
  unfolding counted
  counted_lem =
      let total : total_entries bs ≡ entries bs =
        omega (arith, total_from-entries bs 0 (omega (arith, v.limited))) in
      ground (arith, total)

  pub with_line-IsCounts : is_refused bs id key ≡ false → IsCounts (with_line bs id key)
  with_line-IsCounts taken = record {
    five = length-set bs (module_index id) _ ∙ v.five;
    ascending =
        IsAscending-set bs (module_index id) _
          (put-IsAscending (bucket_of bs id) key _
            (IsAscending-get_or bs (module_index id) v.ascending))
          v.ascending;
    limited = elim (Option-cases (find (bucket_of bs id) key)) [
      | inl e ↦ ground (
        arith,
        entries-set bs (module_index id) new,
        length-put_new old key (inc_u64 (count_in old key)),
        taken,
        v.limited,
        v.five,
        module_index-lt id,
      )
      | inr (n, e) ↦ omega (
        arith,
        entries-set bs (module_index id) new (omega (arith, v.five, module_index-lt id)),
        length-put_known old key (inc_u64 (count_in old key)) n
            (IsAscending-get_or bs (module_index id) v.ascending) e,
        v.limited,
      )
    ];
  }
    where
      old : Bucket
      old = bucket_of bs id

      new : Bucket
      new = put old key (inc_u64 (count_in old key))

pub bucket_of-set :
    (bs : List Bucket) (id other : ModuleId) (b : Bucket)
    → length bs ≡ 5
    → bucket_of (set bs (module_index id) b) other
      ≡ (if module_index id == module_index other then b else bucket_of bs other)
bucket_of-set bs id other b five = elim (Bool-cases (module_index id == module_index other)) [
  | inl e ↦
      let same : module_index id ≡ module_index other =
        ==→≡ (module_index id) (module_index other) e in
      rw (← same, ==_self)
        (get_or-set_self bs (module_index id) b [] (omega (arith, module_index-lt id)))
  | inr e ↦
      rw e (
        get_or-set_ne bs (module_index id) (module_index other) b [] (λ same. ground (arith, same)))
]

pub sampled-buckets :
    (D : Doubles) (c : Collector D.Carrier) (line : ParsedLine D.Carrier)
    → (sampled D c line).buckets ≡ c.buckets
sampled-buckets D c line = ground arith

count-with_line :
    (bs : List Bucket) (id : ModuleId) (key : ℕ) (other : ModuleId) (k : ℕ)
    → length bs ≡ 5
    → count_in (bucket_of (with_line bs id key) other) k ≡ (
        if (module_index id == module_index other) && (key == k)
        then inc_u64 (count_in (bucket_of bs other) k)
        else count_in (bucket_of bs other) k)
count-with_line bs id key other k five = elim (Bool-cases (module_index id == module_index other)) [
  | inr e ↦ rw (bucket_of-set bs id other _ five, e) refl
  | inl e ↦
      let same : bucket_of bs other ≡ bucket_of bs id =
        ap (λ i. get_or bs i []) (sym (==→≡ (module_index id) (module_index other) e)) in
      rw (bucket_of-set bs id other _ five, e, same) (at_key (bucket_of bs id))
]
  where
    at_key :
        (b : Bucket)
        → count_in (put b key (inc_u64 (count_in b key))) k
          ≡ (if key == k then inc_u64 (count_in b k) else count_in b k)
    at_key b = elim (Bool-cases (key == k)) [
      | inl e ↦ ground (arith, find-put_self b key (inc_u64 (count_in b key)), ==→≡ key k e)
      | inr e ↦ ground (arith, find-put_ne b key k (inc_u64 (count_in b key)))
    ]

-- The count of a module at an hour.
abbrev pub count_of : {A : Type 0} → Collector A → ModuleId → ℕ → ℕ
count_of c id key = count_in (bucket_of c.buckets id) key

module _ (D : Doubles) (c : Collector D.Carrier) (line : ParsedLine D.Carrier)
    (v : IsCounts c.buckets) where
  pub record_line_lem : record_line D c line ≡ (
      if is_refused c.buckets line.module_id (hour_key D line) then (false, c) else (
        true,
        sampled D
            (record c { buckets = with_line c.buckets line.module_id (hour_key D line) })
            line,
      ))
  unfolding record_line
  record_line_lem = ground (arith, counted_lem c.buckets v line.module_id (hour_key D line))

  -- For a collector with its five maps, in order and within the limit: a line is refused just if
  -- it needs a new entry and 10,000 are there. A counted line adds one, modulo 2 ^ 64, to the
  -- count of its module at its hour, and changes no other count; a refused line changes none.
  pub record_line_counts :
      (id : ModuleId) (key : ℕ)
      → let (taken, c') = record_line D c line in
        (taken ≡ not (is_refused c.buckets line.module_id (hour_key D line)))
        × (count_of c' id key ≡ (
            if taken && (module_index line.module_id == module_index id) && (hour_key D line == key)
            then inc_u64 (count_of c id key)
            else count_of c id key))
  record_line_counts id key =
      elim (Bool-cases (is_refused c.buckets line.module_id (hour_key D line))) [
        | inl e ↦ rw (record_line_lem, e) (refl, refl)
        | inr e ↦
            rw (record_line_lem, e, sampled-buckets D)
              (refl, count-with_line c.buckets line.module_id (hour_key D line) id key v.five)
      ]
