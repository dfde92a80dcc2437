-- ===== src/Stats/Buckets.antt =====
-- The maps of the collector: what a counted line changes.
use log_transfer_analyzer.Prelude.{
  ℕ, suc, ◌+◌, ◌<◌, ◌≡◌, ◌≢◌, refl, [], ◌∷◌, none, some, length, All, arith,
}
use log_transfer_analyzer.Stats.{Bucket, find, put}

-- The count of a key; 0 with no entry.
abbrev pub count_in : Bucket → ℕ → ℕ
count_in bucket key = elim (find bucket key) [ none ↦ 0 | some n ↦ n ]

abbrev pub IsAscending : Bucket → Type 0
IsAscending [] = Unit
IsAscending ((k, n) ∷ rest) = All (λ (e : ℕ × ℕ). k < e.0) rest × IsAscending rest

-- The sum of the counts.
abbrev pub sum_of : Bucket → ℕ
sum_of [] = 0
sum_of ((k, n) ∷ rest) = n + sum_of rest

pub find-put_self : (b : Bucket) (key n : ℕ) → find (put b key n) key ≡ some n
find-put_self [] key n = ground arith
find-put_self ((k, m) ∷ rest) key n = ground (arith, find-put_self rest key n)

pub find-put_ne :
    (b : Bucket) (key other n : ℕ) → key ≢ other → find (put b key n) other ≡ find b other
find-put_ne [] key other n ne = ground arith
find-put_ne ((k, m) ∷ rest) key other n ne = ground (arith, find-put_ne rest key other n ne)

above_find : (b : Bucket) (key : ℕ) → All (λ (e : ℕ × ℕ). key < e.0) b → find b key ≡ none
above_find [] key h = refl
above_find ((k, m) ∷ rest) key (h, hs) = ground (arith, above_find rest key hs)

above_trans :
    (b : Bucket) (low key : ℕ)
    → low < key
    → All (λ (e : ℕ × ℕ). key < e.0) b
    → All (λ (e : ℕ × ℕ). low < e.0) b
above_trans [] low key l h = tt
above_trans ((k, m) ∷ rest) low key l (h, hs) = (omega arith, above_trans rest low key l hs)

above_put :
    (b : Bucket) (low key n : ℕ)
    → low < key
    → All (λ (e : ℕ × ℕ). low < e.0) b
    → All (λ (e : ℕ × ℕ). low < e.0) (put b key n)
above_put [] low key n l h = (l, tt)
above_put ((k, m) ∷ rest) low key n l (h, hs) = ground (arith, above_put rest low key n l hs)

-- The keys stay in order, each once.
pub put-IsAscending : (b : Bucket) (key n : ℕ) → IsAscending b → IsAscending (put b key n)
put-IsAscending [] key n h = (tt, tt)
put-IsAscending ((k, m) ∷ rest) key n (above, h) =
    ground (arith, above_trans rest key k, above_put rest k key n, put-IsAscending rest key n h)

-- A new key adds an entry, a known one none.
pub length-put_new :
    (b : Bucket) (key n : ℕ) → find b key ≡ none → length (put b key n) ≡ suc (length b)
length-put_new [] key n e = refl
length-put_new ((k, m) ∷ rest) key n e = ground (arith, length-put_new rest key n)

pub length-put_known :
    (b : Bucket) (key n m : ℕ)
    → IsAscending b
    → find b key ≡ some m
    → length (put b key n) ≡ length b
length-put_known [] key n m v e = cc
length-put_known ((k, l) ∷ rest) key n m (above, v) e =
    ground (arith, above_find rest key, above_trans rest key k, length-put_known rest key n m v)

pub sum_of-put_new :
    (b : Bucket) (key n : ℕ) → find b key ≡ none → sum_of (put b key n) ≡ n + sum_of b
sum_of-put_new [] key n e = refl
sum_of-put_new ((k, m) ∷ rest) key n e = ground (arith, sum_of-put_new rest key n)

pub sum_of-put_known :
    (b : Bucket) (key n m : ℕ)
    → IsAscending b
    → find b key ≡ some m
    → sum_of (put b key n) + m ≡ n + sum_of b
sum_of-put_known [] key n m v e = cc
sum_of-put_known ((k, l) ∷ rest) key n m (above, v) e =
    ground (arith, above_find rest key, above_trans rest key k, sum_of-put_known rest key n m v)
