-- ===== src/Ring/Contents.antt =====
-- The chunks between the two indices, and what each operation does to them.
use log_transfer_analyzer.Prelude.{
  ℕ, zero, suc, ◌+◌, ◌-◌, ◌*◌, ◌%◌, ◌≤◌, ◌<◌, ◌≡◌, ◌≢◌, refl, sym, ap, ap₂, ◌∙◌, List, [], ◌∷◌,
  ◌++◌, none, some, length, length-set, get_or, get_or-set_self, get_or-set_ne, set, Bytes, slice,
  length-splice, slice-splice_self, slice-splice_before, slice-splice_behind, u64_mod, inc_u64,
  sub_u64, arith,
}
use native.Mathlib.Nat.{mod-add-mod, mod-lt, mod-eq_of_lt, mod-eq-sub-mod}
use native.Mathlib.Decide.{dec_lt}
use log_transfer_analyzer.Ring.{Ring, try_acquire, write_at, commit, try_peek, release}

-- The chunk at an index, and the chunks from one on.
abbrev pub chunk : Ring → ℕ → Bytes
chunk r i = slice r.storage (i % r.slot_count * r.slot_size) (get_or r.sizes (i % r.slot_count) 0)

abbrev pub window : Ring → ℕ → ℕ → List Bytes
window r zero i = []
window r (suc n) i = chunk r i ∷ window r n (i + 1)

-- What the consumer has still to get.
abbrev pub contents : Ring → List Bytes
contents r = window r (r.tail - r.head) r.head

-- The well-formed rings. The indices never wrap: 2 ^ 64 commits do not happen.
pub record IsRing (r : Ring) : Type 0 where
  pub some_slot : 0 < r.slot_count
  pub few_slots : r.slot_count < u64_mod
  pub room : length r.storage ≡ r.slot_count * r.slot_size
  pub sized : length r.sizes ≡ r.slot_count
  pub ordered : r.head ≤ r.tail
  pub bounded : r.tail ≤ r.head + r.slot_count
  pub unwrapped : r.tail < u64_mod
  pub sizes_fit : (j : ℕ) → get_or r.sizes j 0 ≤ r.slot_size

length-window : (r : Ring) (n i : ℕ) → length (window r n i) ≡ n
length-window r zero i = refl
length-window r (suc n) i = ap suc (length-window r n (i + 1))

pub length-contents : (r : Ring) → length (contents r) ≡ r.tail - r.head
length-contents r = length-window r (r.tail - r.head) r.head

-- Indices less than the number of slots apart have different slots.
mod_apart : (n i d : ℕ) → 0 < d → d < n → (i + d) % n ≢ i % n
mod_apart n i d pos less e = elim (dec_lt (i % n + d) n) [
  | yes h ↦ absurd (omega (arith, mod-add-mod i n d, mod-eq_of_lt h, e))
  | no h ↦ absurd (
      omega (
        arith,
        mod-add-mod i n d,
        mod-eq-sub-mod {n = i % n + d} {m = n} (omega arith),
        mod-eq_of_lt {n = i % n + d - n} {m = n} (omega (arith, mod-lt i {m = n} (omega arith))),
        mod-lt i {m = n} (omega arith),
        e,
      ))
]

-- Different slots do not overlap.
slots_apart : (a b s : ℕ) → a < b → a * s + s ≤ b * s
slots_apart a b s h = omega (arith, ap (λ k. k * s) split)
  where
    split : a + 1 + (b - (a + 1)) ≡ b
    split = omega arith

slot_inside :
    (r : Ring)
    → IsRing r
    → (i : ℕ) → i % r.slot_count * r.slot_size + r.slot_size ≤ length r.storage
slot_inside r v i =
    omega (
      arith,
      slots_apart (i % r.slot_count) r.slot_count r.slot_size (mod-lt i v.some_slot),
      v.room,
    )

window_same :
    (r r' : Ring) (n i : ℕ)
    → ((k : ℕ) → i ≤ k → k < i + n → chunk r' k ≡ chunk r k)
    → window r' n i ≡ window r n i
window_same r r' zero i h = refl
window_same r r' (suc n) i h =
    ap₂ ◌∷◌ (h i (omega arith) (omega arith))
      (window_same r r' n (i + 1) (λ k a b. h k (omega arith) (omega arith)))

window_snoc : (r : Ring) (n i : ℕ) → window r (suc n) i ≡ window r n i ++ (chunk r (i + n) ∷ [])
window_snoc r zero i = ap (λ k. chunk r k ∷ []) (omega arith)
window_snoc r (suc n) i =
    ap (◌∷◌ (chunk r i))
      (window_snoc r n (i + 1) ∙ ap (λ k. window r n (i + 1) ++ (chunk r k ∷ [])) shift)
  where
    shift : i + 1 + n ≡ i + suc n
    shift = omega arith

set_fits :
    (bound : ℕ) (xs : List ℕ) (i x : ℕ)
    → x ≤ bound
    → ((j : ℕ) → get_or xs j 0 ≤ bound)
    → (j : ℕ) → get_or (set xs i x) j 0 ≤ bound
set_fits bound [] i x h all j = all j
set_fits bound (y ∷ ys) zero x h all zero = h
set_fits bound (y ∷ ys) zero x h all (suc j) = all (suc j)
set_fits bound (y ∷ ys) (suc i) x h all zero = all zero
set_fits bound (y ∷ ys) (suc i) x h all (suc j) = set_fits bound ys i x h (λ k. all (suc k)) j

module _ (r : Ring) (v : IsRing r) where
  pub differs : sub_u64 r.tail r.head ≡ r.tail - r.head
  differs = omega (arith, v.unwrapped, v.ordered)

  -- `tryAcquire` fails just for a full ring.
  pub try_acquire-full : r.tail - r.head ≡ r.slot_count → try_acquire r ≡ none
  unfolding try_acquire
  try_acquire-full e = rw differs (ground (arith, e))

  pub try_acquire-room :
      r.tail - r.head < r.slot_count
      → try_acquire r
        ≡ some (record { position = r.tail % r.slot_count * r.slot_size; capacity = r.slot_size })
  unfolding try_acquire
  try_acquire-room e = rw differs (ground (arith, e))

  -- The slot of the index `tail` is none of those with a chunk.
  tail_apart :
      r.tail - r.head < r.slot_count
      → (k : ℕ) → r.head ≤ k
      → k < r.tail
      → r.tail % r.slot_count ≢ k % r.slot_count
  tail_apart free k a b =
      rw split (mod_apart r.slot_count k (r.tail - k) (omega arith) (omega arith))
    where
      split : r.tail ≡ k + (r.tail - k)
      split = omega arith

  chunk-write_at :
      (bytes : Bytes)
      → r.tail - r.head < r.slot_count
      → length bytes ≤ r.slot_size
      → (k : ℕ) → r.head ≤ k
      → k < r.tail
      → chunk (write_at r (r.tail % r.slot_count * r.slot_size) bytes) k ≡ chunk r k
  unfolding write_at
  chunk-write_at bytes free fits k a b = elim (dec_lt (k % r.slot_count) (r.tail % r.slot_count)) [
    | yes h ↦
        slice-splice_before r.storage bytes at from size
          (omega
            (arith, slots_apart (k % r.slot_count) (r.tail % r.slot_count) r.slot_size h, small))
          (omega (arith, inside))
    | no h ↦
        slice-splice_behind r.storage bytes at from size
          (omega (
            arith,
            slots_apart (r.tail % r.slot_count) (k % r.slot_count) r.slot_size
                (omega (arith, apart)),
          ))
          (omega (arith, inside))
  ]
    where
      at : ℕ
      at = r.tail % r.slot_count * r.slot_size

      from : ℕ
      from = k % r.slot_count * r.slot_size

      size : ℕ
      size = get_or r.sizes (k % r.slot_count) 0

      small : size ≤ r.slot_size
      small = v.sizes_fit (k % r.slot_count)

      inside : at + r.slot_size ≤ length r.storage
      inside = slot_inside r v r.tail

      apart : r.tail % r.slot_count ≢ k % r.slot_count
      apart = tail_apart free k a b

  -- A write to the acquired slot touches no chunk of the consumer.
  pub contents-write_at :
      (bytes : Bytes)
      → r.tail - r.head < r.slot_count
      → length bytes ≤ r.slot_size
      → contents (write_at r (r.tail % r.slot_count * r.slot_size) bytes) ≡ contents r
  unfolding write_at
  contents-write_at bytes free fits =
      window_same r (write_at r (r.tail % r.slot_count * r.slot_size) bytes) (r.tail - r.head)
        r.head (λ k a b. chunk-write_at bytes free fits k a (omega (arith, v.ordered)))

  pub write_at-IsRing :
      (bytes : Bytes)
      → length bytes ≤ r.slot_size
      → IsRing (write_at r (r.tail % r.slot_count * r.slot_size) bytes)
  unfolding write_at
  write_at-IsRing bytes fits = record {
    some_slot = v.some_slot;
    few_slots = v.few_slots;
    room =
        length-splice r.storage bytes (r.tail % r.slot_count * r.slot_size)
          (omega (arith, slot_inside r v r.tail))
        ∙ v.room;
    sized = v.sized;
    ordered = v.ordered;
    bounded = v.bounded;
    unwrapped = v.unwrapped;
    sizes_fit = v.sizes_fit;
  }

  -- What was written is in the slot.
  pub write_at_slot :
      (bytes : Bytes)
      → length bytes ≤ r.slot_size
      → let at = r.tail % r.slot_count * r.slot_size in
        slice (write_at r at bytes).storage at (length bytes) ≡ bytes
  unfolding write_at
  write_at_slot bytes fits =
      slice-splice_self r.storage bytes (r.tail % r.slot_count * r.slot_size)
        (omega (arith, slot_inside r v r.tail))

  -- The sizes of the chunks stay when another one is committed.
  pub commit_sizes :
      (size k : ℕ)
      → r.tail - r.head < r.slot_count
      → r.head ≤ k
      → k < r.tail
      → get_or (commit r size).sizes (k % r.slot_count) 0 ≡ get_or r.sizes (k % r.slot_count) 0
  unfolding commit
  commit_sizes size k free a b =
      get_or-set_ne r.sizes (r.tail % r.slot_count) (k % r.slot_count) size 0
        (tail_apart free k a b)

  -- `commit` appends the first bytes of the acquired slot.
  pub contents-commit :
      (size : ℕ)
      → r.tail - r.head < r.slot_count
      → r.tail + 1 < u64_mod
      → contents (commit r size)
        ≡ contents r ++ (slice r.storage (r.tail % r.slot_count * r.slot_size) size ∷ [])
  unfolding commit
  contents-commit size free small =
      ap (λ n. window (commit r size) (n - r.head) r.head) next
      ∙ ap (λ n. window (commit r size) n r.head) one_more
      ∙ window_snoc (commit r size) (r.tail - r.head) r.head
      ∙ ap₂ (λ x y. x ++ (y ∷ [])) old new
    where
      next : inc_u64 r.tail ≡ r.tail + 1
      next = omega arith

      one_more : r.tail + 1 - r.head ≡ suc (r.tail - r.head)
      one_more = omega (arith, v.ordered)

      old : window (commit r size) (r.tail - r.head) r.head ≡ contents r
      old = window_same r (commit r size) (r.tail - r.head) r.head (λ k a b.
          ap (λ n. slice r.storage (k % r.slot_count * r.slot_size) n)
            (commit_sizes size k free a (omega (arith, v.ordered))))

      here : r.head + (r.tail - r.head) ≡ r.tail
      here = omega (arith, v.ordered)

      new :
          chunk (commit r size) (r.head + (r.tail - r.head))
          ≡ slice r.storage (r.tail % r.slot_count * r.slot_size) size
      new =
          ap (chunk (commit r size)) here
          ∙ ap (λ n. slice r.storage (r.tail % r.slot_count * r.slot_size) n)
              (get_or-set_self r.sizes (r.tail % r.slot_count) size 0
                (omega (arith, mod-lt r.tail v.some_slot, v.sized)))

  pub commit-IsRing :
      (size : ℕ)
      → r.tail - r.head < r.slot_count
      → r.tail + 1 < u64_mod
      → size ≤ r.slot_size
      → IsRing (commit r size)
  unfolding commit
  commit-IsRing size free small fits = record {
    some_slot = v.some_slot;
    few_slots = v.few_slots;
    room = v.room;
    sized = length-set r.sizes (r.tail % r.slot_count) size ∙ v.sized;
    ordered = omega (arith, v.ordered);
    bounded = omega (arith, v.bounded);
    unwrapped = omega arith;
    sizes_fit = set_fits r.slot_size r.sizes (r.tail % r.slot_count) size fits v.sizes_fit;
  }

  -- `tryPeek` shows the oldest chunk, and `release` drops it.
  pub try_peek-none : r.tail ≡ r.head → try_peek r ≡ none
  unfolding try_peek
  try_peek-none e = ground (arith, e)

  pub try_peek-some :
      r.head < r.tail
      → try_peek r
        ≡ some (record {
          position = r.head % r.slot_count * r.slot_size;
          size = get_or r.sizes (r.head % r.slot_count) 0;
        })
  unfolding try_peek
  try_peek-some h = ground arith

  pub contents-release : r.head < r.tail → contents r ≡ chunk r r.head ∷ contents (release r)
  unfolding release
  contents-release h =
      ap (λ n. window r n r.head) one_less
      ∙ ap (◌∷◌ (chunk r r.head)) (
          sym (window_same r (release r) (r.tail - (r.head + 1)) (r.head + 1) (λ k a b. refl))
          ∙ ap (λ i. window (release r) (r.tail - i) i) (sym next))
    where
      one_less : r.tail - r.head ≡ suc (r.tail - (r.head + 1))
      one_less = omega arith

      next : inc_u64 r.head ≡ r.head + 1
      next = omega (arith, v.unwrapped)

  pub release-IsRing : r.head < r.tail → IsRing (release r)
  unfolding release
  release-IsRing h = record {
    some_slot = v.some_slot;
    few_slots = v.few_slots;
    room = v.room;
    sized = v.sized;
    ordered = omega (arith, v.unwrapped);
    bounded = omega (arith, v.bounded, v.unwrapped);
    unwrapped = v.unwrapped;
    sizes_fit = v.sizes_fit;
  }
