-- ===== src/Ring.antt =====
-- common/util/SpscRingBuffer.h and SpscRingBuffer.cpp: the ring between the thread that receives
-- and the thread that parses. A pointer into `_storage` is its position. The atomics are their
-- values: each operation loads the two indices once, and stores one of them last.
pub mod Contents
pub mod Interleaving
pub mod Budget
mod Runs
use log_transfer_analyzer.Prelude.{
  ℕ, ◌+◌, ◌*◌, ◌/◌, ◌%◌, Bool, List, Option, none, some, ◌==◌, ltb, if◌then◌else◌, replicate, set,
  get_or, Bytes, slice, splice, sub_u64, inc_u64,
}

abbrev pub default_slot_count : ℕ
default_slot_count = 64

abbrev pub ring_budget_bytes : ℕ
ring_budget_bytes = 4 * 1024 * 1024

abbrev pub min_slot_count : ℕ
min_slot_count = 4

-- `ringSlotCountFor`.
unfoldable pub ring_slot_count_for : ℕ → ℕ
ring_slot_count_for slot_size =
    let within_budget = ring_budget_bytes / slot_size in
    if slot_size == 0
    then default_slot_count
    else if ltb within_budget min_slot_count
    then min_slot_count
    else if ltb within_budget default_slot_count
    then within_budget
    else default_slot_count

-- `SpscRingBuffer`.
pub record Ring : Type 0 where
  pub slot_count : ℕ
  pub slot_size : ℕ
  pub storage : Bytes
  pub sizes : List ℕ
  pub head : ℕ
  pub tail : ℕ

-- `WriteSlot`.
pub record WriteSlot : Type 0 where
  pub position : ℕ
  pub capacity : ℕ

-- `ReadView`.
pub record ReadView : Type 0 where
  pub position : ℕ
  pub size : ℕ

-- The constructor.
unfoldable pub create : ℕ → ℕ → Ring
create slot_count slot_size = record {
  slot_count = slot_count;
  slot_size = slot_size;
  storage = replicate (slot_count * slot_size) 0;
  sizes = replicate slot_count 0;
  head = 0;
  tail = 0;
}

-- `tryAcquire`.
unfoldable pub try_acquire : Ring → Option WriteSlot
try_acquire r =
    if sub_u64 r.tail r.head == r.slot_count
    then none
    else some (record { position = r.tail % r.slot_count * r.slot_size; capacity = r.slot_size })

-- What the producer does with the slot: it copies bytes to the pointer.
unfoldable pub write_at : Ring → ℕ → Bytes → Ring
write_at r position bytes = record r { storage = splice r.storage position bytes }

-- `commit`.
unfoldable pub commit : Ring → ℕ → Ring
commit r size = record r { sizes = set r.sizes (r.tail % r.slot_count) size; tail = inc_u64 r.tail }

-- `full`.
pub full : Ring → Bool
full r = sub_u64 r.tail r.head == r.slot_count

-- `tryPeek`.
unfoldable pub try_peek : Ring → Option ReadView
try_peek r =
    if r.tail == r.head
    then none
    else some (record {
      position = r.head % r.slot_count * r.slot_size;
      size = get_or r.sizes (r.head % r.slot_count) 0;
    })

-- The bytes behind a view.
abbrev pub viewed : Ring → ReadView → Bytes
viewed r view = slice r.storage view.position view.size

-- `release`.
unfoldable pub release : Ring → Ring
release r = record r { head = inc_u64 r.head }

-- `empty`.
pub empty : Ring → Bool
empty r = r.tail == r.head
