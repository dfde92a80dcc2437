-- ===== src/Ring/Budget.antt =====
-- `ringSlotCountFor` and the memory budget of the ring.
use log_transfer_analyzer.Prelude.{ℕ, zero, suc, ◌+◌, ◌-◌, ◌*◌, ◌/◌, ◌≤◌, ◌≡◌, ap, arith}
use native.Mathlib.Nat.{div-add-mod', mod-lt}
use native.Mathlib.Decide.{dec_lt}
use log_transfer_analyzer.Ring.{ring_slot_count_for, ring_budget_bytes}

mul_mono : (a b c : ℕ) → a ≤ b → a * c ≤ b * c
mul_mono a b c h = omega (arith, ap (λ k. k * c) split)
  where
    split : a + (b - a) ≡ b
    split = omega arith

-- For slots of at most a megabyte, the ring has between 4 and 64 of them, and stays within its
-- budget of four megabytes.
pub ring_slot_count_for_budget :
    (slot_size : ℕ)
    → slot_size ≤ 1024 * 1024
    → (4 ≤ ring_slot_count_for slot_size)
      × (ring_slot_count_for slot_size ≤ 64)
      × (ring_slot_count_for slot_size * slot_size ≤ ring_budget_bytes)
unfolding ring_slot_count_for
ring_slot_count_for_budget zero small = (omega arith, omega arith, omega arith)
ring_slot_count_for_budget (suc s) small =
    let split = div-add-mod' ring_budget_bytes (suc s) in
    let low = mod-lt ring_budget_bytes {m = suc s} (omega arith) in
    let q : ℕ = ring_budget_bytes / suc s in
    let least : 4 ≤ q = elim (dec_lt q 4) [
      | no h ↦ omega arith
      | yes h ↦ absurd (omega (arith, mul_mono q 3 (suc s) (omega arith)))
    ] in
    elim (dec_lt q 64) [
      | yes h ↦ ground (arith, least)
      | no h ↦ ground (arith, mul_mono 64 q (suc s) (omega arith))
    ]
