-- ===== src/Ring/Runs.antt =====
-- A ring of two slots of three bytes under a sample order of steps.
use log_transfer_analyzer.Prelude.{◌≤◌, ◌*◌, ◌≡◌, refl, List, [], ◌∷◌, ◌++◌, codes, length, arith}
use log_transfer_analyzer.Ring.{
  try_acquire, write_at, commit, try_peek, release, create, ring_slot_count_for, ring_budget_bytes,
}
use log_transfer_analyzer.Ring.Contents.{contents}
use log_transfer_analyzer.Ring.Interleaving.{
  Event, fill, publish, look, free, run_events, start, run_events_fifo,
}
use log_transfer_analyzer.Ring.Budget.{ring_slot_count_for_budget}

-- The third chunk finds no slot; the first is read after the second was written.
abbrev events : List Event
events =
    fill (codes "abc")
    ∷ publish
    ∷ look
    ∷ fill (codes "de")
    ∷ publish
    ∷ fill (codes "f")
    ∷ free
    ∷ look
    ∷ free
    ∷ []

received_in_order : (run_events (start 2 3) events).1.received ≡ codes "abc" ∷ codes "de" ∷ []
unfolding run_events create try_acquire write_at commit try_peek release
received_in_order = refl

run_events_fifo_example :
    ((run_events (start 2 3) events).1.received ++ contents (run_events (start 2 3) events).0.ring
      ≡ (run_events (start 2 3) events).1.sent)
    × (length (contents (run_events (start 2 3) events).0.ring)
        ≤ (run_events (start 2 3) events).0.ring.slot_count)
run_events_fifo_example = run_events_fifo 2 3 events (omega arith) (omega arith) (omega arith)

ring_slot_count_for_budget_example :
    (4 ≤ ring_slot_count_for 100000)
    × (ring_slot_count_for 100000 ≤ 64)
    × (ring_slot_count_for 100000 * 100000 ≤ ring_budget_bytes)
ring_slot_count_for_budget_example = ring_slot_count_for_budget 100000 (omega arith)
